-- ===== src/Server/Answer.antt =====
-- Responses that `add_response` and `send_response` set up.
use lightcache.Base.{ℕ, ◌≡◌, true, u32}
use lightcache.Base.Run.{ok}
use lightcache.Protocol.{Request, Payload, nothing, Code, watch_write, code_value, send_header}
use lightcache.Protocol.Bytes.{write_resp_header}
use lightcache.Server.State.{Env, Server, Holds, load_in-Holds, set_conn}
use lightcache.Server.Resources.{enter_send_header, send_response, add_response}

module _ (env : Env) where
  open env use {Table}

  -- The state after a response is set up.
  abbrev pub responded : Server Table → ℕ → Request → Payload → ℕ → Code → Server Table
  responded s c q p n code =
      let conn = s.conns c in
      enter_send_header env
        (set_conn s c (record conn {
          out = record conn.out {
            resp_header =
                write_resp_header conn.out.resp_header q.header.opcode (code_value code) (u32 n);
            sdata = p;
            can_free = true;
          };
        }))
        c

  pub add_response_run :
      (s : Server Table) (c r : ℕ) (q : Request) (p : Payload) (n : ℕ) (code : Code)
      → Holds s c r q
      → add_response env s c p n code ≡ ok (responded s c q p n code)
  unfolding add_response
  add_response_run s c r q p n code h = rw (load_in-Holds s c r q h)

  pub send_response_run :
      (s : Server Table) (c r : ℕ) (q : Request) (code : Code)
      → Holds s c r q
      → send_response env s c code ≡ ok (responded s c q nothing 0 code)
  unfolding send_response
  send_response_run s c r q code h = add_response_run s c r q nothing 0 code h

  -- The connection has a response to send, whose header carries the code and the length `n`.
  pub record IsAnswered (s s' : Server Table) (c opcode : ℕ) (code : Code) (n : ℕ) (p : Payload)
      : Type 0 where
    pub state : (s'.conns c).state ≡ send_header
    pub watch : (s'.conns c).watch ≡ watch_write
    pub header :
        (s'.conns c).out.resp_header
        ≡ write_resp_header (s.conns c).out.resp_header opcode (code_value code) n
    pub payload : (s'.conns c).out.sdata ≡ p
