-- ===== src/Server/Faults.antt =====
-- The header of a request that announces too much, and one without a key (src/lightcache.c).
pub mod Limits
use lightcache.Base.{
  ℕ, ◌≡◌, ◌∙◌, ap, refl, Bool, true, false, none, some, arith, ◌==◌, if◌then◌else◌,
}
use lightcache.Base.Run.{Run, ok, fault, null_pointer, ◌>>=◌, Returns}
use lightcache.Protocol.{
  Request, cmd_received, cmd_get_setting, SocketState, failed, invalid_param_size, send_header,
  watch_write, nothing, code_value, read_completed, read_key, Code,
}
use lightcache.Protocol.Bytes.{decode_header, command_of, write_resp_header}
use lightcache.Server.State.{Env, Server, Holds, load_in-Holds, set_in-Holds, set_conn, set_request}
use lightcache.Server.Resources.{
  set_conn_state, enter, send_response, add_response, enter_send_header,
}
use lightcache.Server.Commands.{execute_get_setting, dispatch, execute_cmd}
use lightcache.Server.Reading.{too_large, header_received, receive_cmd, completed}

command_of_three : command_of 3 ≡ cmd_get_setting
unfolding command_of
command_of_three = refl

module _ (env : Env) where
  open env use {Table}

  -- What is known of a server after a reply without data.
  pub record IsRefused (s s' : Server Table) (c opcode code : ℕ) : Type 0 where
    pub state : (s'.conns c).state ≡ send_header
    pub watch : (s'.conns c).watch ≡ watch_write
    pub header :
        (s'.conns c).out.resp_header ≡ write_resp_header (s.conns c).out.resp_header opcode code 0
    pub payload : (s'.conns c).out.sdata ≡ nothing
    pub allocs : s'.allocs ≡ s.allocs

  -- What follows a header, by the sizes and by whether there is no key.
  abbrev pub after_header : Server Table → ℕ → Bool → Bool → Run (Server Table × SocketState)
  after_header s c large no_key =
      if large
      then (send_response env s c invalid_param_size >>= λ s'. ok (s', failed))
      else completed env s read_completed
          (if no_key then receive_cmd env s c else set_conn_state env s c read_key)

  abbrev pub with_header : Server Table → ℕ → Request → Server Table
  with_header s r q = set_request s r (some (record q { header = decode_header q.header_bytes }))

  pub with_header-Holds :
      (s : Server Table) (c r : ℕ) (q : Request)
      → Holds s c r q
      → Holds (with_header s r q) c r (record q { header = decode_header q.header_bytes })
  with_header-Holds s c r q h = record { owner = h.owner; stored = ground arith }

  pub header_received-after_header :
      (s : Server Table) (c r : ℕ) (q : Request)
      → Holds s c r q
      → header_received env s c
        ≡ after_header
            (with_header s r q)
            c
            (too_large env (decode_header q.header_bytes))
            ((decode_header q.header_bytes).key_length == 0)
  unfolding header_received
  header_received-after_header s c r q h =
      let q' = record q { header = decode_header q.header_bytes } in
      rw (load_in-Holds s c r q h, set_in-Holds s c r q q' h)

  pub send_response-IsRefused :
      (s : Server Table) (c r : ℕ) (q : Request) (code : Code)
      → Holds s c r q
      → Returns
          (send_response env s c code)
          λ s'. IsRefused s s' c q.header.opcode (code_value code)
  unfolding send_response add_response
  send_response-IsRefused s c r q code h = (
    enter_send_header env
        (set_conn s c (record (s.conns c) {
          out = record (s.conns c).out {
            resp_header =
                write_resp_header (s.conns c).out.resp_header q.header.opcode (code_value code) 0;
            sdata = nothing;
            can_free = true;
          };
        }))
        c,
    rw (load_in-Holds s c r q h),
    record {
      state = ground arith;
      watch = ground arith;
      header = ground arith;
      payload = ground arith;
      allocs = refl;
    },
  )

  -- A header that announces a key, data or extra data of the maximum or more is answered with the
  -- code for invalid sizes, whatever else it asks for, and no memory is requested.
  pub header_received-IsRefused :
      (s : Server Table) (c r : ℕ) (q : Request)
      → Holds s c r q
      → too_large env (decode_header q.header_bytes) ≡ true
      → Returns (header_received env s c) λ t.
        (t.1 ≡ failed)
        × IsRefused s t.0 c (decode_header q.header_bytes).opcode (code_value invalid_param_size)
  header_received-IsRefused s c r q h large =
      let q' = record q { header = decode_header q.header_bytes } in
      let (s', run, refused) =
        send_response-IsRefused (with_header s r q) c r q' invalid_param_size
          (with_header-Holds s c r q h) in
      (
        (s', failed),
        header_received-after_header s c r q h
            ∙ ap
                (λ b.
                  after_header (with_header s r q) c b
                    ((decode_header q.header_bytes).key_length == 0))
                large
            ∙ ap (λ (m : Run (Server Table)). m >>= λ t. ok (t, failed)) run,
        (
          refl,
          record {
            state = refused.state;
            watch = refused.watch;
            header = refused.header;
            payload = refused.payload;
            allocs = refused.allocs;
          },
        ),
      )

  execute_get_setting-null :
      (s : Server Table) (c r : ℕ) (q : Request)
      → Holds s c r q
      → q.rkey ≡ none
      → execute_get_setting env s c ≡ fault null_pointer
  unfolding execute_get_setting
  execute_get_setting-null s c r q h key = rw (load_in-Holds s c r q h, key)

  execute_cmd-null :
      (s : Server Table) (c r : ℕ) (q : Request)
      → Holds s c r q
      → (s.conns c).state ≡ cmd_received
      → q.rkey ≡ none
      → command_of q.header.opcode ≡ cmd_get_setting
      → execute_cmd env s c ≡ fault null_pointer
  unfolding execute_cmd dispatch
  execute_cmd-null s c r q h st key op =
      let q' = record q { received = s.now } in
      let s' = set_request s r (some q') in
      let h' : Holds s' c r q' = record { owner = h.owner; stored = ground arith } in
      rw (st, load_in-Holds s c r q h, set_in-Holds s c r q q' h, op)
        (execute_get_setting-null s' c r q' h' key)

  receive_cmd-null :
      (s : Server Table) (c r : ℕ) (q : Request)
      → Holds s c r q
      → q.rkey ≡ none
      → command_of q.header.opcode ≡ cmd_get_setting
      → receive_cmd env s c ≡ fault null_pointer
  unfolding receive_cmd set_conn_state
  receive_cmd-null s c r q h key op =
      execute_cmd-null (enter env s c cmd_received) c r q
        (record { owner = ground (arith, h.owner); stored = h.stored }) (ground arith) key op

  -- The header of a GET_SETTING without a key makes the command run at once, and the command then
  -- compares the name of the setting with a null key, whatever the sizes that the header gives.
  pub header_received-null_pointer :
      (s : Server Table) (c r : ℕ) (q : Request)
      → Holds s c r q
      → q.rkey ≡ none
      → (decode_header q.header_bytes).opcode ≡ 3
      → (decode_header q.header_bytes).key_length ≡ 0
      → too_large env (decode_header q.header_bytes) ≡ false
      → header_received env s c ≡ fault null_pointer
  header_received-null_pointer s c r q h key op len small =
      let q' = record q { header = decode_header q.header_bytes } in
      let command : command_of (decode_header q.header_bytes).opcode ≡ cmd_get_setting =
        ap command_of op ∙ command_of_three in
      let run =
        receive_cmd-null (with_header s r q) c r q' (with_header-Holds s c r q h) key command in
      let no_key : (decode_header q.header_bytes).key_length == 0 ≡ true = ground arith in
      header_received-after_header s c r q h
      ∙ ap
          (λ b.
            after_header (with_header s r q) c b ((decode_header q.header_bytes).key_length == 0))
          small
      ∙ ap (after_header (with_header s r q) c false) no_key
      ∙ ap (λ (m : Run (Server Table)). m >>= λ t. ok (t, read_completed)) run
