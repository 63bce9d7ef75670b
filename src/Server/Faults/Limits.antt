-- ===== src/Server/Faults/Limits.antt =====
-- A complete header: the limits on its sizes, and what the client is told (READ_HEADER in
-- `try_read_request` of src/lightcache.c).
use lightcache.Base.{
  ℕ, ◌+◌, ◌<◌, ◌≤◌, ◌≡◌, ◌⊎◌, ◌∙◌, ap, refl, inl, inr, true, false, none, some, arith, length,
  get_or, replicate, leb, ◌==◌, Bool-cases,
}
use lightcache.Base.Run.{Run, ok, ◌>>=◌, Returns}
use lightcache.Protocol.{
  Request, ReqHeader, SocketState, failed, read_completed, out_of_memory, send_header, read_key,
  watch_write, nothing,
}
use lightcache.Protocol.Bytes.{be32_at, decode_header}
use lightcache.Protocol.Headers.{write_resp_header-be32_at}
use lightcache.Server.State.{Env, Server, Holds, load_in-Holds, set_in-Holds, set_request}
use lightcache.Server.Resources.{set_conn_state, enter, send_response}
use lightcache.Server.Reading.{too_large, header_received}
use lightcache.Server.Faults.{
  IsRefused, after_header, with_header, with_header-Holds, header_received-after_header,
  send_response-IsRefused, header_received-IsRefused,
}

-- The sizes that the protocol allows: keys and extra data below 250 bytes, data below 1274 bytes.
pub record IsWithin (h : ReqHeader) : Type 0 where
  pub key : h.key_length < 250
  pub data_size : h.data_length < 1274
  pub extra : h.extra_length < 250

abbrev pub Exceeds : ReqHeader → Type 0
Exceeds h = (250 ≤ h.key_length) ⊎ (1274 ≤ h.data_length) ⊎ (250 ≤ h.extra_length)

module _ (env : Env) where
  open env use {Table, alloc_ok}

  -- Connection `c` waits to write eight bytes: the opcode, the code and the length 0, and no data.
  pub record IsReply (s' : Server Table) (c opcode code : ℕ) : Type 0 where
    pub state : (s'.conns c).state ≡ send_header
    pub watch : (s'.conns c).watch ≡ watch_write
    pub size : length (s'.conns c).out.resp_header ≡ 8
    pub opcode_byte : get_or (s'.conns c).out.resp_header 0 0 ≡ opcode
    pub code_byte : get_or (s'.conns c).out.resp_header 1 0 ≡ code
    pub data_length : be32_at (s'.conns c).out.resp_header 4 ≡ 0
    pub payload : (s'.conns c).out.sdata ≡ nothing

  -- What follows a header `h` in the request `q` at address `r`: a reply that a size is too large, without
  -- a request for memory; or the key is read next, into a new buffer; or a reply that memory is out.
  pub data IsHandled (s : Server Table) (c r : ℕ) (q : Request) (h : ReqHeader)
      (t : Server Table × SocketState) : Type 0 where
    refused :
        Exceeds h
        → t.1 ≡ failed
        → IsReply t.0 c h.opcode 3
        → t.0.allocs ≡ s.allocs
        → IsHandled s c r q h t
    reading :
        IsWithin h
        → t.1 ≡ read_completed
        → (t.0.conns c).state ≡ read_key
        → (t.0.conns c).watch ≡ (s.conns c).watch
        → t.0.requests r ≡ some (record q { header = h; rkey = some (replicate h.key_length 0) })
        → alloc_ok s.allocs ≡ true
        → IsHandled s c r q h t
    no_memory :
        IsWithin h
        → t.1 ≡ read_completed
        → IsReply t.0 c h.opcode 6
        → alloc_ok s.allocs ≡ false
        → IsHandled s c r q h t

  IsRefused-IsReply :
      (s s' : Server Table) (c opcode code : ℕ)
      → length (s.conns c).out.resp_header ≡ 8
      → IsRefused env s s' c opcode code
      → IsReply s' c opcode code
  IsRefused-IsReply s s' c opcode code size is =
      let (len, op, co, n, _, _) =
        write_resp_header-be32_at (s.conns c).out.resp_header opcode code 0 size (omega arith) in
      record {
        state = is.state;
        watch = is.watch;
        size = ap length is.header ∙ len;
        opcode_byte = ap (λ bs. get_or bs 0 0) is.header ∙ op;
        code_byte = ap (λ bs. get_or bs 1 0) is.header ∙ co;
        data_length = ap (λ bs. be32_at bs 4) is.header ∙ n;
        payload = is.payload;
      }

  module _ (s : Server Table) (c r : ℕ) (q : Request) (holds : Holds s c r q)
      (size : length (s.conns c).out.resp_header ≡ 8) where
    abbrev h : ReqHeader
    h = decode_header q.header_bytes

    abbrev q' : Request
    q' = record q { header = h }

    abbrev s' : Server Table
    s' = with_header env s r q

    holds' : Holds s' c r q'
    holds' = with_header-Holds env s c r q holds

    exceeding : too_large env h ≡ true → Exceeds h
    exceeding e = elim (Bool-cases (leb 250 h.key_length)) [
      | inl k ↦ inl (ground (arith, k))
      | inr k ↦ elim (Bool-cases (leb 1274 h.data_length)) [
        | inl d ↦ inr (inl (ground (arith, d)))
        | inr d ↦ inr (inr (ground (arith, e, k, d)))
      ]
    ]

    within : too_large env h ≡ false → IsWithin h
    within e = record {
      key = ground (arith, e);
      data_size = ground (arith, e);
      extra = ground (arith, e);
    }

    too_much : too_large env h ≡ true → Returns (header_received env s c) (IsHandled s c r q h)
    too_much e =
        let (t, run, (ret, is)) = header_received-IsRefused env s c r q holds e in
        (t, run, refused (exceeding e) ret (IsRefused-IsReply s t.0 c h.opcode 3 size is) is.allocs)

    abbrev s₁ : Server Table
    s₁ = record s' { allocs = s.allocs + 1 }

    abbrev filled : Request
    filled = record q' { rkey = some (replicate h.key_length 0) }

    abbrev unfilled : Request
    unfilled = record q' { rkey = none }

    key_buffer :
        alloc_ok s.allocs ≡ true
        → set_conn_state env s' c read_key
          ≡ ok (enter env (set_request s₁ r (some filled)) c read_key)
    unfolding set_conn_state
    key_buffer e = rw (
      load_in-Holds s' c r q' holds',
      e,
      set_in-Holds s₁ c r q' filled (record { owner = holds'.owner; stored = holds'.stored }),
    )

    no_buffer :
        alloc_ok s.allocs ≡ false
        → set_conn_state env s' c read_key
          ≡ send_response env (set_request s₁ r (some unfilled)) c out_of_memory
    unfolding set_conn_state
    no_buffer e = rw (
      load_in-Holds s' c r q' holds',
      e,
      set_in-Holds s₁ c r q' unfilled (record { owner = holds'.owner; stored = holds'.stored }),
    )

    accepted :
        too_large env h ≡ false
        → h.key_length == 0 ≡ false
        → header_received env s c
          ≡ (set_conn_state env s' c read_key >>= λ t. ok (t, read_completed))
    accepted small keyed =
        header_received-after_header env s c r q holds
        ∙ ap (λ b. after_header env s' c b (h.key_length == 0)) small
        ∙ ap (after_header env s' c false) keyed

    to_key :
        too_large env h ≡ false
        → h.key_length == 0 ≡ false
        → Returns (header_received env s c) (IsHandled s c r q h)
    to_key small keyed = elim (Bool-cases (alloc_ok s.allocs)) [
      | inl e ↦ (
        (enter env (set_request s₁ r (some filled)) c read_key, read_completed),
        accepted small keyed
            ∙ ap (λ (m : Run (Server Table)). m >>= λ t. ok (t, read_completed)) (key_buffer e),
        reading (within small) refl (ground arith) (ground arith) (ground arith) e,
      )
      | inr e ↦
          let (t, run, is) =
            send_response-IsRefused env (set_request s₁ r (some unfilled)) c r unfilled
              out_of_memory (record { owner = holds'.owner; stored = ground arith }) in
          (
            (t, read_completed),
            accepted small keyed
                ∙ ap (λ (m : Run (Server Table)). m >>= λ x. ok (x, read_completed))
                    (no_buffer e ∙ run),
            no_memory (within small) refl
                (IsRefused-IsReply (set_request s₁ r (some unfilled)) t c h.opcode 6 size is) e,
          )
    ]

    -- A complete header with a key or with a size beyond the limits, on a connection that holds its
    -- request: it is refused exactly when its key or extra data has 250 bytes or more or its data 1274, and
    -- the client is then told so in the eight bytes of a reply without data; else the key is read next, or
    -- the client is told that memory is out.
    pub header_received-IsHandled :
        (0 < h.key_length) ⊎ Exceeds h → Returns (header_received env s c) (IsHandled s c r q h)
    header_received-IsHandled (inr large) = too_much (ground (arith, large))
    header_received-IsHandled (inl keyed) = elim (Bool-cases (too_large env h)) [
      | inl e ↦ too_much e
      | inr e ↦ to_key e (ground (arith, keyed))
    ]
