-- ===== src/Server/Resources.antt =====
-- Requests and responses of a connection, and its state changes: `free_request` to `set_conn_state`
-- of src/lightcache.c, with `event_set` and `event_del` of src/epoll.c as the field `watch`.
use lightcache.Base.{
  u32, u64, ℕ, ◌+◌, ◌-◌, ◌^◌, Bool, true, false, List, Option, none, some, if◌then◌else◌, replicate,
}
use lightcache.Base.Run.{Run, ok, fault, bad_free, ◌>>=◌}
use lightcache.Protocol.{
  Request, ConnState, read_header, read_key, read_data, conn_closed, send_header, read_extra, Code,
  code_value, out_of_memory, Payload, nothing, cached, Watch, unwatched, watch_read, watch_write,
}
use lightcache.Protocol.Bytes.{write_resp_header}
use lightcache.Server.State.{Env, Server, set_conn, set_request, set_stats, load, load_in, set_in}

module _ (env : Env) where
  open env use {alloc_ok, Table}

  abbrev pub Action : Type 0
  Action = Server Table → ℕ → Run (Server Table)

  -- `if ((!req) || (!req->can_free)) return;` and the frees, which end the life of the request
  unfoldable pub free_request : Action
  free_request s c = elim (s.conns c).request [
    | none ↦ ok s
    | some r ↦
        (load s (some r) >>= λ q.
        if q.can_free
        then ok (set_conn (set_request s r none) c (record (s.conns c) { request = none }))
        else ok s)
  ]

  -- `li_free(resp->sdata)` must not be asked for data that belongs to the cache.
  abbrev pub release_payload : Bool → Payload → Server Table → Run (Server Table)
  release_payload true (cached r) s = fault bad_free
  release_payload _ p s = ok s

  unfoldable pub free_response : Action
  free_response s c = do
    let out = (s.conns c).out
    s' ← release_payload out.can_free out.sdata s
    ok (set_conn s' c (record (s'.conns c) { out = record out { sdata = nothing } }))

  -- The request that `init_resources` fills in; the header is not initialised.
  abbrev pub fresh_request : Request
  fresh_request = record {
    header_bytes = replicate 12 0;
    header = record { opcode = 0; key_length = 0; data_length = 0; extra_length = 0 };
    rdata = none;
    rkey = none;
    rextra = none;
    rbytes = 0;
    received = 0;
    can_free = true;
  }

  -- The result is 1 or 0, as `true` or `false`.
  unfoldable pub init_resources : Server Table → ℕ → Run (Server Table × Bool)
  unfolding free_request free_response
  init_resources s c = do
    s₁ ← free_request s c
    s₂ ← free_response s₁ c
    let s₃ = record s₂ { allocs = s₂.allocs + 1 }
    let conn = s₃.conns c
    let r = s₃.next_request
    let out = record conn.out { sdata = nothing; sbytes = 0; can_free = true }
    if alloc_ok s₂.allocs
        then ok (
          record (set_conn (set_request s₃ r (some fresh_request)) c
              (record conn { request = some r; out = out })) { next_request = r + 1 },
          true,
        )
        else ok (set_conn s₃ c (record conn { request = none }), false)

  -- `conn->state = state;`
  abbrev pub enter : Server Table → ℕ → ConnState → Server Table
  enter s c st = set_conn s c (record (s.conns c) { state = st })

  -- `event_set(conn, flags)`: the set replaces what was there
  abbrev pub event_set : Server Table → ℕ → Watch → Server Table
  event_set s c w = set_conn s c (record (s.conns c) { watch = w })

  -- The last call, `set_conn_state(conn, CONN_CLOSED)`, only assigns the state.
  unfoldable pub disconnect_conn : Action
  unfolding free_request free_response
  disconnect_conn s c = do
    s₁ ← free_request s c
    s₂ ← free_response s₁ c
    let conn = record (s₂.conns c) { free = true; watch = unwatched; state = conn_closed }
    let stats = record s₂.stats { curr_connections = u64 (s₂.stats.curr_connections + 2 ^ 64 - 1) }
    ok (set_stats (set_conn s₂ c conn) stats)

  -- `set_conn_state(conn, SEND_HEADER)`
  abbrev pub enter_send_header : Server Table → ℕ → Server Table
  enter_send_header s c =
      let conn = s.conns c in
      set_conn s c (record conn {
        out = record conn.out { sbytes = 0 };
        watch = watch_write;
        state = send_header;
      })

  unfoldable pub add_response : Server Table → ℕ → Payload → ℕ → Code → Run (Server Table)
  unfolding write_resp_header
  add_response s c payload n code = do
    q ← load_in s c
    let conn = s.conns c
    let bytes = write_resp_header conn.out.resp_header q.header.opcode (code_value code) (u32 n)
    let out = record conn.out { resp_header = bytes; sdata = payload; can_free = true }
    ok (enter_send_header (set_conn s c (record conn { out = out })) c)

  unfoldable pub send_response : Server Table → ℕ → Code → Run (Server Table)
  unfolding add_response
  send_response s c code = add_response s c nothing 0 code

  -- A field is allocated and its state entered, or the client is told that memory is out.
  abbrev pub enter_read :
      Server Table → ℕ → ConnState → ℕ → (Option (List ℕ) → Request → Request) → Run (Server Table)
  enter_read s c st n assign = do
    q ← load_in s c
    let s' = record s { allocs = s.allocs + 1 }
    let filled = (set_in s' c (assign (some (replicate n 0)) q) >>= λ s''. ok (enter s'' c st))
    let failed = (set_in s' c (assign none q) >>= λ s''. send_response s'' c out_of_memory)
    if alloc_ok s.allocs then filled else failed

  unfoldable pub set_conn_state : Server Table → ℕ → ConnState → Run (Server Table)
  unfolding init_resources disconnect_conn send_response
  set_conn_state s c read_header = do
    (s', done) ← init_resources s c
    if done then ok (enter (event_set s' c watch_read) c read_header) else disconnect_conn s' c
  set_conn_state s c read_key = do
    q ← load_in s c
    enter_read s c read_key q.header.key_length (λ b r. record r { rkey = b })
  set_conn_state s c read_data = do
    q ← load_in s c
    enter_read s c read_data q.header.data_length (λ b r. record r { rdata = b })
  set_conn_state s c read_extra = do
    q ← load_in s c
    enter_read s c read_extra q.header.extra_length (λ b r. record r { rextra = b })
  set_conn_state s c send_header = ok (enter_send_header s c)
  set_conn_state s c st = ok (enter s c st)
