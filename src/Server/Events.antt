-- ===== src/Server/Events.antt =====
-- Connections come and go: `make_conn`, `event_handler` and `disconnect_idle_conns` of
-- src/lightcache.c.
use lightcache.Base.{
  u32, u64, ℕ, ◌+◌, ◌-◌, ◌^◌, Bool, true, false, ◌||◌, List, [], ◌∷◌, Option, none, some, ltb,
  if◌then◌else◌,
}
use lightcache.Base.Run.{Run, ok, ◌>>=◌}
use lightcache.Protocol.{
  Conn, Response, ConnState, read_header, conn_closed, SocketState, read_err, send_err, unwatched,
}
use lightcache.Server.State.{Env, Server, set_conn, set_stats}
use lightcache.Server.Resources.{disconnect_conn, set_conn_state}
use lightcache.Server.Reading.{ReadResult, try_read_request}
use lightcache.Server.Sending.{WriteResult, try_send_response}

-- An event on a connection with what the system calls in its handler give: for EVENT_READ the
-- result of `read` and that of `accept`, a descriptor or a failure, of which one is used.
pub data Event : Type 0 where
  readable : ReadResult → Option ℕ → Event
  writable : WriteResult → Event

module _ (env : Env) where
  open env use {alloc_ok, stale_out, Table}

  -- The first free connection of the list.
  unfoldable pub find_free : Server Table → List ℕ → Option ℕ
  find_free s [] = none
  find_free s (c ∷ cs) = let rest = find_free s cs in if (s.conns c).free then some c else rest

  -- The assignments at the end of `make_conn`.
  abbrev pub open_conn : Server Table → ℕ → Conn → Server Table × Option ℕ
  open_conn s c conn = (
    set_stats
        (set_conn s c
          (record conn { last_heard = s.now; listening = false; free = false; request = none }))
        (record s.stats { curr_connections = u64 (s.stats.curr_connections + 1) }),
    some c,
  )

  -- A new connection. The field `out` is left as the memory holds it.
  abbrev pub new_conn : ℕ → Response → Conn
  new_conn fd stale = record {
    fd = fd;
    listening = false;
    free = false;
    last_heard = 0;
    state = read_header;
    request = none;
    out = stale;
    watch = unwatched;
    sent = [];
  }

  unfoldable pub make_conn : Server Table → ℕ → Server Table × Option ℕ
  unfolding find_free
  make_conn s fd = elim (find_free s s.conn_list) [
    | some c ↦ open_conn s c (record (s.conns c) { fd = fd; sent = [] })
    | none ↦
        let s' = record s { allocs = s.allocs + 1 } in
        let c = s.next_conn in
        if alloc_ok s.allocs
        then open_conn (record s' { conn_list = c ∷ s.conn_list; next_conn = c + 1 }) c
            (new_conn fd (stale_out s.allocs))
        else (s', none)
  ]

  abbrev pub is_closed : ConnState → Bool
  is_closed conn_closed = true
  is_closed _ = false

  -- `accept` and the new connection, which waits for a header
  unfoldable pub accept_conn : Server Table → Option ℕ → Run (Server Table)
  unfolding make_conn
  accept_conn s none = ok s
  accept_conn s (some fd) =
      let (s', made) = make_conn s fd in
      elim made [ none ↦ ok s' | some c ↦ set_conn_state env s' c read_header ]

  -- The end of the handler: only these two results close the connection.
  abbrev pub close_on_error : Server Table → ℕ → SocketState → Run (Server Table)
  close_on_error s c read_err = disconnect_conn env s c
  close_on_error s c send_err = disconnect_conn env s c
  close_on_error s c ret = ok s

  unfoldable pub handle_event : Server Table → ℕ → Event → Run (Server Table)
  unfolding accept_conn
  handle_event s c (readable input accepted) =
      let accepting = accept_conn s accepted in
      let reading =
        (try_read_request env s c input (s.conns c).state >>= λ (s', ret).
        close_on_error s' c ret) in
      if (s.conns c).listening then accepting else reading
  handle_event s c (writable outcome) = do
    (s', ret) ← try_send_response env s c outcome (s.conns c).state
    close_on_error s' c ret

  unfoldable pub event_handler : Server Table → ℕ → Event → Run (Server Table)
  unfolding handle_event
  event_handler s c ev =
      let heard = set_conn s c (record (s.conns c) { last_heard = s.now }) in
      if is_closed (s.conns c).state then ok s else handle_event heard c ev

  -- `(unsigned int)(CURRENT_TIME - conn->last_heard) > settings.idle_conn_timeout`
  abbrev pub is_idle : Server Table → Conn → Bool
  is_idle s conn = ltb s.idle_conn_timeout (u32 (u64 (s.now + 2 ^ 64 - conn.last_heard)))

  abbrev pub drop_if_idle : Server Table → ℕ → Run (Server Table)
  drop_if_idle s c = if is_idle s (s.conns c) then disconnect_conn env s c else ok s

  -- The loop stops at the first connection that is free or listening.
  unfoldable pub disconnect_idle_from : List ℕ → Server Table → Run (Server Table)
  disconnect_idle_from [] s = ok s
  disconnect_idle_from (c ∷ cs) s =
      if (s.conns c).free || (s.conns c).listening
      then ok s
      else (drop_if_idle s c >>= disconnect_idle_from cs)

  unfoldable pub disconnect_idle_conns : Server Table → Run (Server Table)
  unfolding disconnect_idle_from
  disconnect_idle_conns s = disconnect_idle_from s.conn_list s
