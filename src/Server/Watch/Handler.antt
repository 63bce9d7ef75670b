-- ===== src/Server/Watch/Handler.antt =====
-- `event_handler` and `disconnect_idle_conns`, and what the connections wait for after them.
use lightcache.Base.{
  ℕ, ◌+◌, ◌≡◌, ◌∙◌, ap, refl, sym, false, ◌||◌, Option, none, some, List, [], ◌∷◌, arith,
  Bool-cases, inl, inr,
}
use lightcache.Base.Run.{ok, After, after_bind, after_if, after_ok, by_option, by_if}
use lightcache.Protocol.{
  Conn, ConnState, read_header, read_key, read_data, read_extra, conn_closed, cmd_received,
  cmd_sent, send_header, send_data, SocketState, need_more, read_completed, read_err, send_err,
  send_completed, failed,
}
use lightcache.Server.State.{Env, Server, place, set_conn}
use lightcache.Server.Resources.{set_conn_state, disconnect_conn}
use lightcache.Server.Events.{
  Event, readable, writable, find_free, open_conn, new_conn, make_conn, accept_conn, is_closed,
  close_on_error, handle_event, event_handler, is_idle, disconnect_idle_from, disconnect_idle_conns,
}
use lightcache.Server.Watch.{
  AllWatched, OthersWatched, others-place, all-place, closed, disconnect_conn-AllWatched,
}
use lightcache.Server.Watch.Transitions.{read_header-AllWatched}
use lightcache.Server.Watch.Reading.{try_read_request-AllWatched}
use lightcache.Server.Watch.Sending.{try_send_response-AllWatched}

module _ (env : Env) where
  open env use {Table, alloc_ok, stale_out}

  abbrev Answered : Server Table → Type 0
  Answered s = AllWatched s.conns

  disconnect-AllWatched :
      (s : Server Table) (c : ℕ) → Answered s → After (disconnect_conn env s c) Answered
  disconnect-AllWatched s c all =
      disconnect_conn-AllWatched env c (s.conns c).watch (s.conns c).free s
        (record { others = λ d ne. all d; in_use = refl; waits = refl })

  close_on_error-AllWatched :
      (s : Server Table) (c : ℕ) (ret : SocketState)
      → Answered s
      → After (close_on_error env s c ret) Answered
  close_on_error-AllWatched s c read_err all = disconnect-AllWatched s c all
  close_on_error-AllWatched s c send_err all = disconnect-AllWatched s c all
  close_on_error-AllWatched s c need_more all = after_ok _ all
  close_on_error-AllWatched s c read_completed all = after_ok _ all
  close_on_error-AllWatched s c send_completed all = after_ok _ all
  close_on_error-AllWatched s c failed all = after_ok _ all

  -- No connection was made, or the one that was made is in use.
  abbrev Made : Server Table × Option ℕ → Type 0
  Made (s, none) = Answered s
  Made (s, some c) = OthersWatched s.conns c × ((s.conns c).free ≡ false)

  open_conn-Made :
      (s : Server Table) (c : ℕ) (conn : Conn) → Answered s → Made (open_conn env s c conn)
  open_conn-Made s c conn all = (others-place s.conns c _ (λ d ne. all d), ground arith)

  make_conn-Made : (s : Server Table) (fd : ℕ) → Answered s → Made (make_conn env s fd)
  unfolding make_conn
  make_conn-Made s fd all =
      let s' = record s { allocs = s.allocs + 1 } in
      let c = s.next_conn in
      by_option Made (find_free env s s.conn_list) _ _
        (by_if Made (alloc_ok s.allocs) _ _
          (open_conn-Made (record s' { conn_list = c ∷ s.conn_list; next_conn = c + 1 }) c
            (new_conn env fd (stale_out s.allocs)) all)
          all)
        (λ c. open_conn-Made s c (record (s.conns c) { fd = fd; sent = [] }) all)

  accepted-AllWatched :
      (r : Server Table × Option ℕ)
      → Made r
      → After (elim r.1 [ none ↦ ok r.0 | some c ↦ set_conn_state env r.0 c read_header ]) Answered
  accepted-AllWatched (s, none) all = after_ok s all
  accepted-AllWatched (s, some c) (others, in_use) =
      read_header-AllWatched env c (s.conns c).watch s
        (record { others = others; in_use = in_use; waits = refl })

  accept_conn-AllWatched :
      (s : Server Table) (accepted : Option ℕ)
      → Answered s
      → After (accept_conn env s accepted) Answered
  unfolding accept_conn
  accept_conn-AllWatched s none all = after_ok s all
  accept_conn-AllWatched s (some fd) all =
      accepted-AllWatched (make_conn env s fd) (make_conn-Made s fd all)

  handle_event-AllWatched :
      (s : Server Table) (c : ℕ) (ev : Event)
      → Answered s
      → closed (s.conns c).state ≡ false
      → After (handle_event env s c ev) Answered
  unfolding handle_event
  handle_event-AllWatched s c (readable input accepted) all f =
      after_if (s.conns c).listening _ _ (accept_conn-AllWatched s accepted all) (
        after_bind _ _ (try_read_request-AllWatched env c (s.conns c).state s input all refl f)
          λ r a. close_on_error-AllWatched r.0 c r.1 a)
  handle_event-AllWatched s c (writable outcome) all f =
      after_bind _ _ (try_send_response-AllWatched env c (s.conns c).state s outcome all refl f)
        λ r a. close_on_error-AllWatched r.0 c r.1 a

  is_closed-closed : (st : ConnState) → is_closed env st ≡ closed st
  is_closed-closed read_header = refl
  is_closed-closed read_key = refl
  is_closed-closed read_data = refl
  is_closed-closed read_extra = refl
  is_closed-closed conn_closed = refl
  is_closed-closed cmd_received = refl
  is_closed-closed cmd_sent = refl
  is_closed-closed send_header = refl
  is_closed-closed send_data = refl

  heard-AllWatched :
      (s : Server Table) (c : ℕ) (ev : Event)
      → Answered s
      → is_closed env (s.conns c).state ≡ false
      → After
          (handle_event env (set_conn s c (record (s.conns c) { last_heard = s.now })) c ev)
          Answered
  heard-AllWatched s c ev all e =
      let conn = record (s.conns c) { last_heard = s.now } in
      let heard =
        all-place s.conns c conn (λ d ne. all d)
          (record { watch = (all c).watch; free = (all c).free }) in
      let same : (place s.conns c conn c).state ≡ (s.conns c).state = ground arith in
      handle_event-AllWatched (set_conn s c conn) c ev heard
        (ap closed same ∙ sym (is_closed-closed (s.conns c).state) ∙ e)

  -- If every connection waits for what its state handles (to read a request, or to write a
  -- response) and is free exactly when it is closed, then so it is after an event on any
  -- connection that the handler gets through.
  pub event_handler-AllWatched :
      (s : Server Table) (c : ℕ) (ev : Event)
      → AllWatched s.conns
      → After (event_handler env s c ev) λ s'. AllWatched s'.conns
  unfolding event_handler
  event_handler-AllWatched s c ev all = elim (Bool-cases (is_closed env (s.conns c).state)) [
    | inl e ↦ rw e (after_ok s all)
    | inr e ↦ rw e (heard-AllWatched s c ev all e)
  ]

  disconnect_idle_from-AllWatched :
      (cs : List ℕ) (s : Server Table) → Answered s → After (disconnect_idle_from env cs s) Answered
  unfolding disconnect_idle_from
  disconnect_idle_from-AllWatched [] s all = after_ok s all
  disconnect_idle_from-AllWatched (c ∷ cs) s all =
      after_if ((s.conns c).free || (s.conns c).listening) _ _ (after_ok s all) (
        after_bind _ _
          (after_if (is_idle env s (s.conns c)) _ _ (disconnect-AllWatched s c all)
            (after_ok s all))
          (disconnect_idle_from-AllWatched cs))

  -- Under the same conditions, dropping the idle connections keeps them, if it gets through.
  pub disconnect_idle_conns-AllWatched :
      (s : Server Table)
      → AllWatched s.conns
      → After (disconnect_idle_conns env s) λ s'. AllWatched s'.conns
  unfolding disconnect_idle_conns
  disconnect_idle_conns-AllWatched s all = disconnect_idle_from-AllWatched s.conn_list s all
