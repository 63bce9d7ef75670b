-- ===== src/Server/Loop.antt =====
-- The loop of main and `init_server_socket` of src/lightcache.c, and `event_process` of src/epoll.c.
pub mod Rounds
use lightcache.Base.{
  u64, ℕ, ◌+◌, ◌*◌, ◌/◌, Bool, true, false, List, [], ◌∷◌, Option, none, some, ltb, ◌==◌,
  if◌then◌else◌,
}
use lightcache.Base.Run.{Run, ok, fault, division_by_zero, ◌>>=◌, ◌>>◌}
use lightcache.Protocol.{watch_read}
use lightcache.Server.State.{Env, Server, set_conn}
use lightcache.Server.Reading.{ReadResult}
use lightcache.Server.Sending.{WriteResult}
use lightcache.Server.Events.{readable, writable, make_conn, event_handler, disconnect_idle_conns}

-- What `epoll_wait` reports of a connection: EPOLLIN with what `read` and `accept` then give, EPOLLOUT with
-- what `write` then gives.
pub record Ready : Type 0 where
  pub conn : ℕ
  pub input : Option (ReadResult × Option ℕ)
  pub output : Option WriteResult

-- One round of the loop: the time at its start and from the return of `epoll_wait` on, the events or a
-- failure of `epoll_wait`, and what `li_memused` gives.
pub record Round : Type 0 where
  pub ctime : ℕ
  pub now : ℕ
  pub events : Option (List Ready)
  pub memused : ℕ

-- The constant LIGHTCACHE_GARBAGE_COLLECT_RATIO_THRESHOLD
abbrev pub garbage_collect_ratio_threshold : ℕ
garbage_collect_ratio_threshold = 75

module _ (env : Env) where
  open env use {Table, htcreate}

  abbrev pub on_input : Server Table → ℕ → Option (ReadResult × Option ℕ) → Run (Server Table)
  on_input s c none = ok s
  on_input s c (some (input, accepted)) = event_handler env s c (readable input accepted)

  abbrev pub on_output : Server Table → ℕ → Option WriteResult → Run (Server Table)
  on_output s c none = ok s
  on_output s c (some outcome) = event_handler env s c (writable outcome)

  -- The loop over the reported connections.
  unfoldable pub process_events : List Ready → Server Table → Run (Server Table)
  process_events [] s = ok s
  process_events (r ∷ rs) s =
      on_input s r.conn r.input >>= λ s'. (on_output s' r.conn r.output >>= process_events rs)

  unfoldable pub event_process : Server Table → Option (List Ready) → Run (Server Table)
  unfolding process_events
  event_process s none = ok s
  event_process s (some rs) = process_events rs s

  -- `collect_unused_memory` does nothing.
  abbrev pub collect_unused_memory : Server Table → Server Table
  collect_unused_memory s = s

  -- The test of the memory that is used; a division by 0 ends the program.
  abbrev pub audit_memory : Server Table → ℕ → ℕ → Run (Server Table)
  audit_memory s mem_avail memused =
      if mem_avail == 0
      then fault division_by_zero
      else if ltb garbage_collect_ratio_threshold (u64 (memused * 100) / mem_avail)
      then ok (collect_unused_memory s)
      else ok s

  -- One round, with `ptime`, and the new `ptime`.
  unfoldable pub main_round : ℕ → ℕ → Server Table → Round → Run (Server Table × ℕ)
  unfolding event_process
  main_round mem_avail ptime s round = do
    s' ← event_process (record s { now = round.now }) round.events
    if ltb (ptime + 1) round.ctime
        then (disconnect_idle_conns env s' >>= λ s₁.
            (audit_memory s₁ mem_avail round.memused >>= λ s₂. ok (s₂, round.ctime)))
        else ok (s', ptime)

  unfoldable pub main_rounds : ℕ → List Round → ℕ → Server Table → Run (Server Table)
  unfolding main_round
  main_rounds mem_avail [] ptime s = ok s
  main_rounds mem_avail (round ∷ rounds) ptime s =
      main_round mem_avail ptime s round >>= λ (s', ptime'). main_rounds mem_avail rounds ptime' s'

  -- `conn->listening = 1` and `event_set(conn, EVENT_READ)`, if there is a connection
  abbrev pub set_listening : Server Table × Option ℕ → Server Table × Bool
  set_listening (s, none) = (s, false)
  set_listening (s, some c) =
      (set_conn s c (record (s.conns c) { listening = true; watch = watch_read }), true)

  -- The end of `init_server_socket`, with the descriptor `fd` of the listening socket.
  unfoldable pub listen_on : Server Table → ℕ → Server Table × Bool
  unfolding make_conn
  listen_on s fd = set_listening (make_conn env s fd)

  -- The loop with the table that `htcreate` gave, or `goto err`; `allocs` counts on.
  abbrev pub with_cache : ℕ → List Round → Server Table → Option Table × ℕ → Run (Server Table)
  with_cache mem_avail rounds s (none, n) = ok (record s { allocs = n })
  with_cache mem_avail rounds s (some cache, n) =
      main_rounds mem_avail rounds 0 (record s { table = cache; allocs = n })

  -- main from `init_server_socket` on; `fd` is `none` when the socket could not be set up.
  unfoldable pub serve : ℕ → Server Table → Option ℕ → List Round → Run (Server Table)
  unfolding listen_on main_rounds
  serve mem_avail s none rounds = ok s
  serve mem_avail s (some fd) rounds =
      let (s', listening) = listen_on s fd in
      if listening then with_cache mem_avail rounds s' (htcreate s'.allocs 4) else ok s'
