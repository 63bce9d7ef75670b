-- ===== src/Server/Loop/Rounds.antt =====
-- What holds in every round of the loop of main.
use lightcache.Base.{
  u64, ℕ, ◌+◌, ◌*◌, ◌/◌, ◌≡◌, ◌∙◌, ap, sym, true, false, List, [], ◌∷◌, Option, none, some, arith,
  ltb, ◌==◌,
}
use lightcache.Base.Run.{
  division_by_zero, After, after_bind, after_if, after_ok, after_fault, by_if,
}
use lightcache.Protocol.{read_header, watch_read}
use lightcache.Server.State.{Env, Server}
use lightcache.Server.Reading.{ReadResult}
use lightcache.Server.Sending.{WriteResult}
use lightcache.Server.Events.{readable, writable, find_free, make_conn}
use lightcache.Server.Loop.{
  Ready, Round, on_input, on_output, process_events, event_process, audit_memory, main_round,
  main_rounds, set_listening, listen_on, with_cache, serve,
}
use lightcache.Server.Watch.{AllWatched, OthersWatched, expected, closed, others-place, all-place}
use lightcache.Server.Watch.Handler.{event_handler-AllWatched, disconnect_idle_conns-AllWatched}

module _ (env : Env) where
  open env use {Table, alloc_ok, stale_out, htcreate}

  abbrev Watched : Server Table → Type 0
  Watched s = AllWatched s.conns

  on_input-AllWatched :
      (s : Server Table) (c : ℕ) (input : Option (ReadResult × Option ℕ))
      → Watched s
      → After (on_input env s c input) Watched
  on_input-AllWatched s c none all = after_ok s all
  on_input-AllWatched s c (some (input, accepted)) all =
      event_handler-AllWatched env s c (readable input accepted) all

  on_output-AllWatched :
      (s : Server Table) (c : ℕ) (output : Option WriteResult)
      → Watched s
      → After (on_output env s c output) Watched
  on_output-AllWatched s c none all = after_ok s all
  on_output-AllWatched s c (some outcome) all =
      event_handler-AllWatched env s c (writable outcome) all

  process_events-AllWatched :
      (rs : List Ready) (s : Server Table) → Watched s → After (process_events env rs s) Watched
  unfolding process_events
  process_events-AllWatched [] s all = after_ok s all
  process_events-AllWatched (r ∷ rs) s all =
      after_bind _ _ (on_input-AllWatched s r.conn r.input all) λ s' all'.
        after_bind _ _ (on_output-AllWatched s' r.conn r.output all') (process_events-AllWatched rs)

  event_process-AllWatched :
      (s : Server Table) (events : Option (List Ready))
      → Watched s
      → After (event_process env s events) Watched
  unfolding event_process
  event_process-AllWatched s none all = after_ok s all
  event_process-AllWatched s (some rs) all = process_events-AllWatched rs s all

  audit_memory-AllWatched :
      (s : Server Table) (mem_avail memused : ℕ)
      → Watched s
      → After (audit_memory env s mem_avail memused) Watched
  audit_memory-AllWatched s mem_avail memused all =
      after_if (mem_avail == 0) _ _ (after_fault division_by_zero)
        (after_if (ltb 75 (u64 (memused * 100) / mem_avail)) _ _ (after_ok s all) (after_ok s all))

  main_round-AllWatched :
      (mem_avail ptime : ℕ) (s : Server Table) (round : Round)
      → Watched s
      → After (main_round env mem_avail ptime s round) λ r. Watched r.0
  unfolding main_round
  main_round-AllWatched mem_avail ptime s round all =
      after_bind _ _ (event_process-AllWatched (record s { now = round.now }) round.events all)
        λ s' all'.
          after_if (ltb (ptime + 1) round.ctime) _ _
            (after_bind _ _ (disconnect_idle_conns-AllWatched env s' all') λ s₁ all₁.
              after_bind _ _ (audit_memory-AllWatched s₁ mem_avail round.memused all₁)
                λ s₂ all₂. after_ok (s₂, round.ctime) all₂)
            (after_ok (s', ptime) all')

  main_rounds-AllWatched :
      (mem_avail : ℕ) (rounds : List Round) (ptime : ℕ) (s : Server Table)
      → Watched s
      → After (main_rounds env mem_avail rounds ptime s) Watched
  unfolding main_rounds
  main_rounds-AllWatched mem_avail [] ptime s all = after_ok s all
  main_rounds-AllWatched mem_avail (round ∷ rounds) ptime s all =
      after_bind _ _ (main_round-AllWatched mem_avail ptime s round all)
        λ (s', ptime') all'. main_rounds-AllWatched mem_avail rounds ptime' s' all'

  -- The connection that was made, if any, is in use and waits for no event yet.
  abbrev IsMade : Server Table × Option ℕ → Type 0
  IsMade (s, none) = Watched s
  IsMade (s, some c) =
      OthersWatched s.conns c × ((s.conns c).free ≡ false) × ((s.conns c).state ≡ read_header)

  first_conn :
      (s : Server Table) (fd : ℕ) → s.conn_list ≡ [] → Watched s → IsMade (make_conn env s fd)
  unfolding make_conn find_free
  first_conn s fd first all =
      let none_free : find_free env s s.conn_list ≡ none = ap (find_free env s) first in
      rw (make_conn, none_free)
        (by_if IsMade (alloc_ok s.allocs) _ _
          (others-place s.conns s.next_conn _ (λ d ne. all d), ground arith, ground arith) all)

  listening-AllWatched : (r : Server Table × Option ℕ) → IsMade r → Watched (set_listening env r).0
  listening-AllWatched (s, none) all = all
  listening-AllWatched (s, some c) (others, in_use, at_header) =
      all-place s.conns c (record (s.conns c) { listening = true; watch = watch_read }) others
        (record { watch = sym (ap expected at_header); free = in_use ∙ sym (ap closed at_header) })

  listen_on-AllWatched :
      (s : Server Table) (fd : ℕ) → s.conn_list ≡ [] → Watched s → Watched (listen_on env s fd).0
  unfolding listen_on
  listen_on-AllWatched s fd first all =
      listening-AllWatched (make_conn env s fd) (first_conn s fd first all)

  with_cache-AllWatched :
      (mem_avail : ℕ) (rounds : List Round) (s : Server Table) (created : Option Table × ℕ)
      → Watched s
      → After (with_cache env mem_avail rounds s created) Watched
  with_cache-AllWatched mem_avail rounds s (none, n) all = after_ok (record s { allocs = n }) all
  with_cache-AllWatched mem_avail rounds s (some cache, n) all =
      main_rounds-AllWatched mem_avail rounds 0 (record s { table = cache; allocs = n }) all

  -- From a server without connections on, whether or not its hash table is created, after any number
  -- of rounds with any events and results of system calls, every connection waits for what its state
  -- handles and is free exactly when it is closed, if no round faults.
  pub serve-AllWatched :
      (mem_avail : ℕ) (s : Server Table) (fd : Option ℕ) (rounds : List Round)
      → s.conn_list ≡ []
      → AllWatched s.conns
      → After (serve env mem_avail s fd rounds) λ s'. AllWatched s'.conns
  unfolding serve
  serve-AllWatched mem_avail s none rounds first all = after_ok s all
  serve-AllWatched mem_avail s (some fd) rounds first all =
      let all' = listen_on-AllWatched s fd first all in
      after_if (listen_on env s fd).1 _ _
        (with_cache-AllWatched mem_avail rounds (listen_on env s fd).0
          (htcreate (listen_on env s fd).0.allocs 4) all')
        (after_ok (listen_on env s fd).0 all')
