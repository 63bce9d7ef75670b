-- ===== src/Server/Store/Get.antt =====
-- GET on the cache.
use lightcache.Base.{
  u32, u64, ℕ, ◌+◌, ◌≡◌, ◌∙◌, ap, refl, Bool, true, false, List, Option, none, some, arith, ltb,
  ◌==◌,
}
use lightcache.Base.Run.{Run, ok, ◌>>=◌, Returns}
use lightcache.Protocol.{Request, Payload, Code, nothing, cached, success, key_notexists}
use lightcache.Server.State.{Env, Server, Stats, Holds, load, load_in-Holds, set_conn}
use lightcache.Server.Resources.{add_response}
use lightcache.Server.Answer.{responded, add_response_run, send_response_run, IsAnswered}
use lightcache.Server.Commands.{
  atoull, age, bytes_at, drop_item, count_stats, get_notexists, get_found, execute_get,
}
use lightcache.Server.Store.{
  Updates, TableLaws, IsCached, IsStocked, dropped, drop_item_run, dropped-IsStocked, place-same,
}
use lightcache.Server.Store.Answered.{
  HasKey, responded-IsStocked, responded-IsAnswered, dropped-HasKey,
}
use lightcache.Server.Store.Change.{counted-IsStocked, counted-HasKey}

module _ (env : Env) (laws : TableLaws env) where
  open env use {Table, Item, hget}

  module _ (s : Server Table) (c r : ℕ) (q : Request) (k : List ℕ) (is : IsStocked env laws s)
      (has : HasKey s c r q k) where
    -- The state in which GET answers that there is no key.
    abbrev missed : Server Table → Server Table
    missed s' =
        responded env (count_stats env s' (λ t. record t { get_misses = u64 (t.get_misses + 1) })) c
          q nothing 0 key_notexists

    missed_run : (s' : Server Table) → Holds s' c r q → get_notexists env s' c ≡ ok (missed s')
    unfolding get_notexists
    missed_run s' h =
        let s₂ = count_stats env s' (λ t. record t { get_misses = u64 (t.get_misses + 1) }) in
        let h' : Holds s₂ c r q = record { owner = h.owner; stored = h.stored } in
        send_response_run env s₂ c r q key_notexists h'

    abbrev got : Server Table
    got = count_stats env s (λ t. record t { cmd_get = u64 (t.cmd_get + 1) })

    got_HasKey : HasKey got c r q k
    got_HasKey =
        counted-HasKey env laws s (λ t. record t { cmd_get = u64 (t.cmd_get + 1) }) c r q k has

    execute_get_run :
        (it : Option Item) (end : Run (Server Table))
        → hget s.table (some k) ≡ ok it
        → (elim it [ none ↦ get_notexists env got c | some i ↦ get_found env got c i ]) ≡ end
        → execute_get env s c ≡ end
    unfolding execute_get
    execute_get_run it end run rest =
        rw (load_in-Holds got c r q got_HasKey.holds, has.key, run) rest

    -- `conn->out.can_free = 0;`
    abbrev marked : Server Table → Server Table
    marked t =
        set_conn t c (record (t.conns c) { out = record (t.conns c).out { can_free = false } })

    marked-IsStocked : (t : Server Table) → IsStocked env laws t → IsStocked env laws (marked t)
    marked-IsStocked t is' = record {
      valid = is'.valid;
      stock = λ k' w e.
          let (r', q', at, held) = is'.stock k' w e in
          (
            r',
            q',
            at,
            record { stored = held.stored; key = held.key; kept = held.kept; extra = held.extra },
          );
    }

    marked-IsAnswered :
        (t : Server Table) (op : ℕ) (code : Code) (n : ℕ) (p : Payload)
        → IsAnswered env s t c op code n p
        → IsAnswered env s (marked t) c op code n p
    marked-IsAnswered t op code n p answered =
        let self : c == c ≡ true = ground arith in
        record {
          state = rw self answered.state;
          watch = rw self answered.watch;
          header = rw self answered.header;
          payload = rw self answered.payload;
        }

    -- The answer to a GET that finds the request `q'` at `r'`.
    abbrev pub hit : Server Table → ℕ → Request → Server Table
    hit s' r' q' = marked (
        responded env (count_stats env s' (λ t. record t { get_hits = u64 (t.get_hits + 1) })) c q
          (cached r') q'.header.data_length success)

    module _ (it : Item) (r' : ℕ) (q' : Request) (e : List ℕ) (n : ℕ)
        (at : laws.At s.table k it (some r')) (held : IsCached env laws s k r' q')
        (extra : q'.rextra ≡ some e) (number : atoull env e ≡ some n) where
      expired_run :
          (end : Run (Server Table))
          → ltb n (age env q.received q'.received) ≡ true
          → (drop_item env got it >>= λ s'. get_notexists env s' c) ≡ end
          → get_found env got c it ≡ end
      unfolding get_found
      expired_run end old rest =
          rw
            (
              load_in-Holds got c r q got_HasKey.holds,
              laws.item_val s.table k it (some r') at,
              load,
              held.stored,
              extra,
              bytes_at,
              ◌>>=◌,
              number,
              old,
            )
            rest

      hit_run :
          (end : Run (Server Table))
          → ltb n (age env q.received q'.received) ≡ false
          → (add_response env
                (count_stats env got (λ t. record t { get_hits = u64 (t.get_hits + 1) }))
                c
                (cached r')
                q'.header.data_length
                success
              >>= λ s'. ok (
                  set_conn s' c
                    (record (s'.conns c) { out = record (s'.conns c).out { can_free = false } })))
            ≡ end
          → get_found env got c it ≡ end
      unfolding get_found
      hit_run end young rest =
          rw
            (
              load_in-Holds got c r q got_HasKey.holds,
              laws.item_val s.table k it (some r') at,
              load,
              held.stored,
              extra,
              bytes_at,
              ◌>>=◌,
              number,
              young,
              laws.item_val s.table k it (some r') at,
            )
            rest

    -- What a GET gives when the key has the request `q'` at `r'`, by whether it has expired.
    abbrev pub IsServed : ℕ → Request → Bool → Server Table → Type 0
    IsServed r' q' true t =
        IsStocked env laws t
        × Updates laws.value s.table t.table k none
        × (t.requests r' ≡ none)
        × IsAnswered env s t c q.header.opcode key_notexists 0 nothing
    IsServed r' q' false t =
        IsStocked env laws t
        × (t.table ≡ s.table)
        × (t.requests ≡ s.requests)
        × ((t.conns c).out.can_free ≡ false)
        × IsAnswered env s t c q.header.opcode success (u32 q'.header.data_length) (cached r')

    -- What a GET gives, by the value of the key.
    abbrev pub IsFetched : Option (Option ℕ) → Server Table → Type 0
    IsFetched none t =
        IsStocked env laws t
        × (t.table ≡ s.table)
        × IsAnswered env s t c q.header.opcode key_notexists 0 nothing
    IsFetched (some w) t =
        (r' : ℕ) × (q' : Request) × (w ≡ some r')
        × (held : IsCached env laws s k r' q') × IsServed r' q'
            (ltb held.extra.1 (age env q.received q'.received)) t

    got_IsStocked : IsStocked env laws got
    got_IsStocked =
        counted-IsStocked env laws s (λ t. record t { cmd_get = u64 (t.cmd_get + 1) }) is

    missed-IsStocked : (s' : Server Table) → IsStocked env laws s' → IsStocked env laws (missed s')
    missed-IsStocked s' is' =
        let f = λ (t : Stats). record t { get_misses = u64 (t.get_misses + 1) } in
        responded-IsStocked env laws (count_stats env s' f) c q nothing 0 key_notexists
          (counted-IsStocked env laws s' f is')

    missed-IsAnswered :
        (s' : Server Table)
        → s'.conns c ≡ s.conns c
        → IsAnswered env s (missed s') c q.header.opcode key_notexists 0 nothing
    missed-IsAnswered s' same =
        responded-IsAnswered env laws s
          (count_stats env s' (λ t. record t { get_misses = u64 (t.get_misses + 1) })) c q nothing 0
          key_notexists same

    served :
        (it : Item) (r' : ℕ) (q' : Request) (held : IsCached env laws s k r' q') (old : Bool)
        → laws.At s.table k it (some r')
        → ltb held.extra.1 (age env q.received q'.received) ≡ old
        → Returns (get_found env got c it) (IsServed r' q' old)
    served it r' q' held true at old =
        let (e, n, extra, number) = held.extra in
        let s' = dropped env laws got it r' in
        let held' : IsCached env laws got k r' q' = record {
          stored = held.stored;
          key = held.key;
          kept = held.kept;
          extra = held.extra;
        } in
        let has' = dropped-HasKey env laws got c r r' q q' k it got_HasKey held' in
        let (is', updates) = dropped-IsStocked env laws got k it r' q' got_IsStocked at held' in
        let drop =
          drop_item_run env laws got it r' q' (laws.item_val s.table k it (some r') at)
            held.stored in
        (
          missed s',
          expired_run it r' q' e n at held extra number _ old
              (ap (λ m. m >>= λ x. get_notexists env x c) drop ∙ missed_run s' has'.holds),
          (
            missed-IsStocked s' is',
            updates,
            place-same env laws s.requests r' none,
            missed-IsAnswered s' refl,
          ),
        )
    served it r' q' held false at young =
        let (e, n, extra, number) = held.extra in
        let f = λ (t : Stats). record t { get_hits = u64 (t.get_hits + 1) } in
        let s' = count_stats env got f in
        let h : Holds s' c r q = record { owner = has.holds.owner; stored = has.holds.stored } in
        let size = q'.header.data_length in
        let stocked =
          responded-IsStocked env laws s' c q (cached r') size success
            (counted-IsStocked env laws got f got_IsStocked) in
        let answered = responded-IsAnswered env laws s s' c q (cached r') size success refl in
        (
          hit got r' q',
          hit_run it r' q' e n at held extra number _ young (
              ap (λ m. m >>= λ x. ok (marked x))
                (add_response_run env s' c r q (cached r') size success h)),
          (
            marked-IsStocked (responded env s' c q (cached r') size success) stocked,
            refl,
            refl,
            ground arith,
            marked-IsAnswered (responded env s' c q (cached r') size success) q.header.opcode
                success (u32 size) (cached r') answered,
          ),
        )

    fetched :
        (w : Option (Option ℕ))
        → laws.value s.table k ≡ w
        → Returns (execute_get env s c) (IsFetched w)
    fetched none e =
        let gone = laws.get_none s.table k is.valid has.plain e in
        (
          missed got,
          execute_get_run none _ gone (missed_run got got_HasKey.holds),
          (missed-IsStocked got got_IsStocked, refl, missed-IsAnswered got refl),
        )
    fetched (some w) e =
        let (r', q', same, held) = is.stock k w e in
        let (it, run, at) =
          laws.get_some s.table k (some r') is.valid has.plain (e ∙ ap some same) in
        let (t, ran, result) =
          served it r' q' held (ltb held.extra.1 (age env q.received q'.received)) at refl in
        (t, execute_get_run (some it) _ run ran, (r', q', same, held, result))

    -- GET of a key without a zero byte, on a well-formed cache, returns. For a key that is not there the
    -- table stays and the answer is KEY_NOTEXISTS. For a key that is there, whose request is older than its
    -- timeout, the key is removed, its request is freed and the answer is KEY_NOTEXISTS; else the table
    -- stays, and the answer is SUCCESS with the data of that request, which the response does not free.
    pub execute_get-IsFetched : Returns (execute_get env s c) (IsFetched (laws.value s.table k))
    execute_get-IsFetched = fetched (laws.value s.table k) refl
