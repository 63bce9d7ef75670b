-- ===== src/Server/Store/Set.antt =====
-- SET on the cache.
use lightcache.Base.{
  ℕ, ◌≡◌, ◌≢◌, ◌∙◌, ap, refl, sym, true, false, List, Option, none, some, some-injective, arith,
  ◌==◌,
}
use lightcache.Base.Run.{Run, ok, ◌>>=◌, Returns}
use lightcache.Protocol.{Request, Conn, nothing, success}
use lightcache.Hashtab.{HResult, hsuccess, hexists}
use lightcache.Server.State.{
  Env, Server, Holds, load, load_in-Holds, set_in-Holds, place, set_request,
}
use lightcache.Server.Answer.{responded, send_response_run, IsAnswered}
use lightcache.Server.Commands.{atoull, del_cached_req, replace_value, keep_request, store_request}
use lightcache.Server.Store.{
  Updates, TableLaws, IsCached, IsStocked, keeps_stock, IsCached-elsewhere, place-other, place-same,
}
use lightcache.Server.Store.Answered.{
  HasKey, Leaves, responded-IsStocked, responded-IsAnswered, IsCached-HasKey,
}

module _ (env : Env) (laws : TableLaws env) where
  open env use {Table, Item, hset, hget, set_val}

  abbrev pub as_kept : Request → Request
  as_kept q = record q { can_free = false }

  -- The state after `conn->in->can_free = 0`, and the answer to it.
  abbrev kept : Server Table → ℕ → Request → Server Table
  kept s r q = set_request s r (some (as_kept q))

  keep_request_run :
      (s : Server Table) (c r : ℕ) (q : Request)
      → Holds s c r q
      → keep_request env s c ≡ ok (responded env (kept s r q) c (as_kept q) nothing 0 success)
  unfolding keep_request
  keep_request_run s c r q h =
      let h' : Holds (kept s r q) c r (as_kept q) = record {
        owner = h.owner;
        stored = place-same env laws s.requests r (some (as_kept q));
      } in
      rw (load_in-Holds s c r q h, set_in-Holds s c r q (as_kept q) h)
        (send_response_run env (kept s r q) c r (as_kept q) success h')

  -- The request of the value that a key had before is freed.
  abbrev pub IsReplaced : Option (Option ℕ) → Server Table → Type 0
  IsReplaced none t = Unit
  IsReplaced (some w) t = (r : ℕ) × (w ≡ some r) × (t.requests r ≡ none)

  -- What a SET of the request `q` at `r` gives, by the value that the key has before.
  pub record IsStored (s : Server Table) (c r : ℕ) (q : Request) (k : List ℕ)
      (w : Option (Option ℕ)) (t : Server Table) : Type 0 where
    pub stocked : IsStocked env laws t
    pub updates : Updates laws.value s.table t.table k (some (some r))
    pub stored : t.requests r ≡ some (as_kept q)
    pub replaced : IsReplaced w t
    pub leaves : Leaves s t c r
    pub answered : IsAnswered env s t c q.header.opcode success 0 nothing

  module _ (s : Server Table) (c r : ℕ) (q : Request) (k : List ℕ) (is : IsStocked env laws s)
      (has : HasKey s c r q k) (e : List ℕ) (n : ℕ) (extra : q.rextra ≡ some e)
      (number : atoull env e ≡ some n) where
    kept-IsCached : (s' : Server Table) → IsCached env laws (kept s' r q) k r (as_kept q)
    kept-IsCached s' = record {
      stored = place-same env laws s'.requests r (some (as_kept q));
      key = has.key;
      kept = refl;
      extra = (e, n, extra, number);
    }

    abbrev added : Table → ℕ → Server Table
    added table allocs = record s { table = table; allocs = allocs }

    added-IsStocked :
        (table : Table) (allocs : ℕ)
        → laws.Valid table
        → Updates laws.value s.table table k (some (some r))
        → IsStocked env laws (kept (added table allocs) r q)
    added-IsStocked table allocs valid updates =
        keeps_stock env laws s (kept (added table allocs) r q) k r r is valid updates.others
          (λ j ne _. place-other env laws s.requests r j (some (as_kept q)) ne)
          (λ k' r' q' ne c'.
            let far = λ (x : r' ≡ r). IsCached-HasKey env laws s c r r' q q' k k' has c' (sym x) in
            (far, far))
          (λ w at. (
            r,
            as_kept q,
            some-injective (sym at ∙ updates.here),
            kept-IsCached (added table allocs),
          ))

    at_hset :
        (x : Table × ℕ × HResult) (end : Run (Server Table))
        → hset s.table s.allocs (some k) r ≡ ok x
        → x.2 ≡ hsuccess
        → keep_request env (added x.0 x.1) c ≡ end
        → store_request env s c ≡ end
    unfolding store_request
    at_hset x end run yes' rest =
        rw (load_in-Holds s c r q has.holds, has.holds.owner, has.key, run, yes') rest

    at_exists :
        (end : Run (Server Table))
        → hset s.table s.allocs (some k) r ≡ ok (s.table, s.allocs, hexists)
        → (replace_value env s c (some k) >>= λ s'. keep_request env s' c) ≡ end
        → store_request env s c ≡ end
    unfolding store_request
    at_exists end run rest =
        rw (load_in-Holds s c r q has.holds, has.holds.owner, has.key, run, has.key) rest

    -- The answer leaves the connections but `c` and the requests but `r`.
    kept-Leaves :
        (s' : Server Table)
        → s'.conns ≡ s.conns
        → ((j : ℕ) (p : Request)
            → j ≢ r
            → s.requests j ≡ some p
            → p.can_free ≡ true
            → s'.requests j ≡ some p)
        → Leaves s (responded env (kept s' r q) c (as_kept q) nothing 0 success) c r
    kept-Leaves s' same live = record {
      conns = λ d ne.
          let e : d == c ≡ false = ground (arith, ne) in rw e (ap (λ (f : ℕ → Conn). f d) same);
      requests = λ j p ne at own.
          place-other env laws s'.requests r j (some (as_kept q)) ne ∙ live j p ne at own;
    }

    cached_apart :
        (r' : ℕ) (q' : Request) (j : ℕ) (p : Request)
        → IsCached env laws s k r' q'
        → s.requests j ≡ some p
        → p.can_free ≡ true
        → j ≢ r'
    cached_apart r' q' j p cached live own same =
        let e : p ≡ q' = some-injective (sym live ∙ ap s.requests same ∙ cached.stored) in
        absurd (ground (arith, sym own ∙ ap (λ (x : Request). x.can_free) e ∙ cached.kept))

    IsStored-new :
        ((m : ℕ) → env.alloc_ok m ≡ true)
        → laws.Room s.table
        → laws.value s.table k ≡ none
        → Returns (store_request env s c) (IsStored s c r q k none)
    IsStored-new always room gone =
        let (x, run, (yes', valid, updates)) =
          laws.add always s.table s.allocs k r is.valid room has.plain gone in
        let s' = added x.0 x.1 in
        let h : Holds s' c r q = record { owner = has.holds.owner; stored = has.holds.stored } in
        (
          responded env (kept s' r q) c (as_kept q) nothing 0 success,
          at_hset x _ run yes' (keep_request_run s' c r q h),
          record {
            stocked =
                responded-IsStocked env laws (kept s' r q) c (as_kept q) nothing 0 success
                  (added-IsStocked x.0 x.1 valid updates);
            updates = updates;
            stored = place-same env laws s.requests r (some (as_kept q));
            replaced = tt;
            leaves = kept-Leaves s' refl (λ j p ne live own. live);
            answered =
                responded-IsAnswered env laws s (kept s' r q) c (as_kept q) nothing 0 success refl;
          },
        )

    -- The state after `del_cached_req` and `tab_item->val = conn->in` on the item of the request at `r'`.
    abbrev replaced : Item → ℕ → Server Table
    replaced it r' = record s {
      requests = place s.requests r' none;
      table = set_val (set_val s.table it none) it (some r);
    }

    replace_value_run :
        (it : Item) (r' : ℕ) (q' : Request)
        → hget s.table (some k) ≡ ok (some it)
        → laws.At s.table k it (some r')
        → IsCached env laws s k r' q'
        → replace_value env s c (some k) ≡ ok (replaced it r')
    unfolding replace_value del_cached_req
    replace_value_run it r' q' run at cached = rw (
      replace_value,
      run,
      del_cached_req,
      laws.item_val s.table k it (some r') at,
      load,
      cached.stored,
      has.holds.owner,
    )

    replaced-Holds :
        (it : Item) (r' : ℕ) (q' : Request)
        → IsCached env laws s k r' q'
        → Holds (replaced it r') c r q
    replaced-Holds it r' q' cached = record {
      owner = has.holds.owner;
      stored =
          place-other env laws s.requests r' r none
            (IsCached-HasKey env laws s c r r' q q' k k has cached)
          ∙ has.holds.stored;
    }

    replaced-IsStocked :
        (it : Item) (r' : ℕ) (q' : Request)
        → laws.At s.table k it (some r')
        → IsCached env laws s k r' q'
        → IsStocked env laws (kept (replaced it r') r q)
          × Updates laws.value s.table (replaced it r').table k (some (some r))
    replaced-IsStocked it r' q' at cached =
        let (valid, at', first) = laws.assign s.table k it (some r') none is.valid at in
        let (valid', _, second) =
          laws.assign (set_val s.table it none) k it none (some r) valid at' in
        let others : (k' : List ℕ)
            → k' ≢ k
            → laws.value (replaced it r').table k' ≡ laws.value s.table k' =
          λ k' ne. second.others k' ne ∙ first.others k' ne in
        let s' = kept (replaced it r') r q in
        (
          keeps_stock env laws s s' k r r' is valid' others
              (λ j ne ne'.
                place-other env laws (place s.requests r' none) r j (some (as_kept q)) ne
                ∙ place-other env laws s.requests r' j none ne')
              (λ k' i p ne c'. (
                (λ x. IsCached-HasKey env laws s c r i q p k k' has c' (sym x)),
                IsCached-elsewhere env laws s k k' r' i q' p ne cached c',
              ))
              (λ w e'. (
                r,
                as_kept q,
                some-injective (sym e' ∙ second.here),
                kept-IsCached (replaced it r'),
              )),
          record { here = second.here; others = others },
        )

    IsStored-over :
        (w : Option ℕ)
        → laws.value s.table k ≡ some w
        → Returns (store_request env s c) (IsStored s c r q k (some w))
    IsStored-over w there =
        let (r', q', same, cached) = is.stock k w there in
        let (it, run, at) =
          laws.get_some s.table k (some r') is.valid has.plain (there ∙ ap some same) in
        let refused = laws.refuse s.table s.allocs k r w is.valid has.plain there in
        let s' = replaced it r' in
        let (stocked, updates) = replaced-IsStocked it r' q' at cached in
        let apart = IsCached-HasKey env laws s c r r' q q' k k has cached in
        (
          responded env (kept s' r q) c (as_kept q) nothing 0 success,
          at_exists _ refused (
              ap (λ m. m >>= λ x. keep_request env x c) (replace_value_run it r' q' run at cached)
              ∙ keep_request_run s' c r q (replaced-Holds it r' q' cached)),
          record {
            stocked =
                responded-IsStocked env laws (kept s' r q) c (as_kept q) nothing 0 success stocked;
            updates = updates;
            stored = place-same env laws s'.requests r (some (as_kept q));
            replaced = (
              r',
              same,
              place-other env laws s'.requests r r' (some (as_kept q)) (λ x. apart (sym x))
                  ∙ place-same env laws s.requests r' none,
            );
            leaves = kept-Leaves s' refl (λ j p ne live own.
                place-other env laws s.requests r' j none (cached_apart r' q' j p cached live own)
                ∙ live);
            answered =
                responded-IsAnswered env laws s (kept s' r q) c (as_kept q) nothing 0 success refl;
          },
        )

    pub IsStored-at :
        ((m : ℕ) → env.alloc_ok m ≡ true)
        → laws.Room s.table
        → (w : Option (Option ℕ)) → laws.value s.table k ≡ w
        → Returns (store_request env s c) (IsStored s c r q k w)
    IsStored-at always room none e = IsStored-new always room e
    IsStored-at always room (some w) e = IsStored-over w e
