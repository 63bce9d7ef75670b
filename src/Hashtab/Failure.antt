-- ===== src/Hashtab/Failure.antt =====
-- `hset` when memory is short.
use lightcache.Base.{
  u32, ℕ, ◌+◌, ◌*◌, ◌^◌, ◌<◌, ◌≤◌, ◌≡◌, ◌⊎◌, ◌∙◌, ap, refl, sym, inl, inr, Bool, true, false, List,
  Option, none, some, arith, length, Bool-cases, if◌then◌else◌,
}
use lightcache.Base.Run.{ok, Returns}
use lightcache.Hashtab.{Htab, herror}
use lightcache.Hashtab.Keys.{NoZero, home, hhash-home}
use lightcache.Hashtab.Table.{
  Grow, chain_of, hcount, htcreate, overloaded, add_front, add_item, check_load, hset_with,
}
use lightcache.Hashtab.Grow.{grow_with, hgrow, hset}
use lightcache.Hashtab.Chain.{AllUsed, find_val, scan_lem}
use lightcache.Hashtab.Chain.Write.{last_free-AllUsed}
use lightcache.Hashtab.Valid.{IsTable, lookup, Changes}
use lightcache.Hashtab.Add.{add_front-Added}
use lightcache.Hashtab.Steps.{bucket-home}
use lightcache.Hashtab.Set.{overloaded_lem}

module _ (alloc_ok : ℕ → Bool) (t : Htab) (valid : IsTable t) (k : List ℕ) (plain : NoZero k)
    (fresh : lookup t k ≡ none) (used : AllUsed (chain_of t (home t.mask k))) (n : ℕ)
    (v : Option ℕ) where
  abbrev h : ℕ
  h = home t.mask k

  -- Without a free item in the bucket of a new key, `hset` allocates a new item.
  at_front :
      (grow : Grow alloc_ok) (r : Htab × ℕ × Bool)
      → add_front alloc_ok t n h (some k) (length k) v ≡ ok r
      → hset_with alloc_ok grow t n (some k) (length k) v
        ≡ (if r.2 then check_load alloc_ok grow r.0 r.1 else ok (r.0, r.1, herror))
  unfolding hset_with add_item
  at_front grow r run =
      let fresh' : find_val k (chain_of t h) ≡ none = unfold lookup in fresh in
      rw (
        hhash-home t.mask k,
        bucket-home t valid k plain,
        scan_lem t.mask h (chain_of t h) k 0 none (valid.keyed h) plain,
        fresh',
        last_free-AllUsed (chain_of t h) 0 none used,
        run,
      )

  no_front :
      (alloc_ok n ≡ false) ⊎ (alloc_ok (n + 1) ≡ false)
      → Returns (add_front alloc_ok t n h (some k) (length k) v) λ r. (r.0 ≡ t) × (r.2 ≡ false)
  unfolding add_front
  no_front (inl e) = ((t, n + 1, false), rw e, (refl, refl))
  no_front (inr e) = elim (Bool-cases (alloc_ok n)) [
    | inl first ↦ ((t, n + 2, false), rw (first, e), (refl, refl))
    | inr first ↦ ((t, n + 1, false), rw first, (refl, refl))
  ]

  -- On a well-formed table, for a new key without a zero byte whose bucket has no free item: when one
  -- of the two allocations fails, `hset` returns HERROR and leaves the table as it was.
  pub hset-no_memory :
      (alloc_ok n ≡ false) ⊎ (alloc_ok (n + 1) ≡ false)
      → Returns (hset alloc_ok t n (some k) (length k) v) λ r. (r.0 ≡ t) × (r.2 ≡ herror)
  unfolding hset
  hset-no_memory short =
      let (r, run, (same, failed)) = no_front short in
      ((r.0, r.1, herror), at_front (hgrow alloc_ok 2) r run ∙ rw failed, (same, refl))

  -- One of the two allocations of `htcreate` fails.
  not_created :
      (n' l : ℕ)
      → (alloc_ok n' ≡ false) ⊎ (alloc_ok (n' + 1) ≡ false)
      → (m : ℕ) × (htcreate alloc_ok n' l ≡ (none, m))
  unfolding htcreate
  not_created n' l (inl e) = (n' + 1, rw e)
  not_created n' l (inr e) = elim (Bool-cases (alloc_ok n')) [
    | inl first ↦ (n' + 2, rw (first, e))
    | inr first ↦ (n' + 1, rw first)
  ]

  no_growth :
      (t' : Htab) (n' : ℕ)
      → (alloc_ok n' ≡ false) ⊎ (alloc_ok (n' + 1) ≡ false)
      → (m : ℕ) × (hgrow alloc_ok 2 t' n' ≡ ok (t', m, false))
  unfolding hgrow grow_with
  no_growth t' n' short =
      let (m, created) = not_created n' (u32 (t'.logsize + 1)) short in
      let made = ap (λ (x : Option Htab × ℕ). x.0) created in
      let next = ap (λ (x : Option Htab × ℕ). x.1) created in (m, rw (grow_with, made, next))

  -- On a well-formed table, for a new key without a zero byte whose bucket has no free item: when the
  -- item is allocated, the load with it reaches 3/4 and one of the two allocations of the new table fails,
  -- of its struct or of its array, `hset` returns HERROR although the key now has the value.
  pub hset-grow_failed :
      alloc_ok n ≡ true
      → alloc_ok (n + 1) ≡ true
      → (alloc_ok (n + 2) ≡ false) ⊎ (alloc_ok (n + 2 + 1) ≡ false)
      → 3 * t.realsize ≤ 4 * (hcount t + 1)
      → hcount t + 1 < 2 ^ 31
      → Returns
          (hset alloc_ok t n (some k) (length k) v)
          λ r. (r.2 ≡ herror) × IsTable r.0 × Changes t r.0 k (some v)
  unfolding hset check_load
  hset-grow_failed first second short full bound =
      let (t', run, added) = add_front-Added alloc_ok t valid k plain v fresh n first second used in
      let m : hcount t' ≡ hcount t + 1 = omega (arith, added.counted) in
      let size : t'.realsize ≡ t.realsize =
        added.valid.realsize ∙ ap (λ x. 2 ^ x) added.logsize ∙ sym valid.realsize in
      let test : overloaded t' ≡ true =
        overloaded_lem t' (hcount t + 1) m bound ∙ ground (arith, size) in
      let (m', growth) = no_growth t' (n + 2) short in
      (
        (t', m', herror),
        at_front (hgrow alloc_ok 2) (t', n + 2, true) run ∙ rw (test, growth),
        (refl, added.valid, added.changes),
      )
