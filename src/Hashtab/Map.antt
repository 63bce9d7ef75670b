-- ===== src/Hashtab/Map.antt =====
-- The hash table as a finite map: what `hset`, `hget` and `hfree` do to the values of the keys.
use lightcache.Base.{
  u32, ℕ, ◌+◌, ◌-◌, ◌^◌, ◌<◌, ◌≡◌, ◌∙◌, ap, refl, sym, inl, inr, Bool, true, false, List, Option,
  none, some, arith, length, get_elem?, set, Bool-cases,
}
use mathlib.Core.Path.{subst}
use lightcache.Base.Run.{ok, ◌>>=◌, Returns}
use lightcache.Hashtab.{HItem, Htab, HResult, hsuccess, hexists}
use lightcache.Hashtab.Keys.{NoZero, home}
use lightcache.Hashtab.Table.{Ref, Grow, chain_of, hcount, hget, hfree, overloaded, check_load}
use lightcache.Hashtab.Grow.{hgrow, hset}
use lightcache.Hashtab.Valid.{IsTable, lookup, Changes, with_chain, items}
use lightcache.Hashtab.Add.{IsAdded}
use lightcache.Hashtab.Chain.{key_of}
use lightcache.Hashtab.Steps.{
  hset_with-present, hset_with-fresh, IsGot, hget-IsGot, with_chain-IsChanged,
}
use lightcache.Hashtab.Set.{hcount_congr, Changes-IsGrown, light, heavy}
use lightcache.Hashtab.Deep.{hgrow_two}

-- A key that an item in use has is refused, whatever memory there is.
pub hset-present :
    (alloc_ok : ℕ → Bool) (t : Htab) (valid : IsTable t) (k : List ℕ) (plain : NoZero k) (n : ℕ)
    (v w : Option ℕ)
    → lookup t k ≡ some w
    → hset alloc_ok t n (some k) (length k) v ≡ ok (t, n, hexists)
unfolding hset
hset-present alloc_ok t valid k plain n v w e =
    hset_with-present alloc_ok t valid k plain (hgrow alloc_ok 2) n v w e

-- What a call of `hset` for the key `k` gives, by the value that the key has before.
abbrev pub AfterSet : Htab → ℕ → List ℕ → Option ℕ → Option (Option ℕ) → Htab × ℕ × HResult → Type 0
AfterSet t n k v (some w) r = r ≡ (t, n, hexists)
AfterSet t n k v none r =
    (r.2 ≡ hsuccess) × IsTable r.0 × Changes t r.0 k (some v) × (hcount r.0 ≡ u32 (hcount t + 1))

-- The reference is that of an item in use with the key and the value.
abbrev pub IsHeld : Htab → List ℕ → Option ℕ → Option Ref → Type 0
IsHeld t k v found =
    (it : Ref) × (p : HItem) × (found ≡ some it)
    × (get_elem? (chain_of t it.0) it.1 ≡ some p)
    × (key_of p ≡ k)
    × (p.free ≡ false)
    × (p.val ≡ v)

module _ (alloc_ok : ℕ → Bool) (always : (n : ℕ) → alloc_ok n ≡ true) (t : Htab) (valid : IsTable t)
    (room : t.logsize < 30) (few : items t < 2 ^ 27) (k : List ℕ) (plain : NoZero k) (n : ℕ)
    (v : Option ℕ) where
  abbrev grow : Grow alloc_ok
  grow = hgrow alloc_ok 2

  finish :
      (t' : Htab) (n' : ℕ)
      → IsAdded t t' k v
      → Returns (check_load alloc_ok grow t' n') (AfterSet t n k v none)
  finish t' n' added = elim (Bool-cases (overloaded t')) [
    | inl e ↦
        let (t'', n'', run, grown, _, _) =
          hgrow_two alloc_ok always t' n' added.valid (omega (arith, added.logsize))
            (omega (arith, added.few)) in
        (
          (t'', n'', hsuccess),
          heavy alloc_ok always grow t' t'' n' n'' e run,
          (
            refl,
            grown.valid,
            Changes-IsGrown t t' t'' k (some v) added.changes grown,
            hcount_congr t' t'' grown.count grown.freecount ∙ added.counted,
          ),
        )
    | inr e ↦ (
      (t', n', hsuccess),
      light alloc_ok always grow t' n' e,
      (refl, added.valid, added.changes, added.counted),
    )
  ]

  set_by :
      (w : Option (Option ℕ))
      → lookup t k ≡ w
      → Returns (hset alloc_ok t n (some k) (length k) v) (AfterSet t n k v w)
  unfolding hset
  set_by none e =
      let (t', n', run, added) =
        hset_with-fresh alloc_ok t valid k plain grow n v (always n) (always (n + 1)) e in
      let (r, last, is) = finish t' n' added in (r, run ∙ last, is)
  set_by (some w) e =
      ((t, n, hexists), hset_with-present alloc_ok t valid k plain grow n v w e, refl)

  -- On a well-formed table with less than 2^27 items and 2^30 buckets, when all allocations succeed,
  -- `hset` of a key without a zero byte returns (its depth of growth is enough): for a key that an item
  -- in use has, HEXISTS and the same table; for another key, HSUCCESS and a well-formed table in which
  -- the key has the value, all other keys keep theirs, and one more item is counted.
  pub hset-AfterSet :
      Returns (hset alloc_ok t n (some k) (length k) v) (AfterSet t n k v (lookup t k))
  hset-AfterSet = set_by (lookup t k) refl

  IsGot-IsHeld :
      (t' : Htab) (good : IsTable t') (found : Option Ref)
      → IsGot t' good k plain (some v) found
      → IsHeld t' k v found
  IsGot-IsHeld t' good none is = absurd is
  IsGot-IsHeld t' good (some it) (p, _, at, named, used, same) =
      (it, p, refl, at, named, used, same)

  -- On a well-formed table with less than 2^27 items and 2^30 buckets, when all allocations succeed,
  -- `hget` after `hset` of a new key without a zero byte gives an item in use with the key and the value.
  pub hget-hset :
      lookup t k ≡ none
      → Returns {A = Htab × Option Ref}
          (hset alloc_ok t n (some k) (length k) v >>= λ r.
            hget r.0 (some k) (length k) >>= λ found. ok (r.0, found))
          λ s. IsHeld s.0 k v s.1
  hget-hset fresh =
      let (r, run, (_, good, changes, _)) = set_by none fresh in
      let (found, got, is) = hget-IsGot r.0 good k plain in
      let is' = subst (λ w. IsGot r.0 good k plain w found) changes.here is in
      ((r.0, found), rw (run, got), IsGot-IsHeld r.0 good found is')

freed_count :
    (t : Htab) (freed : Htab)
    → freed.count ≡ t.count
    → freed.freecount ≡ u32 (t.freecount + 1)
    → IsTable t
    → hcount freed ≡ u32 (hcount t + 2 ^ 32 - 1)
unfolding hcount
freed_count t freed c f valid = omega (arith, c, f, valid.word)

-- `t'` is `t` without the key `k`, and counts one item less.
pub record IsFreed (t : Htab) (k : List ℕ) (t' : Htab) : Type 0 where
  pub valid : IsTable t'
  pub changes : Changes t t' k none
  pub counted : hcount t' ≡ u32 (hcount t + 2 ^ 32 - 1)

pub hfree_used :
    (t : Htab) (h i : ℕ) (p : HItem)
    → get_elem? (chain_of t h) i ≡ some p
    → p.free ≡ false
    → hfree t (h, i)
      ≡ with_chain t h
          (set (chain_of t h) i (record p { free = true }))
          t.count
          (u32 (t.freecount + 1))
unfolding hfree
hfree_used t h i p at used = rw (hfree, at, used)

module _ (t : Htab) (valid : IsTable t) (k : List ℕ) where
  pub free_at :
      (p : HItem) (h i : ℕ)
      → h ≡ home t.mask k
      → get_elem? (chain_of t h) i ≡ some p
      → key_of p ≡ k
      → p.free ≡ false
      → IsFreed t k (hfree t (h, i))
  free_at p h i at_home at named used =
      let place : h ≡ home t.mask (key_of p) = at_home ∙ ap (home t.mask) (sym named) in
      let at' : get_elem? (chain_of t (home t.mask (key_of p))) i ≡ some p =
        subst (λ g. get_elem? (chain_of t g) i ≡ some p) place at in
      let g = record p { free = true } in
      let c =
        with_chain-IsChanged t valid p g i at' used refl refl (u32 (t.freecount + 1))
          (omega arith) in
      let h' = home t.mask (key_of p) in
      let t' = with_chain t h' (set (chain_of t h') i g) t.count (u32 (t.freecount + 1)) in
      let e = ap (λ g. hfree t (g, i)) place ∙ hfree_used t (home t.mask (key_of p)) i p at' used in
      subst (IsFreed t k) (sym e) (record {
        valid = c.valid;
        changes = subst (λ q. Changes t t' q none) named c.changes;
        counted = freed_count t t' refl refl valid;
      })

module _ (t : Htab) (valid : IsTable t) (k : List ℕ) (plain : NoZero k) (v : Option ℕ)
    (there : lookup t k ≡ some v) where
  freed :
      (it : Option Ref)
      → hget t (some k) (length k) ≡ ok it
      → IsGot t valid k plain (some v) it
      → (it : Ref) × (hget t (some k) (length k) ≡ ok (some it)) × IsFreed t k (hfree t it)
  freed none run is = absurd is
  freed (some (h, i)) run (p, at_home, at, named, used, _) =
      ((h, i), run, free_at t valid k p h i at_home at named used)

  -- On a well-formed table, for a key without a zero byte that an item in use has, `hget` gives an item, and `hfree` of it leaves a well-formed
  -- table in which that key has no value, all others keep theirs, and one item less is counted.
  pub hfree-hget :
      (it : Ref) × (hget t (some k) (length k) ≡ ok (some it)) × IsFreed t k (hfree t it)
  hfree-hget =
      let (it, run, is) = hget-IsGot t valid k plain in
      freed it run (subst (λ w. IsGot t valid k plain w it) there is)
