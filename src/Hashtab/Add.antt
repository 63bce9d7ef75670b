-- ===== src/Hashtab/Add.antt =====
-- The part of `hset` that adds an item for a new key, when there is memory.
use lightcache.Base.{◌==◌}
use lightcache.Base.{
  u32, ℕ, ◌+◌, ◌-◌, ◌^◌, ◌≤◌, ◌≡◌, ◌∙◌, ap, refl, inl, inr, Bool, true, false, List, ◌∷◌, Option,
  none, some, arith, length, length-set, set, ltb, Bool-cases,
}
use lightcache.Base.Run.{ok, Returns}
use lightcache.Hashtab.{HItem, Htab}
use lightcache.Hashtab.Keys.{NoZero, home}
use lightcache.Hashtab.Table.{chain_of, copied_key, hcount, reuse, add_front, add_item}
use lightcache.Hashtab.Chain.{IsKeyed, AllKeyed-set, AllUsed, find_val, last_free}
use lightcache.Hashtab.Chain.Write.{
  IsLastFree, last_free-LastFree, get_elem?-IsLastFree, Apart-set, find_val-set, front_lem,
}
use lightcache.Hashtab.Valid.{
  IsTable, lookup, Changes, with_chain, with_chain-IsTable, with_chain-Changes, items,
  items_upto-with_chain,
}

-- `t'` is `t` with one more key, and counts one more item.
pub record IsAdded (t t' : Htab) (k : List ℕ) (v : Option ℕ) : Type 0 where
  pub valid : IsTable t'
  pub changes : Changes t t' k (some v)
  pub counted : hcount t' ≡ u32 (hcount t + 1)
  pub logsize : t'.logsize ≡ t.logsize
  pub few : items t' ≤ items t + 1

module _ (alloc_ok : ℕ → Bool) (t : Htab) (valid : IsTable t) (k : List ℕ) (plain : NoZero k)
    (v : Option ℕ) (fresh : lookup t k ≡ none) where
  abbrev h : ℕ
  h = home t.mask k

  abbrev new : HItem
  new = record { key = some k; klen = length k; val = v; free = false }

  new-IsKeyed : IsKeyed t.mask h new
  new-IsKeyed = record { key = refl; size = refl; plain = plain; here = refl }

  fresh_chain : find_val k (chain_of t h) ≡ none
  unfolding lookup
  fresh_chain = fresh

  front-IsAdded :
      AllUsed (chain_of t h)
      → IsAdded t (with_chain t h (new ∷ chain_of t h) (u32 (t.count + 1)) t.freecount) k v
  unfolding hcount
  front-IsAdded used =
      let c = new ∷ chain_of t h in
      let (apart, here, others) =
        front_lem k new refl refl (chain_of t h) used fresh_chain (valid.apart h) in
      let size = items_upto-with_chain t h c (u32 (t.count + 1)) t.freecount t.realsize in
      record {
        valid = with_chain-IsTable t h c _ _ valid (new-IsKeyed, valid.keyed h) apart valid.word;
        changes = with_chain-Changes t k (some v) c _ _ here others;
        counted = omega (arith, valid.word);
        logsize = refl;
        few = ground (arith, size);
      }

  reused-IsAdded :
      (i : ℕ) (p : HItem)
      → IsLastFree (chain_of t h) i p
      → IsAdded t
          (with_chain t h (set (chain_of t h) i new) t.count (u32 (t.freecount + 2 ^ 32 - 1)))
          k
          v
  unfolding hcount
  reused-IsAdded i p last =
      let c = set (chain_of t h) i new in
      let apart = Apart-set k new refl refl (chain_of t h) i p last fresh_chain (valid.apart h) in
      let (here, others) = find_val-set k new refl refl (chain_of t h) i p last fresh_chain in
      let f = u32 (t.freecount + 2 ^ 32 - 1) in
      let size = items_upto-with_chain t h c t.count f t.realsize in
      record {
        valid =
            with_chain-IsTable t h c t.count f valid
              (AllKeyed-set t.mask h (chain_of t h) i new new-IsKeyed (valid.keyed h)) apart
              (omega arith);
        changes = with_chain-Changes t k (some v) c _ _ here others;
        counted = omega (arith, valid.word);
        logsize = refl;
        few = ground (arith, size, length-set (chain_of t h) i new);
      }

  abbrev Added : Htab × ℕ × Bool → Type 0
  Added r = (r.2 ≡ true) × IsAdded t r.0 k v

  same_length : length k == length k ≡ true
  same_length = ground arith

  pub add_front-Added :
      (n : ℕ)
      → alloc_ok n ≡ true
      → alloc_ok (n + 1) ≡ true
      → AllUsed (chain_of t h)
      → (t' : Htab) × (add_front alloc_ok t n h (some k) (length k) v ≡ ok (t', n + 2, true))
        × IsAdded t t' k v
  unfolding add_front
  add_front-Added n first second used = (
    with_chain t h (new ∷ chain_of t h) (u32 (t.count + 1)) t.freecount,
    rw (first, second, copied_key, same_length),
    front-IsAdded used,
  )

  reuse-Added :
      (n i : ℕ) (p : HItem)
      → alloc_ok n ≡ true
      → IsLastFree (chain_of t h) i p
      → Returns (reuse alloc_ok t n h i p (some k) (length k) v) Added
  unfolding reuse
  reuse-Added n i p first last =
      let t' = with_chain t h (set (chain_of t h) i new) t.count (u32 (t.freecount + 2 ^ 32 - 1)) in
      elim (Bool-cases (ltb p.klen (length k + 1))) [
        | inl e ↦ (
          (t', n + 1, true),
          rw (e, first, copied_key, same_length),
          (refl, reused-IsAdded i p last),
        )
        | inr e ↦ ((t', n, true), rw (e, copied_key, same_length), (refl, reused-IsAdded i p last))
      ]

  pub add_item-Added :
      (n : ℕ)
      → alloc_ok n ≡ true
      → alloc_ok (n + 1) ≡ true
      → Returns
          (add_item alloc_ok t n h (last_free (chain_of t h) 0 none) (some k) (length k) v)
          λ r. (r.2 ≡ true) × IsAdded t r.0 k v
  unfolding add_item
  add_item-Added n first second = elim (last_free-LastFree (chain_of t h) 0 none) [
    | inl (used, e) ↦
        let (t', run, added) = add_front-Added n first second used in
        ((t', n + 2, true), rw e run, (refl, added))
    | inr (i, p, e, last) ↦
        let (at, free) = get_elem?-IsLastFree (chain_of t h) i p last in
        let e' : last_free (chain_of t h) 0 none ≡ some i = e ∙ ap some (omega arith) in
        rw (e', add_item, at) (reuse-Added n i p first last)
  ]
