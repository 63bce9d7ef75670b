-- ===== src/Hashtab/Steps.antt =====
-- `hset` up to its test of the load, `hget`, and changes of an item, on well-formed tables.
use lightcache.Base.{
  ℕ, ◌+◌, ◌^◌, ◌<◌, ◌≡◌, ◌∙◌, ap, refl, sym, Bool, true, false, List, Option, none, some, arith,
  length, length-set, get_elem?, set,
}
use mathlib.Core.Path.{subst}
use lightcache.Base.Run.{ok, Returns}
use lightcache.Hashtab.{HItem, Htab, hexists}
use lightcache.Hashtab.Keys.{NoZero, home, hhash-home}
use lightcache.Hashtab.Table.{Ref, Grow, bucket, chain_of, update_item, hget, check_load, hset_with}
use lightcache.Hashtab.Chain.{
  some_key, key_of, IsKeyed, AllKeyed-set, find_val, scan_lem, IsFound, search_lem,
}
use lightcache.Hashtab.Chain.Change.{shown, Apart-change, find_val-change, AllKeyed-get}
use lightcache.Hashtab.Valid.{
  IsTable, lookup, Changes, with_chain, with_chain-IsTable, with_chain-Changes, home-realsize,
  bucket-IsTable, items, items_upto-with_chain,
}
use lightcache.Hashtab.Add.{IsAdded, add_item-Added}

module _ (t : Htab) (valid : IsTable t) (k : List ℕ) (plain : NoZero k) where
  abbrev h : ℕ
  h = home t.mask k

  pub bucket-home : bucket t h ≡ ok (chain_of t h)
  bucket-home = bucket-IsTable t h valid (home-realsize t k valid)

  -- What `hget` gives: an item in use with the key and the value, or NULL.
  abbrev pub IsGot : Option (Option ℕ) → Option Ref → Type 0
  IsGot none none = Unit
  IsGot none (some it) = ⊥
  IsGot (some v) none = ⊥
  IsGot (some v) (some it) =
      (p : HItem) × (it.0 ≡ home t.mask k)
      × (get_elem? (chain_of t it.0) it.1 ≡ some p)
      × (key_of p ≡ k)
      × (p.free ≡ false)
      × (p.val ≡ v)

  abbrev with_bucket : Option ℕ → Option Ref
  with_bucket j = elim j [ none ↦ none | some i ↦ some (h, i) ]

  found-IsGot :
      (v : Option (Option ℕ)) (j : Option ℕ)
      → IsFound (chain_of t h) k v 0 j
      → IsGot v (with_bucket j)
  found-IsGot none none f = tt
  found-IsGot none (some j) f = absurd f
  found-IsGot (some v) none f = absurd f
  found-IsGot (some v) (some j) (m, p, e, at, named, used, same) = (
    p,
    refl,
    subst (λ i. get_elem? (chain_of t h) i ≡ some p) (omega arith) at,
    named,
    used,
    same,
  )

  -- On a well-formed table, for a key without a zero byte, `hget` returns: an item in use that has the
  -- key and its value, or NULL where no item in use has the key.
  pub hget-IsGot : Returns (hget t (some k) (length k)) (IsGot (lookup t k))
  unfolding hget lookup
  hget-IsGot =
      let (j, run, f) = search_lem t.mask h (chain_of t h) k 0 (valid.keyed h) plain in
      (
        with_bucket j,
        rw (hhash-home t.mask k, bucket-home, run),
        found-IsGot (find_val k (chain_of t h)) j f,
      )

module _ (alloc_ok : ℕ → Bool) (t : Htab) (valid : IsTable t) (k : List ℕ) (plain : NoZero k) where
  -- A key that is there is reported, and nothing changes.
  pub hset_with-present :
      (grow : Grow alloc_ok) (n : ℕ) (v w : Option ℕ)
      → lookup t k ≡ some w
      → hset_with alloc_ok grow t n (some k) (length k) v ≡ ok (t, n, hexists)
  unfolding hset_with lookup
  hset_with-present grow n v w there = rw (
    hhash-home t.mask k,
    bucket-home t valid k plain,
    scan_lem t.mask (home t.mask k) (chain_of t (home t.mask k)) k 0 none
        (valid.keyed (home t.mask k)) plain,
    there,
  )

  -- A new key is added, and the load is tested.
  pub hset_with-fresh :
      (grow : Grow alloc_ok) (n : ℕ) (v : Option ℕ)
      → alloc_ok n ≡ true
      → alloc_ok (n + 1) ≡ true
      → lookup t k ≡ none
      → (t' : Htab) × (n' : ℕ) × (hset_with alloc_ok grow t n (some k) (length k) v
          ≡ check_load alloc_ok grow t' n')
        × IsAdded t t' k v
  unfolding hset_with
  hset_with-fresh grow n v first second fresh =
      let (r, run, (yes', added)) =
        add_item-Added alloc_ok t valid k plain v fresh n first second in
      let fresh' : find_val k (chain_of t (home t.mask k)) ≡ none = unfold lookup in fresh in
      (
        r.0,
        r.1,
        rw (
          hhash-home t.mask k,
          bucket-home t valid k plain,
          scan_lem t.mask (home t.mask k) (chain_of t (home t.mask k)) k 0 none
              (valid.keyed (home t.mask k)) plain,
          fresh',
          run,
          yes',
        ),
        added,
      )

-- `t'` is `t` with another value for the key `k`; it counts the same items.
pub record IsChanged (t t' : Htab) (k : List ℕ) (w : Option (Option ℕ)) : Type 0 where
  pub valid : IsTable t'
  pub changes : Changes t t' k w
  pub count : t'.count ≡ t.count
  pub logsize : t'.logsize ≡ t.logsize
  pub few : items t' ≡ items t

module _ (t : Htab) (valid : IsTable t) (p new : HItem) (i : ℕ)
    (at : get_elem? (chain_of t (home t.mask (key_of p))) i ≡ some p) (used : p.free ≡ false)
    (key : new.key ≡ p.key) (size : new.klen ≡ p.klen) where
  abbrev place : ℕ
  place = home t.mask (key_of p)

  abbrev chain : List HItem
  chain = chain_of t place

  new-IsKeyed : IsKeyed t.mask place new
  new-IsKeyed =
      let is = AllKeyed-get t.mask place chain i p at (valid.keyed place) in
      let name : key_of new ≡ key_of p = ap some_key key in
      record {
        key = key ∙ is.key ∙ ap some (sym name);
        size = size ∙ is.size ∙ ap length (sym name);
        plain = subst NoZero (sym name) is.plain;
        here = ap (home t.mask) name;
      }

  pub with_chain-IsChanged :
      (freecount : ℕ)
      → freecount < 2 ^ 32
      → IsChanged t
          (with_chain t
            (home t.mask (key_of p))
            (set (chain_of t (home t.mask (key_of p))) i new)
            t.count
            freecount)
          (key_of p)
          (shown new)
  with_chain-IsChanged freecount word =
      let c = set chain i new in
      let (here, others) = find_val-change p new key used chain i at (valid.apart place) in
      let apart = Apart-change p new key used chain i at (valid.apart place) in
      let all = AllKeyed-set t.mask place chain i new new-IsKeyed (valid.keyed place) in
      let sizes = items_upto-with_chain t place c t.count freecount t.realsize in
      record {
        valid = with_chain-IsTable t place c t.count freecount valid all apart word;
        changes = with_chain-Changes t (key_of p) (shown new) c t.count freecount here others;
        count = refl;
        logsize = refl;
        few = ground (arith, sizes, length-set chain i new);
      }

-- A change of what the reference of a key points to.
pub update_item-IsChanged :
    (t : Htab) (valid : IsTable t) (k : List ℕ) (it : Ref) (p : HItem) (f : HItem → HItem)
    → it.0 ≡ home t.mask k
    → get_elem? (chain_of t it.0) it.1 ≡ some p
    → key_of p ≡ k
    → p.free ≡ false
    → (f p).key ≡ p.key
    → (f p).klen ≡ p.klen
    → IsChanged t (update_item t it f) k (shown (f p))
update_item-IsChanged t valid k (h, i) p f home_h at named used key size =
    let named_h : h ≡ home t.mask (key_of p) = home_h ∙ ap (home t.mask) (sym named) in
    subst (λ q. IsChanged t (update_item t (h, i) f) q (shown (f p))) named
      (subst
        (λ g.
          get_elem? (chain_of t g) i ≡ some p
          → IsChanged t (update_item t (g, i) f) (key_of p) (shown (f p)))
        (sym named_h)
        (λ at'.
          rw (update_item, at')
            (with_chain-IsChanged t valid p (f p) i at' used key size t.freecount valid.word))
        at)
