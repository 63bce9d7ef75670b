-- ===== src/Hashtab/Grow.antt =====
-- `_hgrow` and `hset` of src/hashtab.c, which call each other.
use lightcache.Base.{
  u32, ℕ, zero, suc, ◌+◌, Bool, true, false, List, [], ◌∷◌, Option, none, some, length, ltb, ◌==◌,
  if◌then◌else◌,
}
use lightcache.Base.Run.{Run, ok, fault, out_of_fuel, ◌>>=◌}
use lightcache.Hashtab.{HItem, Htab}
use lightcache.Hashtab.Table.{Setter, Grow, bucket, htcreate, move_item, hset_with, chain_of}

module _ (alloc_ok : ℕ → Bool) where
  -- The inner loop; a result other than `none` is what is left of the chain where it stops.
  unfoldable pub move_chain :
      Setter alloc_ok → List HItem → Htab → ℕ → Run (Htab × ℕ × Option (List HItem))
  unfolding move_item
  move_chain setter [] dummy n = ok (dummy, n, none)
  move_chain setter (p ∷ ps) dummy n = do
    (dummy', n', moved) ← move_item alloc_ok setter p dummy n
    let rest = move_chain setter ps dummy' n'
    if moved then rest else ok (dummy', n', some (p ∷ ps))

  -- The outer loop over `k` buckets from bucket `i` on; it may stop within a bucket.
  unfoldable pub move_buckets :
      Setter alloc_ok → Htab → ℕ → ℕ → Htab → ℕ → Run (Htab × ℕ × Option (ℕ × List HItem))
  unfolding move_chain
  move_buckets setter ht zero i dummy n = ok (dummy, n, none)
  move_buckets setter ht (suc k) i dummy n = do
    chain ← bucket ht i
    (dummy', n', left) ← move_chain setter chain dummy n
    elim left [
      | none ↦ move_buckets setter ht k (i + 1) dummy' n'
      | some rest ↦ ok (dummy', n', some (i, rest))
    ]

  -- The array when `_hgrow` gives up in bucket `i`: the items that were moved are freed.
  abbrev pub is_empty : List HItem → Bool
  is_empty [] = true
  is_empty (p ∷ ps) = false

  abbrev pub given_up : Htab → ℕ → List HItem → ℕ → Option (List HItem)
  given_up ht i rest j =
      let kept = ht.table j in
      if ltb i j
      then kept
      else if j == i
      then (if length rest == length (chain_of ht i) then kept else none)
      else if is_empty (chain_of ht j)
      then kept
      else none

  unfoldable pub grow_with : Setter alloc_ok → Htab → ℕ → Run (Htab × ℕ × Bool)
  unfolding htcreate move_buckets
  grow_with setter ht n =
      let (created, n') = htcreate alloc_ok n (u32 (ht.logsize + 1)) in
      elim created [
        | none ↦ ok (ht, n', false)
        | some dummy ↦
            (move_buckets setter ht ht.realsize 0 dummy n' >>= λ (dummy', n'', left). elim left [
              | some (i, rest) ↦ ok (record ht { table = given_up ht i rest }, n'', false)
              | none ↦ ok (
                record ht {
                  table = dummy'.table;
                  logsize = dummy'.logsize;
                  realsize = dummy'.realsize;
                  mask = dummy'.mask;
                },
                n'',
                true,
              )
            ])
      ]

  -- `_hgrow`, in which `hset` may call `_hgrow` for the new table, to the depth `fuel`
  unfoldable pub hgrow : ℕ → Grow alloc_ok
  unfolding grow_with hset_with
  hgrow zero ht n = fault out_of_fuel
  hgrow (suc fuel) ht n = grow_with (hset_with alloc_ok (hgrow fuel)) ht n

  -- The depth is 2: the new table of a new table never grows.
  unfoldable pub hset : Setter alloc_ok
  unfolding hgrow
  hset ht n key klen val = hset_with alloc_ok (hgrow 2) ht n key klen val
