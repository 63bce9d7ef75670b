-- ===== src/Hashtab/Set.antt =====
-- `hset` at each depth of growth, when there is memory.
use lightcache.Base.{
  ℕ, suc, ◌+◌, ◌*◌, ◌^◌, ◌<◌, ◌≤◌, ◌≡◌, ◌∙◌, ap, refl, Bool, true, false, List, Option, none, some,
  arith, length, leb,
}
use lightcache.Base.Run.{ok, Returns}
use lightcache.Hashtab.{Htab, hsuccess}
use lightcache.Hashtab.Keys.{NoZero}
use lightcache.Hashtab.Table.{Grow, empty_table, hcount, overloaded, check_load, hset_with}
use lightcache.Hashtab.Grow.{hgrow}
use lightcache.Hashtab.Valid.{IsTable, lookup, Changes, items}
use lightcache.Hashtab.Steps.{hset_with-fresh}
use lightcache.Hashtab.Move.{Adds}
use lightcache.Hashtab.Growth.{
  IsGrown, with_array, items-with_array, items-empty_table, pow_30, empty_table-IsTable,
  grow_with-IsGrown,
}

pub hcount_congr :
    (t t' : Htab) → t'.count ≡ t.count → t'.freecount ≡ t.freecount → hcount t' ≡ hcount t
unfolding hcount
hcount_congr t t' c f = rw (c, f)

pub hcount-empty_table : (l : ℕ) → hcount (empty_table l) ≡ 0
unfolding hcount
hcount-empty_table l = refl

pub overloaded_lem :
    (t : Htab) (m : ℕ) → hcount t ≡ m → m < 2 ^ 31 → overloaded t ≡ leb (3 * t.realsize) (4 * m)
unfolding overloaded
overloaded_lem t m e small = rw e (ground arith)

pub Changes-IsGrown :
    (t t' t'' : Htab) (k : List ℕ) (w : Option (Option ℕ))
    → Changes t t' k w
    → IsGrown t' t''
    → Changes t t'' k w
Changes-IsGrown t t' t'' k w c g = record {
  here = g.reads k ∙ c.here;
  others = λ q ne. g.reads q ∙ c.others q ne;
}

module _ (alloc_ok : ℕ → Bool) (always : (n : ℕ) → alloc_ok n ≡ true) where
  pub light :
      (grow : Grow alloc_ok) (t : Htab) (n : ℕ)
      → overloaded t ≡ false
      → check_load alloc_ok grow t n ≡ ok (t, n, hsuccess)
  unfolding check_load
  light grow t n e = rw e

  pub heavy :
      (grow : Grow alloc_ok) (t t' : Htab) (n n' : ℕ)
      → overloaded t ≡ true
      → grow t n ≡ ok (t', n', true)
      → check_load alloc_ok grow t n ≡ ok (t', n', hsuccess)
  unfolding check_load
  heavy grow t t' n n' e run = rw (e, run)

  -- The new table of a new table: it has room for all items.
  module _ (l total : ℕ) (small : l ≤ 30) (room : 4 * total < 3 * 2 ^ l) where
    record IsNested (d : Htab) (j : ℕ) : Type 0 where
      valid : IsTable d
      logsize : d.logsize ≡ l
      counted : hcount d ≡ j
      few : items d ≤ j

    IsNested-step :
        (d : Htab) (j n : ℕ) (k : List ℕ) (v : Option ℕ)
        → IsNested d j
        → j < total
        → NoZero k
        → lookup d k ≡ none
        → Returns
            (hset_with alloc_ok (hgrow alloc_ok 0) d n (some k) (length k) v)
            λ r. (r.2 ≡ hsuccess) × IsNested r.0 (suc j) × Changes d r.0 k (some v)
    IsNested-step d j n k v is below plain fresh =
        let (t', n', run, added) =
          hset_with-fresh alloc_ok d is.valid k plain (hgrow alloc_ok 0) n v (always n)
            (always (n + 1)) fresh in
        let fits = (pow_30 l small).1 in
        let m : hcount t' ≡ suc j = omega (arith, added.counted, is.counted) in
        let size : t'.realsize ≡ 2 ^ l =
          added.valid.realsize ∙ ap (λ x. 2 ^ x) (added.logsize ∙ is.logsize) in
        let calm : overloaded t' ≡ false =
          overloaded_lem t' (suc j) m (omega arith) ∙ ground (arith, size) in
        (
          (t', n', hsuccess),
          run ∙ light (hgrow alloc_ok 0) t' n' calm,
          (
            refl,
            record {
              valid = added.valid;
              logsize = added.logsize ∙ is.logsize;
              counted = m;
              few = omega (arith, added.few, is.few);
            },
            added.changes,
          ),
        )

    IsNested-Adds : Adds alloc_ok (hset_with alloc_ok (hgrow alloc_ok 0)) IsNested total
    IsNested-Adds = record {
      valid = λ d j is. is.valid;
      step = IsNested-step;
      change = λ d d' j k w is c f. record {
        valid = c.valid;
        logsize = c.logsize ∙ is.logsize;
        counted = hcount_congr d d' c.count f ∙ is.counted;
        few = omega (arith, c.few, is.few);
      };
    }

  -- A new table grows at most once for each item, and its own new table never does.
  pub hgrow_one :
      (t : Htab) (n : ℕ)
      → IsTable t
      → t.logsize < 30
      → 4 * items t < 3 * 2 ^ (t.logsize + 1)
      → (t' : Htab) × (n' : ℕ) × (hgrow alloc_ok 1 t n ≡ ok (t', n', true))
        × IsGrown t t'
        × (t'.logsize ≡ t.logsize + 1)
        × (items t' ≤ items t)
  unfolding hgrow
  hgrow_one t n valid room fit =
      let l = t.logsize + 1 in
      let small : l ≤ 30 = omega arith in
      let start : IsNested l (items t) small fit (empty_table l) 0 = record {
        valid = empty_table-IsTable l small;
        logsize = refl;
        counted = hcount-empty_table l;
        few = omega (arith, items-empty_table l);
      } in
      let (d, n', run, grown, good) =
        grow_with-IsGrown alloc_ok always (hset_with alloc_ok (hgrow alloc_ok 0))
          (IsNested l (items t) small fit) (items t) (IsNested-Adds l (items t) small fit) t n valid
          room start (omega arith) in
      (with_array t d, n', run, grown, good.logsize, omega (arith, items-with_array t d, good.few))
