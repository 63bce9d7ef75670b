-- ===== src/Hashtab/Deep.antt =====
-- `hset` on the table that `_hgrow` fills, which may grow itself, when there is memory.
use lightcache.Base.{
  ℕ, suc, ◌+◌, ◌*◌, ◌^◌, ◌<◌, ◌≤◌, ◌≡◌, ◌∙◌, ap, refl, sym, inl, inr, Bool, true, List, Option,
  none, some, arith, length, ltb, leb, Bool-cases,
}
use native.Mathlib.Nat.{pow-suc, pow-le-pow_right}
use lightcache.Base.Run.{ok, Returns}
use lightcache.Hashtab.{Htab, hsuccess}
use lightcache.Hashtab.Keys.{NoZero}
use lightcache.Hashtab.Table.{empty_table, hcount, hset_with}
use lightcache.Hashtab.Grow.{hgrow}
use lightcache.Hashtab.Valid.{IsTable, lookup, Changes, items}
use lightcache.Hashtab.Steps.{hset_with-fresh}
use lightcache.Hashtab.Move.{Adds}
use lightcache.Hashtab.Growth.{
  IsGrown, with_array, items-with_array, items-empty_table, pow_30, empty_table-IsTable,
  grow_with-IsGrown,
}
use lightcache.Hashtab.Set.{
  hcount_congr, hcount-empty_table, overloaded_lem, Changes-IsGrown, light, heavy, hgrow_one,
}

-- A table with a load of at least 3/4 and few items has room to grow.
pub room_below :
    (t : Htab) (m : ℕ) → IsTable t → 3 * t.realsize ≤ 4 * m → m ≤ 2 ^ 27 → t.logsize < 30
room_below t m valid full few = elim (Bool-cases (ltb t.logsize 30)) [
  | inl e ↦ ground (arith, e)
  | inr e ↦
      let big : 30 ≤ t.logsize = ground (arith, e) in
      let p : 2 ^ 30 ≤ 2 ^ t.logsize = pow-le-pow_right (omega arith) big in
      absurd (omega (arith, p, valid.realsize))
]

pub twice : (t : Htab) → IsTable t → 2 ^ (t.logsize + 1) ≡ 2 * t.realsize
twice t valid =
    let e : t.logsize + 1 ≡ suc t.logsize = omega arith in
    ap (λ m. 2 ^ m) e ∙ pow-suc 2 t.logsize ∙ omega (arith, valid.realsize)

module _ (alloc_ok : ℕ → Bool) (always : (n : ℕ) → alloc_ok n ≡ true) (total : ℕ)
    (bound : total ≤ 2 ^ 27) where
  -- A table that has taken `j` items, and whose load is below 3/4.
  pub record IsGrowing (d : Htab) (j : ℕ) : Type 0 where
    pub valid : IsTable d
    pub two : 2 ≤ d.realsize
    pub counted : hcount d ≡ j
    pub few : items d ≤ j
    pub below : 4 * j < 3 * d.realsize

  IsGrowing-step :
      (d : Htab) (j n : ℕ) (k : List ℕ) (v : Option ℕ)
      → IsGrowing d j
      → j < total
      → NoZero k
      → lookup d k ≡ none
      → Returns
          (hset_with alloc_ok (hgrow alloc_ok 1) d n (some k) (length k) v)
          λ r. (r.2 ≡ hsuccess) × IsGrowing r.0 (suc j) × Changes d r.0 k (some v)
  IsGrowing-step d j n k v is room plain fresh =
      let grow = hgrow alloc_ok 1 in
      let (t', n', run, added) =
        hset_with-fresh alloc_ok d is.valid k plain grow n v (always n) (always (n + 1)) fresh in
      let pos : 1 ≤ d.realsize = omega (arith, is.two) in
      let m : hcount t' ≡ suc j = omega (arith, added.counted, is.counted) in
      let few : items t' ≤ suc j = omega (arith, added.few, is.few) in
      let same : t'.realsize ≡ d.realsize =
        added.valid.realsize ∙ ap (λ x. 2 ^ x) added.logsize ∙ sym is.valid.realsize in
      let test = overloaded_lem t' (suc j) m (omega arith) in
      elim (Bool-cases (leb (3 * t'.realsize) (4 * suc j))) [
        | inl e ↦
            let full : 3 * t'.realsize ≤ 4 * suc j = ground (arith, e) in
            let small = room_below t' (suc j) added.valid full (omega arith) in
            let size = twice t' added.valid in
            let (t'', n'', ran, grown, larger, kept) =
              hgrow_one alloc_ok always t' n' added.valid small
                (omega (arith, few, size, is.below, same, is.two)) in
            let doubled : t''.realsize ≡ 2 * t'.realsize =
              grown.valid.realsize ∙ ap (λ x. 2 ^ x) larger ∙ size in
            (
              (t'', n'', hsuccess),
              run ∙ heavy alloc_ok always grow t' t'' n' n'' (test ∙ e) ran,
              (
                refl,
                record {
                  valid = grown.valid;
                  two = omega (arith, doubled, same, is.two);
                  counted = hcount_congr t' t'' grown.count grown.freecount ∙ m;
                  few = omega (arith, kept, few);
                  below = omega (arith, doubled, same, is.two, is.below);
                },
                Changes-IsGrown d t' t'' k (some v) added.changes grown,
              ),
            )
        | inr e ↦ (
          (t', n', hsuccess),
          run ∙ light alloc_ok always grow t' n' (test ∙ e),
          (
            refl,
            record {
              valid = added.valid;
              two = omega (arith, same, is.two);
              counted = m;
              few = few;
              below = ground (arith, e);
            },
            added.changes,
          ),
        )
      ]

  IsGrowing-Adds : Adds alloc_ok (hset_with alloc_ok (hgrow alloc_ok 1)) IsGrowing total
  IsGrowing-Adds = record {
    valid = λ d j is. is.valid;
    step = IsGrowing-step;
    change = λ d d' j k w is c f.
        let same : d'.realsize ≡ d.realsize =
          c.valid.realsize ∙ ap (λ x. 2 ^ x) c.logsize ∙ sym is.valid.realsize in
        record {
          valid = c.valid;
          two = omega (arith, same, is.two);
          counted = hcount_congr d d' c.count f ∙ is.counted;
          few = omega (arith, c.few, is.few);
          below = omega (arith, same, is.below);
        };
  }

-- `_hgrow` finishes, with the same keys and values in a larger array.
pub hgrow_two :
    (alloc_ok : ℕ → Bool) (always : (n : ℕ) → alloc_ok n ≡ true) (t : Htab) (n : ℕ)
    → IsTable t
    → t.logsize < 30
    → items t ≤ 2 ^ 27
    → (t' : Htab) × (n' : ℕ) × (hgrow alloc_ok 2 t n ≡ ok (t', n', true))
      × IsGrown t t'
      × (items t' ≤ items t)
      × (4 * items t < 3 * t'.realsize)
unfolding hgrow
hgrow_two alloc_ok always t n valid room fit =
    let l = t.logsize + 1 in
    let small : l ≤ 30 = omega arith in
    let empty = empty_table-IsTable l small in
    let two : 2 ≤ (empty_table l).realsize =
      omega (
        arith,
        empty.realsize,
        twice t valid,
        valid.realsize,
        (pow_30 t.logsize (omega arith)).0,
      ) in
    let start : IsGrowing alloc_ok always (items t) fit (empty_table l) 0 = record {
      valid = empty;
      two = two;
      counted = hcount-empty_table l;
      few = omega (arith, items-empty_table l);
      below = omega (arith, two);
    } in
    let (d, n', run, grown, good) =
      grow_with-IsGrown alloc_ok always (hset_with alloc_ok (hgrow alloc_ok 1))
        (IsGrowing alloc_ok always (items t) fit) (items t)
        (IsGrowing-Adds alloc_ok always (items t) fit) t n valid room start (omega arith) in
    (with_array t d, n', run, grown, omega (arith, items-with_array t d, good.few), good.below)
