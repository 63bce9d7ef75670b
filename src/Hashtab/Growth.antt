-- ===== src/Hashtab/Growth.antt =====
-- `_hgrow` as a whole, for a way to add items that works.
use lightcache.Base.{
  u32, ℕ, zero, suc, ◌+◌, ◌^◌, ◌<◌, ◌≤◌, ◌≡◌, ◌∙◌, ap, refl, Bool, true, List, [], Option, none,
  some, arith, length,
}
use native.Mathlib.Nat.{one-le-pow, pow-le-pow_right}
use mathlib.Core.Path.{subst}
use lightcache.Base.Run.{ok}
use lightcache.Hashtab.{HItem, Htab, hsize}
use lightcache.Hashtab.Table.{Setter, chain_of, empty_table, htcreate}
use lightcache.Hashtab.Grow.{move_buckets, grow_with}
use lightcache.Hashtab.Chain.{find_val}
use lightcache.Hashtab.Valid.{IsTable, lookup, items_upto, items}
use lightcache.Hashtab.Flat.{items_from, Apart-items_from, lookup-items_from, length-items_from}
use lightcache.Hashtab.Move.{Adds, HasItems, move_buckets-HasItems}

-- `t'` reads as `t` and counts as many items.
pub record IsGrown (t t' : Htab) : Type 0 where
  pub valid : IsTable t'
  pub reads : (k : List ℕ) → lookup t' k ≡ lookup t k
  pub count : t'.count ≡ t.count
  pub freecount : t'.freecount ≡ t.freecount

-- A table with the array and the sizes of another.
abbrev pub with_array : Htab → Htab → Htab
with_array t d = record t {
  table = d.table;
  logsize = d.logsize;
  realsize = d.realsize;
  mask = d.mask;
}

items_upto-with_array : (t d : Htab) (n : ℕ) → items_upto (with_array t d) n ≡ items_upto d n
unfolding items_upto
items_upto-with_array t d zero = refl
items_upto-with_array t d (suc n) =
    ap (λ m. m + length (chain_of d n)) (items_upto-with_array t d n)

pub items-with_array : (t d : Htab) → items (with_array t d) ≡ items d
items-with_array t d = items_upto-with_array t d d.realsize

items_upto-empty : (l n : ℕ) → items_upto (empty_table l) n ≡ 0
unfolding items_upto
items_upto-empty l zero = refl
items_upto-empty l (suc n) = omega (arith, items_upto-empty l n)

pub items-empty_table : (l : ℕ) → items (empty_table l) ≡ 0
items-empty_table l = items_upto-empty l (hsize l)

pub pow_30 : (l : ℕ) → l ≤ 30 → (1 ≤ 2 ^ l) × (2 ^ l ≤ 2 ^ 30)
pow_30 l h = (one-le-pow l 2 (omega arith), pow-le-pow_right (omega arith) h)

pub empty_table-IsTable : (l : ℕ) → l ≤ 30 → IsTable (empty_table l)
empty_table-IsTable l h =
    let (pos, small) = pow_30 l h in
    record {
      small = h;
      realsize = omega arith;
      mask = omega arith;
      word = omega arith;
      kept = λ g. refl;
      keyed = λ g. tt;
      apart = λ g. tt;
    }

lookup-with_array : (t d : Htab) (k : List ℕ) → lookup (with_array t d) k ≡ lookup d k
unfolding lookup
lookup-with_array t d k = refl

with_array-IsGrown :
    (t d : Htab)
    → IsTable t
    → IsTable d
    → ((k : List ℕ) → lookup d k ≡ find_val k (items_from t 0 t.realsize))
    → IsGrown t (with_array t d)
with_array-IsGrown t d valid valid' reads = record {
  valid = record {
    small = valid'.small;
    realsize = valid'.realsize;
    mask = valid'.mask;
    word = valid.word;
    kept = valid'.kept;
    keyed = valid'.keyed;
    apart = valid'.apart;
  };
  reads = λ k. lookup-with_array t d k ∙ reads k ∙ lookup-items_from t k valid;
  count = refl;
  freecount = refl;
}

pub total_items : (t : Htab) → length (items_from t 0 t.realsize) ≡ items t
total_items t =
    let zero_items : items_upto t 0 ≡ 0 = unfold items_upto in refl in
    let e : 0 + t.realsize ≡ t.realsize = omega arith in
    omega (arith, length-items_from t 0 t.realsize, zero_items, ap (items_upto t) e)

module _ (alloc_ok : ℕ → Bool) (always : (n : ℕ) → alloc_ok n ≡ true) (setter : Setter alloc_ok)
    (Good : Htab → ℕ → Type 0) (total : ℕ) (adds : Adds alloc_ok setter Good total) where
  htcreate_lem : (n l : ℕ) → htcreate alloc_ok n l ≡ (some (empty_table l), n + 2)
  unfolding htcreate
  htcreate_lem n l = rw (always n, always (n + 1))

  grow_with_run :
      (t : Htab) (n : ℕ) (r : Htab × ℕ × Option (ℕ × List HItem))
      → t.logsize < 30
      → move_buckets alloc_ok setter t t.realsize 0 (empty_table (t.logsize + 1)) (n + 2) ≡ ok r
      → r.2 ≡ none
      → grow_with alloc_ok setter t n ≡ ok (with_array t r.0, r.1, true)
  unfolding grow_with
  grow_with_run t n r room run done =
      let l : u32 (t.logsize + 1) ≡ t.logsize + 1 = omega arith in
      let created : htcreate alloc_ok n (u32 (t.logsize + 1))
          ≡ (some (empty_table (t.logsize + 1)), n + 2) =
        htcreate_lem n (u32 (t.logsize + 1)) ∙ ap (λ m. (some (empty_table m), n + 2)) l in
      let next : (htcreate alloc_ok n (u32 (t.logsize + 1))).1 ≡ n + 2 =
        ap (λ (x : Option Htab × ℕ). x.1) created in
      let made : (htcreate alloc_ok n (u32 (t.logsize + 1))).0
          ≡ some (empty_table (t.logsize + 1)) =
        ap (λ (x : Option Htab × ℕ). x.0) created in
      rw (grow_with, made, next, run, done)

  pub grow_with-IsGrown :
      (t : Htab) (n : ℕ)
      → IsTable t
      → t.logsize < 30
      → Good (empty_table (t.logsize + 1)) 0
      → items t ≤ total
      → (d : Htab) × (n' : ℕ) × (grow_with alloc_ok setter t n ≡ ok (with_array t d, n', true))
        × IsGrown t (with_array t d)
        × Good d (items t)
  grow_with-IsGrown t n valid room start few =
      let fresh : HasItems alloc_ok setter Good total adds (empty_table (t.logsize + 1)) [] =
        record { good = start; reads = λ k. unfold lookup find_val in refl } in
      let (r, run, (done, has)) =
        move_buckets-HasItems alloc_ok setter Good total adds t valid t.realsize 0 []
          (empty_table (t.logsize + 1)) (n + 2) fresh (omega arith)
          (Apart-items_from t 0 t.realsize valid) (omega (arith, total_items t)) in
      (
        r.0,
        r.1,
        grow_with_run t n r room run done,
        with_array-IsGrown t r.0 valid (adds.valid r.0 _ has.good) has.reads,
        subst (Good r.0) (total_items t) has.good,
      )
