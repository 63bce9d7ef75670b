-- ===== src/Hashtab/Flat.antt =====
-- All items of a table in the order in which `_hgrow` takes them.
use lightcache.Base.{
  ℕ, zero, suc, ◌+◌, ◌<◌, ◌≤◌, ◌≡◌, ◌≢◌, ◌∙◌, ap, refl, sym, inl, inr, false, List, [], ◌∷◌, ◌++◌,
  Option, none, some, arith, length, length-append, ◌==◌, ==_iff, Bool-cases,
}
use lightcache.Hashtab.{HItem, Htab}
use lightcache.Hashtab.Keys.{home}
use lightcache.Hashtab.Table.{chain_of}
use lightcache.Hashtab.Chain.{key_of, AllKeyed, NoKey, Apart, is_match, find_val}
use lightcache.Hashtab.Chain.Write.{find_val-NoKey}
use lightcache.Hashtab.Keys.{list_eq-ne}
use lightcache.Hashtab.Valid.{IsTable, lookup, items_upto, home-realsize}

unfoldable pub items_from : Htab → ℕ → ℕ → List HItem
items_from t i zero = []
items_from t i (suc n) = chain_of t i ++ items_from t (i + 1) n

NoKey-append : (k : List ℕ) (xs ys : List HItem) → NoKey k xs → NoKey k ys → NoKey k (xs ++ ys)
NoKey-append k [] ys a b = b
NoKey-append k (x ∷ xs) ys (ne, a) b = (ne, NoKey-append k xs ys a b)

NoKey-elsewhere :
    (mask h : ℕ) (k : List ℕ) (xs : List HItem) → AllKeyed mask h xs → home mask k ≢ h → NoKey k xs
NoKey-elsewhere mask h k [] all ne = tt
NoKey-elsewhere mask h k (x ∷ xs) (is, all) ne =
    ((λ e. ne (ap (home mask) (sym e) ∙ is.here)), NoKey-elsewhere mask h k xs all ne)

NoKey-items_from :
    (t : Htab) (i n : ℕ) (k : List ℕ) → IsTable t → home t.mask k < i → NoKey k (items_from t i n)
unfolding items_from
NoKey-items_from t i zero k valid below = tt
NoKey-items_from t i (suc n) k valid below =
    NoKey-append k (chain_of t i) (items_from t (i + 1) n)
      (NoKey-elsewhere t.mask i k (chain_of t i) (valid.keyed i) (omega arith))
      (NoKey-items_from t (i + 1) n k valid (omega arith))

Apart-append :
    (mask h : ℕ) (xs ys : List HItem)
    → AllKeyed mask h xs
    → ((k : List ℕ) → home mask k ≡ h → NoKey k ys)
    → Apart xs
    → Apart ys
    → Apart (xs ++ ys)
Apart-append mask h [] ys all away a b = b
Apart-append mask h (x ∷ xs) ys (is, all) away (alone, a) b = (
  (λ f. NoKey-append (key_of x) xs ys (alone f) (away (key_of x) is.here)),
  Apart-append mask h xs ys all away a b,
)

pub Apart-items_from : (t : Htab) (i n : ℕ) → IsTable t → Apart (items_from t i n)
unfolding items_from
Apart-items_from t i zero valid = tt
Apart-items_from t i (suc n) valid =
    Apart-append t.mask i (chain_of t i) (items_from t (i + 1) n) (valid.keyed i)
      (λ k e. NoKey-items_from t (i + 1) n k valid (omega arith)) (valid.apart i)
      (Apart-items_from t (i + 1) n valid)

abbrev pub or_else : Option (Option ℕ) → Option (Option ℕ) → Option (Option ℕ)
or_else none b = b
or_else (some v) b = some v

pub find_val-append :
    (k : List ℕ) (xs ys : List HItem)
    → find_val k (xs ++ ys) ≡ or_else (find_val k xs) (find_val k ys)
unfolding find_val
find_val-append k [] ys = refl
find_val-append k (x ∷ xs) ys = elim (Bool-cases (is_match k x)) [
  | inl e ↦ rw e
  | inr e ↦ rw e (find_val-append k xs ys)
]

pub find_val-items_from :
    (t : Htab) (i n : ℕ) (k : List ℕ)
    → IsTable t
    → i ≤ home t.mask k
    → home t.mask k < i + n
    → find_val k (items_from t i n) ≡ find_val k (chain_of t (home t.mask k))
unfolding items_from
find_val-items_from t i zero k valid low high = absurd (omega arith)
find_val-items_from t i (suc n) k valid low high =
    find_val-append k (chain_of t i) (items_from t (i + 1) n)
    ∙ elim (Bool-cases (home t.mask k == i)) [
      | inl e ↦
          let s : home t.mask k ≡ i = (==_iff (home t.mask k) i).0 e in
          let gone =
            find_val-NoKey k (items_from t (i + 1) n)
              (NoKey-items_from t (i + 1) n k valid (omega arith)) in
          or_none (find_val k (chain_of t i)) (find_val k (items_from t (i + 1) n)) gone
          ∙ ap (λ g. find_val k (chain_of t g)) (sym s)
      | inr e ↦
          let gone : find_val k (chain_of t i) ≡ none =
            find_val-NoKey k (chain_of t i)
              (NoKey-elsewhere t.mask i k (chain_of t i) (valid.keyed i) (ground arith)) in
          ap (λ v. or_else v (find_val k (items_from t (i + 1) n))) gone
          ∙ find_val-items_from t (i + 1) n k valid (ground arith) (omega arith)
    ]
  where
    or_none : (a b : Option (Option ℕ)) → b ≡ none → or_else a b ≡ a
    or_none none b e = e
    or_none (some v) b e = refl

pub lookup-items_from :
    (t : Htab) (k : List ℕ) → IsTable t → find_val k (items_from t 0 t.realsize) ≡ lookup t k
unfolding lookup
lookup-items_from t k valid =
    let inside = home-realsize t k valid in
    find_val-items_from t 0 t.realsize k valid (omega arith) (omega arith)

items_upto-suc : (t : Htab) (n : ℕ) → items_upto t (suc n) ≡ items_upto t n + length (chain_of t n)
unfolding items_upto
items_upto-suc t n = refl

pub length-items_from :
    (t : Htab) (i n : ℕ) → items_upto t i + length (items_from t i n) ≡ items_upto t (i + n)
unfolding items_from
length-items_from t i zero = let e : i + 0 ≡ i = omega arith in omega (arith, ap (items_upto t) e)
length-items_from t i (suc n) =
    let e : i + suc n ≡ i + 1 + n = omega arith in
    let next : i + 1 ≡ suc i = omega arith in
    let step : items_upto t (i + 1) ≡ items_upto t i + length (chain_of t i) =
      ap (items_upto t) next ∙ items_upto-suc t i in
    rw e (
      omega (
        arith,
        length-items_from t (i + 1) n,
        step,
        length-append (chain_of t i) (items_from t (i + 1) n),
      ))

-- An item behind others has a key that no item in use before it has.
pub find_val-before :
    (xs ys : List HItem) (p : HItem) → Apart (xs ++ p ∷ ys) → find_val (key_of p) xs ≡ none
unfolding find_val
find_val-before [] ys p apart = refl
find_val-before (x ∷ xs) ys p (alone, apart) =
    let m : is_match (key_of p) x ≡ false = elim (Bool-cases x.free) [
      | inl f ↦ ground (arith, f)
      | inr f ↦
          let ne =
            list_eq-ne (key_of x) (key_of p) (λ e. head_key (key_of x) xs ys p (alone f) (sym e)) in
          rw ne
    ] in
    rw m (find_val-before xs ys p apart)
  where
    head_key : (k : List ℕ) (xs ys : List HItem) (p : HItem) → NoKey k (xs ++ p ∷ ys) → key_of p ≢ k
    head_key k [] ys p (ne, _) = ne
    head_key k (x ∷ xs) ys p (_, gone) = head_key k xs ys p gone

NoKey-front : (k : List ℕ) (xs ys : List HItem) → NoKey k (xs ++ ys) → NoKey k xs
NoKey-front k [] ys gone = tt
NoKey-front k (x ∷ xs) ys (ne, gone) = (ne, NoKey-front k xs ys gone)

pub Apart-front : (xs ys : List HItem) → Apart (xs ++ ys) → Apart xs
Apart-front [] ys apart = tt
Apart-front (x ∷ xs) ys (alone, apart) =
    ((λ f. NoKey-front (key_of x) xs ys (alone f)), Apart-front xs ys apart)
