-- ===== src/Hashtab/Chain/Write.antt =====
-- Writes to a chain: a free item that is used again, a new first item, a change of an item in use.
use lightcache.Base.{
  ℕ, zero, suc, ◌+◌, ◌≡◌, ◌≢◌, ◌∙◌, ap, refl, sym, inl, inr, ◌⊎◌, true, false, List, [], ◌∷◌,
  Option, none, some, arith, get_elem?, set, Bool-cases, if◌then◌else◌,
}
use mathlib.Core.Path.{subst}
use lightcache.Protocol.Bytes.{list_eq}
use lightcache.Hashtab.{HItem}
use lightcache.Hashtab.Keys.{list_eq_refl, list_eq-ne}
use lightcache.Hashtab.Chain.{key_of, NoKey, Apart, AllUsed, is_match, find_val, last_free}

-- The item at `j` is free, and no item behind it is.
abbrev pub IsLastFree : List HItem → ℕ → HItem → Type 0
IsLastFree [] j p = ⊥
IsLastFree (q ∷ ps) zero p = (q ≡ p) × (p.free ≡ true) × AllUsed ps
IsLastFree (q ∷ ps) (suc j) p = IsLastFree ps j p

-- What `last_free` gives from position `i` on.
abbrev pub LastFree : List HItem → ℕ → Option ℕ → Option ℕ → Type 0
LastFree ps i new r =
    (AllUsed ps × (r ≡ new)) ⊎ ((m : ℕ) × (p : HItem) × (r ≡ some (i + m)) × IsLastFree ps m p)

pub last_free-LastFree :
    (ps : List HItem) (i : ℕ) (new : Option ℕ) → LastFree ps i new (last_free ps i new)
unfolding last_free
last_free-LastFree [] i new = inl (tt, refl)
last_free-LastFree (p ∷ ps) i new = elim (Bool-cases p.free) [
  | inl e ↦ elim (last_free-LastFree ps (i + 1) (if p.free then some i else new)) [
    | inl (used, same) ↦ inr (
      0,
      p,
      same ∙ ap (λ b. if b then some i else new) e ∙ ap some (omega arith),
      (refl, e, used),
    )
    | inr (m, q, at, last) ↦ inr (suc m, q, at ∙ ap some (omega arith), last)
  ]
  | inr e ↦ elim (last_free-LastFree ps (i + 1) (if p.free then some i else new)) [
    | inl (used, same) ↦ inl ((e, used), same ∙ ap (λ b. if b then some i else new) e)
    | inr (m, q, at, last) ↦ inr (suc m, q, at ∙ ap some (omega arith), last)
  ]
]

pub get_elem?-IsLastFree :
    (ps : List HItem) (j : ℕ) (p : HItem)
    → IsLastFree ps j p
    → (get_elem? ps j ≡ some p) × (p.free ≡ true)
get_elem?-IsLastFree [] j p last = absurd last
get_elem?-IsLastFree (q ∷ ps) zero p (e, f, used) = (ap some e, f)
get_elem?-IsLastFree (q ∷ ps) (suc j) p last = get_elem?-IsLastFree ps j p last

-- The chain without the key, all of whose items are in use, has no item with it.
pub no_match :
    (k : List ℕ) (p : HItem) (ps : List HItem) → find_val k (p ∷ ps) ≡ none → is_match k p ≡ false
unfolding find_val
no_match k p ps e = elim (Bool-cases (is_match k p)) [
  | inl m ↦ absurd (ground (arith, e, m))
  | inr m ↦ m
]

find_val-tail :
    (k : List ℕ) (p : HItem) (ps : List HItem) → find_val k (p ∷ ps) ≡ none → find_val k ps ≡ none
unfolding find_val
find_val-tail k p ps e = elim (Bool-cases (is_match k p)) [
  | inl m ↦ absurd (ground (arith, e, m))
  | inr m ↦ rw m at e
]

pub used_ne : (k : List ℕ) (p : HItem) → is_match k p ≡ false → p.free ≡ false → key_of p ≢ k
used_ne k p m f e =
    let yes : list_eq (key_of p) k ≡ true =
      subst (λ q. list_eq (key_of p) q ≡ true) e (list_eq_refl (key_of p)) in
    absurd (ground (arith, yes, f, m))

pub NoKey-AllUsed : (k : List ℕ) (ps : List HItem) → find_val k ps ≡ none → AllUsed ps → NoKey k ps
NoKey-AllUsed k [] e used = tt
NoKey-AllUsed k (p ∷ ps) e (f, used) =
    (used_ne k p (no_match k p ps e) f, NoKey-AllUsed k ps (find_val-tail k p ps e) used)

pub find_val-NoKey : (k : List ℕ) (ps : List HItem) → NoKey k ps → find_val k ps ≡ none
unfolding find_val
find_val-NoKey k [] gone = refl
find_val-NoKey k (p ∷ ps) (ne, gone) =
    let e : list_eq (key_of p) k ≡ false = list_eq-ne (key_of p) k ne in
    rw e (find_val-NoKey k ps gone)

pub NoKey-set :
    (k : List ℕ) (ps : List HItem) (j : ℕ) (p : HItem)
    → key_of p ≢ k
    → NoKey k ps
    → NoKey k (set ps j p)
NoKey-set k [] j p ne gone = tt
NoKey-set k (q ∷ ps) zero p ne (_, gone) = (ne, gone)
NoKey-set k (q ∷ ps) (suc j) p ne (m, gone) = (m, NoKey-set k ps j p ne gone)

-- A free item that is used again for a key that the chain does not have.
module _ (k : List ℕ) (new : HItem) (named : key_of new ≡ k) (used : new.free ≡ false) where
  pub Apart-set :
      (ps : List HItem) (j : ℕ) (p : HItem)
      → IsLastFree ps j p
      → find_val k ps ≡ none
      → Apart ps
      → Apart (set ps j new)
  Apart-set [] j p last e apart = absurd last
  Apart-set (q ∷ ps) zero p (_, _, all) e (_, apart) = (
    (λ _. subst (λ n. NoKey n ps) (sym named) (NoKey-AllUsed k ps (find_val-tail k q ps e) all)),
    apart,
  )
  Apart-set (q ∷ ps) (suc j) p last e (alone, apart) = (
    (λ f.
        NoKey-set (key_of q) ps j new (λ s. used_ne k q (no_match k q ps e) f (sym s ∙ named))
          (alone f)),
    Apart-set ps j p last (find_val-tail k q ps e) apart,
  )

  find_val-new : (ps : List HItem) → find_val k (new ∷ ps) ≡ some new.val
  unfolding find_val
  find_val-new ps =
      let m : list_eq (key_of new) k ≡ true = rw named (list_eq_refl k) in rw (m, used)

  find_val-other : (q : List ℕ) (ps : List HItem) → q ≢ k → find_val q (new ∷ ps) ≡ find_val q ps
  unfolding find_val
  find_val-other q ps ne =
      let m : list_eq (key_of new) q ≡ false =
        list_eq-ne (key_of new) q (λ e. ne (sym e ∙ named)) in
      rw m

  pub find_val-set :
      (ps : List HItem) (j : ℕ) (p : HItem)
      → IsLastFree ps j p
      → find_val k ps ≡ none
      → (find_val k (set ps j new) ≡ some new.val)
        × ((q : List ℕ) → q ≢ k → find_val q (set ps j new) ≡ find_val q ps)
  unfolding find_val
  find_val-set [] j p last e = absurd last
  find_val-set (r ∷ ps) zero p (same, free, all) e = (
    find_val-new ps,
    λ q ne.
        let f : r.free ≡ true = ap (λ (x : HItem). x.free) same ∙ free in
        let m : is_match q r ≡ false = ground (arith, f) in find_val-other q ps ne ∙ rw m,
  )
  find_val-set (r ∷ ps) (suc j) p last e =
      let (here, others) = find_val-set ps j p last (find_val-tail k r ps e) in
      let m = no_match k r ps e in
      (rw m here, λ q ne. ap (λ x. if is_match q r then some r.val else x) (others q ne))

  -- A new first item, where no item is free.
  pub front_lem :
      (ps : List HItem)
      → AllUsed ps
      → find_val k ps ≡ none
      → Apart ps
      → Apart (new ∷ ps)
        × (find_val k (new ∷ ps) ≡ some new.val)
        × ((q : List ℕ) → q ≢ k → find_val q (new ∷ ps) ≡ find_val q ps)
  front_lem ps all e apart = (
    ((λ _. subst (λ n. NoKey n ps) (sym named) (NoKey-AllUsed k ps e all)), apart),
    find_val-new ps,
    λ q ne. find_val-other q ps ne,
  )

pub last_free-AllUsed :
    (ps : List HItem) (i : ℕ) (new : Option ℕ) → AllUsed ps → last_free ps i new ≡ new
unfolding last_free
last_free-AllUsed [] i new used = refl
last_free-AllUsed (p ∷ ps) i new (e, used) = rw e (last_free-AllUsed ps (i + 1) new used)
