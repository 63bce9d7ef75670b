-- ===== src/Hashtab/Enum.antt =====
-- `henum`: which items it hands to its function.
use lightcache.Base.{
  ℕ, zero, suc, ◌+◌, ◌<◌, ◌≤◌, true, ◌≡◌, ◌≢◌, ◌∙◌, refl, inl, inr, Bool, false, ◌&&◌, ◌||◌, not,
  List, [], ◌∷◌, ◌++◌, Option, none, some, arith, ==_iff, get_elem?, ltb, leb, ◌==◌, Bool-cases,
  if◌then◌else◌,
}
use mathlib.Core.Path.{subst}
use lightcache.Hashtab.{HItem, Htab}
use lightcache.Hashtab.Table.{Ref, chain_of, chain_refs, henum_from, henum}
use lightcache.Base.Run.{ok}
use lightcache.Hashtab.Valid.{IsTable, bucket-IsTable}

abbrev pub bit : Bool → ℕ
bit b = if b then 1 else 0

abbrev same_ref : Ref → Ref → Bool
same_ref (g, j) (h, i) = (g == h) && (j == i)

-- How often a reference stands in a list.
abbrev pub occurrences : Ref → List Ref → ℕ
occurrences it [] = 0
occurrences it (r ∷ rs) = bit (same_ref it r) + occurrences it rs

occurrences-append :
    (it : Ref) (rs ss : List Ref)
    → occurrences it (rs ++ ss) ≡ occurrences it rs + occurrences it ss
occurrences-append it [] ss = omega arith
occurrences-append it (r ∷ rs) ss = omega (arith, occurrences-append it rs ss)

-- There is an item, and it is in use or free items are listed too.
abbrev pub is_listed : Bool → Option HItem → Bool
is_listed enum_free none = false
is_listed enum_free (some p) = enum_free || not p.free

-- All items of a chain and of `n` buckets, without those that are not listed.
listed_chain : Bool → ℕ → List HItem → ℕ → List Ref
listed_chain e h [] i = []
listed_chain e h (p ∷ ps) i =
    let rest = listed_chain e h ps (i + 1) in
    if p.free && (if e then false else true) then rest else (h, i) ∷ rest

listed_from : Bool → Htab → ℕ → ℕ → List Ref
listed_from e t zero h = []
listed_from e t (suc n) h = listed_chain e h (chain_of t h) 0 ++ listed_from e t n (h + 1)

module _ (e : Bool) (h : ℕ) where
  refs_before : (ps : List HItem) (i j : ℕ) → j < i → occurrences (h, j) (listed_chain e h ps i) ≡ 0
  unfolding listed_chain
  refs_before [] i j below = refl
  refs_before (p ∷ ps) i j below = ground (arith, refs_before ps (i + 1) j (omega arith))

  refs_elsewhere :
      (g : ℕ) (ps : List HItem) (i j : ℕ) → g ≢ h → occurrences (g, j) (listed_chain e h ps i) ≡ 0
  unfolding listed_chain
  refs_elsewhere g [] i j ne = refl
  refs_elsewhere g (p ∷ ps) i j ne = ground (arith, refs_elsewhere g ps (i + 1) j ne)

  refs_here :
      (ps : List HItem) (i m j : ℕ)
      → j ≡ i + m
      → occurrences (h, j) (listed_chain e h ps i) ≡ bit (is_listed e (get_elem? ps m))
  unfolding listed_chain
  refs_here [] i m j at = refl
  refs_here (p ∷ ps) i zero j at = ground (arith, refs_before ps (i + 1) j (omega arith))
  refs_here (p ∷ ps) i (suc m) j at = ground (arith, refs_here ps (i + 1) m j (omega arith))

refs_from :
    (e : Bool) (t : Htab) (h i n g : ℕ)
    → occurrences (h, i) (listed_from e t n g)
      ≡ bit (leb g h && ltb h (g + n) && is_listed e (get_elem? (chain_of t h) i))
unfolding listed_from
refs_from e t h i zero g = ground arith
refs_from e t h i (suc n) g =
    let rest = refs_from e t h i n (g + 1) in
    occurrences-append (h, i) (listed_chain e g (chain_of t g) 0) (listed_from e t n (g + 1))
    ∙ elim (Bool-cases (h == g)) [
      | inl same ↦
          let s : h ≡ g = (==_iff h g).0 same in
          let here : occurrences (h, i) (listed_chain e g (chain_of t g) 0)
              ≡ bit (is_listed e (get_elem? (chain_of t h) i)) =
            subst
              (λ x.
                occurrences (h, i) (listed_chain e x (chain_of t x) 0)
                ≡ bit (is_listed e (get_elem? (chain_of t h) i)))
              s (refs_here e h (chain_of t h) 0 i i (omega arith)) in
          ground (arith, here, rest, s)
      | inr other ↦
          let ne : h ≢ g = λ s. absurd (ground (arith, other, s)) in
          ground (arith, refs_elsewhere e g h (chain_of t g) 0 i ne, rest, ne)
    ]

-- The items up to and including the first for which the function returns nonzero.
abbrev pub up_to : (Ref → Bool) → List Ref → List Ref
up_to stops [] = []
up_to stops (r ∷ rs) = let rest = up_to stops rs in r ∷ (if stops r then [] else rest)

abbrev some_stop : (Ref → Bool) → List Ref → Bool
some_stop stops [] = false
some_stop stops (r ∷ rs) = stops r || some_stop stops rs

up_to-append :
    (stops : Ref → Bool) (rs ss : List Ref)
    → up_to stops (rs ++ ss)
      ≡ (if some_stop stops rs then up_to stops rs else up_to stops rs ++ up_to stops ss)
up_to-append stops [] ss = refl
up_to-append stops (r ∷ rs) ss = elim (Bool-cases (stops r)) [
  | inl e ↦ rw e
  | inr e ↦ elim (Bool-cases (some_stop stops rs)) [
    | inl f ↦ rw (e, up_to-append stops rs ss, f)
    | inr f ↦ rw (e, up_to-append stops rs ss, f)
  ]
]

module _ (stops : Ref → Bool) (e : Bool) where
  chain_visits :
      (h : ℕ) (ps : List HItem) (i : ℕ)
      → chain_refs stops e h ps i
        ≡ (up_to stops (listed_chain e h ps i), some_stop stops (listed_chain e h ps i))
  unfolding chain_refs listed_chain
  chain_visits h [] i = refl
  chain_visits h (p ∷ ps) i =
      let rest = chain_visits h ps (i + 1) in
      elim (Bool-cases (p.free && (if e then false else true))) [
        | inl skip ↦ rw (skip, rest)
        | inr kept ↦ elim (Bool-cases (stops (h, i))) [
          | inl stop ↦ rw (kept, stop)
          | inr more ↦ rw (kept, more, rest)
        ]
      ]

  visits_from :
      (t : Htab) (n g : ℕ)
      → IsTable t
      → g + n ≤ t.realsize
      → henum_from stops e t n g ≡ ok (up_to stops (listed_from e t n g))
  unfolding henum_from listed_from
  visits_from t zero g valid inside = refl
  visits_from t (suc n) g valid inside =
      let rest = visits_from t n (g + 1) valid (omega (arith, inside)) in
      let here = bucket-IsTable t g valid (omega (arith, inside)) in
      let chain = chain_visits g (chain_of t g) 0 in
      let joined =
        up_to-append stops (listed_chain e g (chain_of t g) 0) (listed_from e t n (g + 1)) in
      elim (Bool-cases (some_stop stops (listed_chain e g (chain_of t g) 0))) [
        | inl f ↦ rw (here, chain, joined, f)
        | inr f ↦ rw (here, chain, joined, f, rest)
      ]

-- A list holds each item of the table exactly once that is in use, or is free if `e` asks for free items,
-- and no other position.
pub record IsEach (t : Htab) (e : Bool) (all : List Ref) : Type 0 where
  pub once :
      (h i : ℕ)
      → occurrences (h, i) all ≡ bit (ltb h t.realsize && is_listed e (get_elem? (chain_of t h) i))

-- On a well-formed table `henum` runs to its end. It hands on the items of a list that holds each item in
-- use exactly once, the free items too if it is asked to, and no other position: all of them if its
-- function returns 0 each time, else those up to the first for which it does not.
pub henum-IsEach :
    (stops : Ref → Bool) (e : Bool) (t : Htab)
    → IsTable t
    → (all : List Ref) × IsEach t e all × (henum stops e t ≡ ok (up_to stops all))
unfolding henum
henum-IsEach stops e t valid = (
  listed_from e t t.realsize 0,
  record { once = λ h i. refs_from e t h i t.realsize 0 ∙ ground arith },
  visits_from stops e t t.realsize 0 valid (omega arith),
)
