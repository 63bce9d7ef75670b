-- ===== src/Slab/Links/Chain.antt =====
-- When the links of a list spell out a sequence of controls, and what keeps that so.
use lightcache.Base.{ℕ, ◌≡◌, ◌≢◌, ◌⊎◌, ◌∙◌, ap, inl, inr, refl, List, [], ◌∷◌, none, some, arith}
use lightcache.Slab.Links.{Ptr, SlabCtl, Ctls, Links, update}

abbrev pub Absent : ℕ → List ℕ → Type 0
Absent x [] = Unit
Absent x (y ∷ ys) = (x ≢ y) × Absent x ys

abbrev pub Distinct : List ℕ → Type 0
Distinct [] = Unit
Distinct (x ∷ xs) = Absent x xs × Distinct xs

abbrev pub first : List ℕ → Ptr
first [] = none
first (x ∷ xs) = some x

abbrev pub last : List ℕ → Ptr
last [] = none
last (x ∷ []) = some x
last (x ∷ y ∷ ys) = last (y ∷ ys)

abbrev pub Back : Ctls → ℕ → List ℕ → Type 0
Back h x [] = Unit
Back h x (y ∷ ys) = (h y).prev ≡ some x

-- `next` leads from each control to the following one, and `prev` back from each but the first.
-- (`pop` leaves the `prev` of the new first control as it was.)
abbrev pub IsChain : Ctls → List ℕ → Type 0
IsChain h [] = Unit
IsChain h (x ∷ xs) = ((h x).next ≡ first xs) × Back h x xs × IsChain h xs

-- The list `li` in `h` is the sequence `xs`.
pub record Represents (h : Ctls) (li : Links) (xs : List ℕ) : Type 0 where
  pub head : li.head ≡ first xs
  pub tail : li.tail ≡ last xs
  pub chain : IsChain h xs
  pub distinct : Distinct xs

-- A change of links alone, at controls of `xs` alone.
pub record Relinks (h : Ctls) (xs : List ℕ) (h' : Ctls) : Type 0 where
  pub outside : (y : ℕ) → Absent y xs → h' y ≡ h y
  pub nused : (y : ℕ) → (h' y).nused ≡ (h y).nused
  pub nindex : (y : ℕ) → (h' y).nindex ≡ (h y).nindex
  pub slots : (y : ℕ) → (h' y).slots ≡ (h y).slots
  pub cache : (y : ℕ) → (h' y).cache ≡ (h y).cache

-- A write to a control that is no member keeps a chain.
pub IsChain-update :
    (h : Ctls) (x : ℕ) (c : SlabCtl) (xs : List ℕ)
    → Absent x xs
    → IsChain h xs
    → IsChain (update h x c) xs
IsChain-update h x c [] out ch = tt
IsChain-update h x c (y ∷ []) out ch = ground arith
IsChain-update h x c (y ∷ z ∷ zs) out (n, b, ch) =
    (ground arith, ground arith, IsChain-update h x c (z ∷ zs) out.1 ch)

-- A write that keeps the `next` of the first member keeps a chain.
pub IsChain-update_first :
    (h : Ctls) (x : ℕ) (c : SlabCtl) (xs : List ℕ)
    → Absent x xs
    → c.next ≡ (h x).next
    → IsChain h (x ∷ xs)
    → IsChain (update h x c) (x ∷ xs)
IsChain-update_first h x c [] out same ch = ground arith
IsChain-update_first h x c (y ∷ ys) out same (n, b, ch) =
    (ground arith, ground arith, IsChain-update h x c (y ∷ ys) out ch)

pub Relinks-refl : (h : Ctls) (xs : List ℕ) → Relinks h xs h
Relinks-refl h xs = record {
  outside = λ y out. refl;
  nused = λ y. refl;
  nindex = λ y. refl;
  slots = λ y. refl;
  cache = λ y. refl;
}

-- Lists that share no control with the changed one keep their chains.
pub IsChain-Relinks :
    (h h' : Ctls) (xs ys : List ℕ)
    → Relinks h xs h'
    → ((y : ℕ) → Absent y xs ⊎ Absent y ys)
    → IsChain h ys
    → IsChain h' ys
IsChain-Relinks h h' xs [] r apart ch = tt
IsChain-Relinks h h' xs (y ∷ []) r apart ch = elim (apart y) [
  | inl out ↦ rw (r.outside y out) ch
  | inr same ↦ absurd (same.0 refl)
]
IsChain-Relinks h h' xs (y ∷ z ∷ zs) r apart (n, b, ch) =
    let here : h' y ≡ h y = outside y (λ s. s.0 refl) in
    let next : h' z ≡ h z = outside z (λ s. s.1.0 refl) in
    (
      ap (λ c. c.next) here ∙ n,
      ap (λ c. c.prev) next ∙ b,
      IsChain-Relinks h h' xs (z ∷ zs) r (λ q. elim (apart q) [ inl o ↦ inl o | inr o ↦ inr o.1 ])
          ch,
    )
  where
    outside : (q : ℕ) → ¬ Absent q (y ∷ z ∷ zs) → h' q ≡ h q
    outside q member = elim (apart q) [ inl out ↦ r.outside q out | inr out ↦ absurd (member out) ]
