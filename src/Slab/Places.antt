-- ===== src/Slab/Places.antt =====
-- The lists that slab controls can be in, and which control is in which.
pub mod Bound
use lightcache.Base.{
  ℕ, suc, ◌+◌, ◌<◌, ◌≤◌, ◌≡◌, ◌≢◌, ◌⊎◌, ◌∙◌, ap, refl, sym, inl, inr, Bool, true, false, List, [],
  ◌∷◌, arith, length, ◌==◌, ==_iff, Bool-cases, if◌then◌else◌,
}
use mathlib.Core.Path.{subst}
use lightcache.Slab.Links.{SlabCtl, Ctls, Links}
use lightcache.Slab.Links.Chain.{Absent, Distinct, IsChain, Represents}
use lightcache.Slab.Links.Bypass.{erase, Member, Absent-ne}
use lightcache.Slab.Links.Move.{Apart, Moved, Absent-erase_self, Represents-Relinks}

-- The list of free slabs, and the two lists of each cache.
pub data Place : Type 0 where
  free : Place
  partial full : ℕ → Place

abbrev pub same_place : Place → Place → Bool
same_place free free = true
same_place (partial c) (partial d) = c == d
same_place (full c) (full d) = c == d
same_place _ _ = false

pub same_place_refl : (p : Place) → same_place p p ≡ true
same_place_refl free = refl
same_place_refl (partial c) = ground arith
same_place_refl (full c) = ground arith

pub same_place_sound : (p q : Place) → same_place p q ≡ true → p ≡ q
same_place_sound free free e = refl
same_place_sound free (partial d) e = absurd (ground (arith, e))
same_place_sound free (full d) e = absurd (ground (arith, e))
same_place_sound (partial c) free e = absurd (ground (arith, e))
same_place_sound (partial c) (partial d) e = ap partial ((==_iff c d).0 e)
same_place_sound (partial c) (full d) e = absurd (ground (arith, e))
same_place_sound (full c) free e = absurd (ground (arith, e))
same_place_sound (full c) (partial d) e = absurd (ground (arith, e))
same_place_sound (full c) (full d) e = ap full ((==_iff c d).0 e)

pub same_place_ne : (p q : Place) → p ≢ q → same_place p q ≡ false
same_place_ne p q ne = elim (Bool-cases (same_place p q)) [
  | inl e ↦ absurd (ne (same_place_sound p q e))
  | inr e ↦ e
]

abbrev pub put {ℓ} : {A : Type ℓ} → (Place → A) → Place → A → Place → A
put f p v q = if same_place q p then v else f q

pub Member-cases : (x : ℕ) (xs : List ℕ) → Member x xs ⊎ Absent x xs
Member-cases x [] = inr tt
Member-cases x (y ∷ ys) = elim (Bool-cases (x == y)) [
  | inl e ↦ inl (inl ((==_iff x y).0 e))
  | inr e ↦ elim (Member-cases x ys) [
    | inl m ↦ inl (inr m)
    | inr out ↦ inr ((λ s. absurd (ground (arith, e, s))), out)
  ]
]

pub Member-erase : (x i : ℕ) (xs : List ℕ) → Member x (erase i xs) → Member x xs
unfolding erase
Member-erase x i [] m = absurd m
Member-erase x i (y ∷ ys) m = elim (Bool-cases (y == i)) [
  | inl e ↦ inr (subst (Member x) (ap (λ b. if b then ys else y ∷ erase i ys) e) m)
  | inr e ↦ elim (subst (Member x) (ap (λ b. if b then ys else y ∷ erase i ys) e) m) [
    | inl s ↦ inl s
    | inr m' ↦ inr (Member-erase x i ys m')
  ]
]

pub Member-erase_other : (x i : ℕ) (xs : List ℕ) → x ≢ i → Member x xs → Member x (erase i xs)
unfolding erase
Member-erase_other x i [] ne m = absurd m
Member-erase_other x i (y ∷ ys) ne m = elim (Bool-cases (y == i)) [
  | inl e ↦ elim m [ inl s ↦ absurd (ne (s ∙ (==_iff y i).0 e)) | inr m' ↦ rw e m' ]
  | inr e ↦ elim m [ inl s ↦ rw e (inl s) | inr m' ↦ rw e (inr (Member-erase_other x i ys ne m')) ]
]

-- What keeps the links of all members keeps a list.
pub IsChain-links :
    (h h' : Ctls) (xs : List ℕ)
    → ((y : ℕ) → Member y xs → ((h' y).next ≡ (h y).next) × ((h' y).prev ≡ (h y).prev))
    → IsChain h xs
    → IsChain h' xs
IsChain-links h h' [] same ch = tt
IsChain-links h h' (y ∷ []) same (n, b, ch) = ((same y (inl refl)).0 ∙ n, tt, tt)
IsChain-links h h' (y ∷ z ∷ zs) same (n, b, ch) = (
  (same y (inl refl)).0 ∙ n,
  (same z (inr (inl refl))).1 ∙ b,
  IsChain-links h h' (z ∷ zs) (λ x m. same x (inr m)) ch,
)

pub Represents-links :
    (h h' : Ctls) (li : Links) (xs : List ℕ)
    → ((y : ℕ) → Member y xs → ((h' y).next ≡ (h y).next) × ((h' y).prev ≡ (h y).prev))
    → Represents h li xs
    → Represents h' li xs
Represents-links h h' li xs same r = record {
  head = r.head;
  tail = r.tail;
  chain = IsChain-links h h' xs same r.chain;
  distinct = r.distinct;
}

-- The sequences of all lists share no control, and hold exactly the controls below `count`, each where
-- `home` says.
pub record Lists (count : ℕ) (h : Ctls) (links : Place → Links) (seq : Place → List ℕ)
    (home : ℕ → Place) : Type 0 where
  pub rep : (p : Place) → Represents h (links p) (seq p)
  pub at : (i : ℕ) (p : Place) → Member i (seq p) → (i < count) × (home i ≡ p)
  pub owned : (i : ℕ) → i < count → Member i (seq (home i))

-- The sequences and homes after control `i` has moved from `p` to the front of `q`.
abbrev pub moved_seq : (Place → List ℕ) → Place → Place → ℕ → Place → List ℕ
moved_seq seq p q i = put (put seq p (erase i (seq p))) q (i ∷ seq q)

abbrev pub moved_home : (ℕ → Place) → Place → ℕ → ℕ → Place
moved_home home q i j = if j == i then q else home j

module _ (count : ℕ) (h : Ctls) (links : Place → Links) (seq : Place → List ℕ) (home : ℕ → Place)
    (lists : Lists count h links seq home) where
  pub Lists-Apart : (p q : Place) → p ≢ q → Apart (seq p) (seq q)
  Lists-Apart p q ne x = elim (Member-cases x (seq p)) [
    | inr out ↦ inl out
    | inl m ↦ elim (Member-cases x (seq q)) [
      | inr out ↦ inr out
      | inl m' ↦ absurd (ne (sym (lists.at x p m).1 ∙ (lists.at x q m').1))
    ]
  ]

  module _ (h' : Ctls) (links' : Place → Links) (p q : Place) (i : ℕ) (ne : p ≢ q)
      (here : Member i (seq p))
      (moved : Moved h (seq p) (seq q) (erase i (seq p)) (i ∷ seq q) h' (links' p) (links' q))
      (others : (r : Place) → r ≢ p → r ≢ q → links' r ≡ links r) where
    abbrev seq' : Place → List ℕ
    seq' = moved_seq seq p q i

    outside : (r : Place) → r ≢ p → r ≢ q → (y : ℕ) → Member y (seq r) → h' y ≡ h y
    outside r np nq y m = moved.others y (away p np) (away q nq)
      where
        away : (s : Place) → r ≢ s → Absent y (seq s)
        away s n = elim (Lists-Apart r s n y) [
          | inl out ↦ absurd (Absent-ne y y (seq r) out m refl)
          | inr out ↦ out
        ]

    seq'-target : seq' q ≡ i ∷ seq q
    seq'-target = let e = same_place_refl q in rw e

    seq'-source : seq' p ≡ erase i (seq p)
    seq'-source = let e = same_place_ne p q ne in let e' = same_place_refl p in rw (e, e')

    seq'-other : (r : Place) → r ≢ p → r ≢ q → seq' r ≡ seq r
    seq'-other r np nq = let e = same_place_ne r p np in let e' = same_place_ne r q nq in rw (e', e)

    -- A list is the source, the target or another.
    data Which (r : Place) : Type 0 where
      source : r ≡ p → Which r
      target : r ≡ q → Which r
      other : r ≢ p → r ≢ q → Which r

    which : (r : Place) → Which r
    which r = elim (Bool-cases (same_place r p)) [
      | inl e ↦ source (same_place_sound r p e)
      | inr e ↦ elim (Bool-cases (same_place r q)) [
        | inl f ↦ target (same_place_sound r q f)
        | inr f ↦
            other
              (λ s. absurd (ground (arith, sym e ∙ ap (λ x. same_place x p) s ∙ same_place_refl p)))
              (λ s. absurd (ground (arith, sym f ∙ ap (λ x. same_place x q) s ∙ same_place_refl q)))
      ]
    ]

    rep' : (r : Place) → Represents h' (links' r) (seq' r)
    rep' r = elim (which r) [
      | source s ↦
          subst (λ x. Represents h' (links' x) (seq' x)) (sym s)
            (subst (Represents h' (links' p)) (sym seq'-source) moved.source)
      | target s ↦
          subst (λ x. Represents h' (links' x) (seq' x)) (sym s)
            (subst (Represents h' (links' q)) (sym seq'-target) moved.target)
      | other np nq ↦ subst (Represents h' (links' r)) (sym (seq'-other r np nq)) (
          subst (λ l. Represents h' l (seq r)) (sym (others r np nq))
            (Represents-links h h' (links r) (seq r)
              (λ y m.
                let s = outside r np nq y m in
                (ap (λ (c : SlabCtl). c.next) s, ap (λ (c : SlabCtl). c.prev) s))
              (lists.rep r)))
    ]

    home' : ℕ → Place
    home' = moved_home home q i

    home'-other : (j : ℕ) → j ≢ i → moved_home home q i j ≡ home j
    home'-other j n = let e : j == i ≡ false = ground (arith, n) in rw e

    home'-self : moved_home home q i i ≡ q
    home'-self = let e : i == i ≡ true = ground arith in rw e

    Member-ne : (j : ℕ) (xs : List ℕ) → Absent i xs → Member j xs → j ≢ i
    Member-ne j xs out m s = Absent-ne i j xs out m (sym s)

    at' : (j : ℕ) (r : Place) → Member j (seq' r) → (j < count) × (moved_home home q i j ≡ r)
    at' j r m = elim (which r) [
      | source s ↦
          let m' : Member j (erase i (seq p)) = subst (Member j) (ap seq' s ∙ seq'-source) m in
          let n =
            Member-ne j (erase i (seq p)) (Absent-erase_self i (seq p) (lists.rep p).distinct) m' in
          let (inside, is) = lists.at j p (Member-erase j i (seq p) m') in
          (inside, home'-other j n ∙ is ∙ sym s)
      | target s ↦ elim (subst (Member j) (ap seq' s ∙ seq'-target) m) [
        | inl same ↦ (
          subst (λ x. x < count) (sym same) (lists.at i p here).0,
          subst (λ x. moved_home home q i x ≡ r) (sym same) (home'-self ∙ sym s),
        )
        | inr m' ↦
            let (inside, is) = lists.at j q m' in
            let n : j ≢ i = λ x. ne (sym (lists.at i p here).1 ∙ ap home (sym x) ∙ is) in
            (inside, home'-other j n ∙ is ∙ sym s)
      ]
      | other np nq ↦
          let (inside, is) = lists.at j r (subst (Member j) (seq'-other r np nq) m) in
          let n : j ≢ i = λ x. np (sym is ∙ ap home x ∙ (lists.at i p here).1) in
          (inside, home'-other j n ∙ is)
    ]

    owned' : (j : ℕ) → j < count → Member j (seq' (moved_home home q i j))
    owned' j inside = elim (Bool-cases (j == i)) [
      | inl e ↦
          let s : j ≡ i = (==_iff j i).0 e in
          subst (λ x. Member x (seq' (moved_home home q i x))) (sym s)
            (subst (λ r. Member i (seq' r)) (sym home'-self)
              (subst (Member i) (sym seq'-target) (inl refl)))
      | inr e ↦
          let n : j ≢ i = λ s. absurd (ground (arith, e, s)) in
          subst (λ r. Member j (seq' r)) (sym (home'-other j n)) (kept j n (lists.owned j inside))
    ]
      where
        kept : (j : ℕ) → j ≢ i → Member j (seq (home j)) → Member j (seq' (home j))
        kept j n m = elim (which (home j)) [
          | source s ↦
              subst (λ r. Member j (seq' r)) (sym s)
                (subst (Member j) (sym seq'-source)
                  (Member-erase_other j i (seq p) n (subst (λ r. Member j (seq r)) s m)))
          | target s ↦
              subst (λ r. Member j (seq' r)) (sym s)
                (subst (Member j) (sym seq'-target) (inr (subst (λ r. Member j (seq r)) s m)))
          | other np nq ↦ subst (Member j) (sym (seq'-other (home j) np nq)) m
        ]

    pub Lists-moved : Lists count h' links' seq' (moved_home home q i)
    Lists-moved = record { rep = rep'; at = at'; owned = owned' }

-- A write that keeps all links keeps the lists.
pub Lists-links :
    (count : ℕ) (h h' : Ctls) (links : Place → Links) (seq : Place → List ℕ) (home : ℕ → Place)
    → ((y : ℕ) → ((h' y).next ≡ (h y).next) × ((h' y).prev ≡ (h y).prev))
    → Lists count h links seq home
    → Lists count h' links seq home
Lists-links count h h' links seq home same lists = record {
  rep = λ p. Represents-links h h' (links p) (seq p) (λ y m. same y) (lists.rep p);
  at = lists.at;
  owned = lists.owned;
}
