-- ===== src/Slab/Links/Bypass.antt =====
-- The two writes of `rem` that make the neighbours of an item skip it.
use lightcache.Base.{
  ℕ, ◌≡◌, ◌≢◌, ◌∙◌, ap, refl, sym, ◌⊎◌, inl, inr, false, List, [], ◌∷◌, none, some, arith, ◌==◌,
  if◌then◌else◌,
}
use mathlib.Core.Path.{subst}
use lightcache.Slab.Links.{Ptr, Ctls, set_next, set_prev}
use lightcache.Slab.Links.Chain.{
  Absent, Distinct, last, IsChain, IsChain-update, IsChain-update_first,
}

unfoldable pub erase : ℕ → List ℕ → List ℕ
erase x [] = []
erase x (y ∷ ys) = let rest = erase x ys in if y == x then ys else y ∷ rest

abbrev pub Member : ℕ → List ℕ → Type 0
Member x [] = ⊥
Member x (y ∷ ys) = (x ≡ y) ⊎ Member x ys

-- The two writes around a removed item with the neighbours `p` and `n`.
abbrev pub bypass : Ctls → ℕ → Ptr → Ctls
bypass h p none = set_next h p none
bypass h p (some n) = set_prev (set_next h p (some n)) n (some p)

pub record Bypassed (h : Ctls) (x item : ℕ) (ys : List ℕ) : Type 0 where
  pub before : ℕ
  pub prev : (h item).prev ≡ some before
  pub inside : Member before (x ∷ ys)
  pub chain : IsChain (bypass h before (h item).next) (x ∷ erase item ys)
  pub next_member : (y : ℕ) → (h item).next ≡ some y → Member y ys
  pub not_last : (h item).next ≢ none → last (x ∷ erase item ys) ≡ last (x ∷ ys)
  pub is_last :
      (h item).next ≡ none → (last (x ∷ ys) ≡ some item) × (last (x ∷ erase item ys) ≡ some before)

pub Absent-ne : (x p : ℕ) (xs : List ℕ) → Absent x xs → Member p xs → x ≢ p
Absent-ne x p [] out m = absurd m
Absent-ne x p (y ∷ ys) out (inl e) = λ q. out.0 (q ∙ e)
Absent-ne x p (y ∷ ys) out (inr m) = Absent-ne x p ys out.1 m

pub erase_self : (y : ℕ) (ys : List ℕ) → erase y (y ∷ ys) ≡ ys
unfolding erase
erase_self y ys = ground arith

pub erase_later : (i y : ℕ) (ys : List ℕ) → y == i ≡ false → erase i (y ∷ ys) ≡ y ∷ erase i ys
unfolding erase
erase_later i y ys e = rw e

bypass_here :
    (h : Ctls) (x y : ℕ) (ys : List ℕ)
    → IsChain h (x ∷ y ∷ ys)
    → Distinct (x ∷ y ∷ ys)
    → Bypassed h x y (y ∷ ys)
bypass_here h x y [] (n, b, (m, e, u)) d = record {
  before = x;
  prev = b;
  inside = inl refl;
  chain = rw (erase_self y [], m) (ground arith);
  next_member = λ z s. cc;
  not_last = λ s. absurd (s m);
  is_last = λ s. (refl, ap (λ l. last (x ∷ l)) (erase_self y []));
}
bypass_here h x y (z ∷ zs) (n, b, (m, c, ch)) d =
    let h' = set_next h x (some z) in
    let out : Absent x (z ∷ zs) = d.0.1 in
    let behind : IsChain h' (z ∷ zs) = IsChain-update h x _ (z ∷ zs) out ch in
    let chain : IsChain (set_prev h' z (some x)) (z ∷ zs) =
      IsChain-update_first h' z _ zs d.1.1.0 refl behind in
    let whole : IsChain (bypass h x (some z)) (x ∷ z ∷ zs) = (ground arith, ground arith, chain) in
    let shorter : IsChain (bypass h x (some z)) (x ∷ erase y (y ∷ z ∷ zs)) =
      subst (λ l. IsChain (bypass h x (some z)) (x ∷ l)) (sym (erase_self y (z ∷ zs))) whole in
    record {
      before = x;
      prev = b;
      inside = inl refl;
      chain = subst (λ n. IsChain (bypass h x n) (x ∷ erase y (y ∷ z ∷ zs))) (sym m) shorter;
      next_member = λ q s. inr (inl (ground (arith, m)));
      not_last = λ s. ap (λ l. last (x ∷ l)) (erase_self y (z ∷ zs));
      is_last = λ s. absurd (cc (s, m));
    }

pub bypass_outside :
    (h : Ctls) (p x : ℕ) (n : Ptr)
    → ((y : ℕ) → n ≡ some y → x ≢ y)
    → ((bypass h p n x).prev ≡ (h x).prev) × (x ≢ p → bypass h p n x ≡ h x)
bypass_outside h p x none apart = (ground arith, λ s. ground arith)
bypass_outside h p x (some n) apart =
    let ne : x ≢ n = apart n refl in (ground arith, λ s. ground arith)

bypass_later :
    (h : Ctls) (item x y : ℕ) (ys : List ℕ)
    → IsChain h (x ∷ y ∷ ys)
    → Distinct (x ∷ y ∷ ys)
    → y == item ≡ false
    → Bypassed h y item ys
    → Bypassed h x item (y ∷ ys)
bypass_later h item x y ys (n, b, ch) d other r =
    let e = erase_later item y ys other in
    let x_out =
      bypass_outside h r.before x (h item).next
        (λ q s. Absent-ne x q (y ∷ ys) d.0 (inr (r.next_member q s))) in
    let y_out =
      bypass_outside h r.before y (h item).next
        (λ q s. Absent-ne y q ys d.1.0 (r.next_member q s)) in
    let x_same = x_out.1 (Absent-ne x r.before (y ∷ ys) d.0 r.inside) in
    record {
      before = r.before;
      prev = r.prev;
      inside = inr r.inside;
      chain = rw e (ap (λ c. c.next) x_same ∙ n, y_out.0 ∙ b, r.chain);
      next_member = λ q s. inr (r.next_member q s);
      not_last = λ s. ap (λ l. last (x ∷ l)) e ∙ r.not_last s;
      is_last = λ s. ((r.is_last s).0, ap (λ l. last (x ∷ l)) e ∙ (r.is_last s).1);
    }

-- Skipping an item that is not the first takes it out of the chain.
pub bypass-Bypassed :
    (h : Ctls) (item x : ℕ) (ys : List ℕ)
    → IsChain h (x ∷ ys)
    → Distinct (x ∷ ys)
    → Member item ys
    → Bypassed h x item ys
bypass-Bypassed h item x [] ch d m = absurd m
bypass-Bypassed h item x (y ∷ ys) ch d (inl e) =
    subst (λ i. Bypassed h x i (y ∷ ys)) (sym e) (bypass_here h x y ys ch d)
bypass-Bypassed h item x (y ∷ ys) ch d (inr m) =
    let other : y == item ≡ false = ground (arith, Absent-ne y item ys d.1.0 m) in
    bypass_later h item x y ys ch d other (bypass-Bypassed h item y ys ch.2 d.1 m)
