-- ===== src/Slab/Links/Move.antt =====
-- `rem_and_push` and `pop_and_push`, between two lists that share no control.
use lightcache.Base.{
  ℕ, ◌<◌, ◌≡◌, ◌⊎◌, ◌∙◌, refl, sym, inl, inr, true, some, List, [], ◌∷◌, arith, length, ◌==◌,
  ==_iff, Bool-cases,
}
use mathlib.Core.Path.{subst}
use lightcache.Base.Run.{Returns}
use lightcache.Slab.Links.{Ctls, Links, push, pop, rem_and_push, pop_and_push}
use lightcache.Slab.Links.Chain.{Absent, Distinct, Represents, Relinks, IsChain-Relinks}
use lightcache.Slab.Links.Bypass.{erase, erase_self, Member, Absent-ne}
use lightcache.Slab.Links.Unlink.{Absent-erase}
use lightcache.Slab.Links.Ends.{push-Represents, pop-Represents}
use lightcache.Slab.Links.Remove.{rem-Removed}

abbrev pub Apart : List ℕ → List ℕ → Type 0
Apart xs ys = (q : ℕ) → Absent q xs ⊎ Absent q ys

pub Represents-Relinks :
    (h h' : Ctls) (li : Links) (xs ys : List ℕ)
    → Relinks h xs h'
    → Apart xs ys
    → Represents h li ys
    → Represents h' li ys
Represents-Relinks h h' li xs ys r apart rep = record {
  head = rep.head;
  tail = rep.tail;
  chain = IsChain-Relinks h h' xs ys r apart rep.chain;
  distinct = rep.distinct;
}

pub Absent-erase_self : (i : ℕ) (xs : List ℕ) → Distinct xs → Absent i (erase i xs)
unfolding erase
Absent-erase_self i [] d = tt
Absent-erase_self i (x ∷ xs) (out, d) = elim (Bool-cases (x == i)) [
  | inl e ↦ let same : x ≡ i = (==_iff x i).0 e in rw e (subst (λ q. Absent q xs) same out)
  | inr e ↦ rw e (ground arith, Absent-erase_self i xs d)
]

-- The heap after a move: the two lists, what controls hold beside their links, and all others.
pub record Moved (h : Ctls) (xs ys xs' ys' : List ℕ) (h' : Ctls) (src dest : Links) : Type 0 where
  pub source : Represents h' src xs'
  pub target : Represents h' dest ys'
  pub nused : (y : ℕ) → (h' y).nused ≡ (h y).nused
  pub nindex : (y : ℕ) → (h' y).nindex ≡ (h y).nindex
  pub slots : (y : ℕ) → (h' y).slots ≡ (h y).slots
  pub cache : (y : ℕ) → (h' y).cache ≡ (h y).cache
  pub others : (y : ℕ) → Absent y xs → Absent y ys → h' y ≡ h y

-- An item taken out of `xs` is pushed to the other list.
pub push-Moved :
    (h h' : Ctls) (src dest : Links) (item : ℕ) (xs ys rest : List ℕ)
    → Apart xs ys
    → Member item xs
    → Absent item rest
    → ((q : ℕ) → Absent q xs → Absent q rest)
    → Relinks h xs h'
    → Represents h' src rest
    → Represents h dest ys
    → Moved h xs ys rest (item ∷ ys) (push h' dest item).0 src (push h' dest item).1
push-Moved h h' src dest item xs ys rest apart m gone fewer r source target =
    let out : Absent item ys = elim (apart item) [
      | inl o ↦ absurd (Absent-ne item item xs o m refl)
      | inr o ↦ o
    ] in
    let (target', r') =
      push-Represents h' dest ys item (Represents-Relinks h h' dest xs ys r apart target) out in
    let apart' : Apart (item ∷ ys) rest = λ q. elim (Bool-cases (q == item)) [
      | inl e ↦ inr (subst (λ k. Absent k rest) (sym ((==_iff q item).0 e)) gone)
      | inr e ↦ elim (apart q) [ inl o ↦ inr (fewer q o) | inr o ↦ inl (ground arith, o) ]
    ] in
    record {
      source = Represents-Relinks h' (push h' dest item).0 src (item ∷ ys) rest r' apart' source;
      target = target';
      nused = λ y. r'.nused y ∙ r.nused y;
      nindex = λ y. r'.nindex y ∙ r.nindex y;
      slots = λ y. r'.slots y ∙ r.slots y;
      cache = λ y. r'.cache y ∙ r.cache y;
      others = λ y o k. r'.outside y (Absent-ne y item xs o m, k) ∙ r.outside y o;
    }

-- `rem_and_push` takes a member out of the first list, wherever it stands, and puts it in front of
-- the second, if the lists share no control; it reports that it did, it changes nothing but links,
-- and no control outside the two lists.
pub rem_and_push-Moved :
    (fuel : ℕ) (h : Ctls) (src dest : Links) (item : ℕ) (xs ys : List ℕ)
    → Represents h src xs
    → Represents h dest ys
    → Apart xs ys
    → Member item xs
    → length xs < fuel
    → Returns
        (rem_and_push fuel h src dest item)
        λ r. (r.3 ≡ true) × Moved h xs ys (erase item xs) (item ∷ ys) r.0 r.1 r.2
unfolding rem_and_push
rem_and_push-Moved fuel h src dest item xs ys source target apart m short =
    let ((h', src', found), run, (done, (rep, r))) =
      rem-Removed fuel h src item xs source m short in
    (
      ((push h' dest item).0, src', (push h' dest item).1, true),
      rw (run, done),
      (
        refl,
        push-Moved h h' src' dest item xs ys (erase item xs) apart m
            (Absent-erase_self item xs source.distinct) (λ q. Absent-erase q item xs) r rep target,
      ),
    )

-- `pop_and_push` does the same with the first control of a list that has one.
pub pop_and_push-Moved :
    (h : Ctls) (src dest : Links) (x : ℕ) (xs ys : List ℕ)
    → Represents h src (x ∷ xs)
    → Represents h dest ys
    → Apart (x ∷ xs) ys
    → let r = pop_and_push h src dest in (r.3 ≡ true) × Moved h (x ∷ xs) ys xs (x ∷ ys) r.0 r.1 r.2
unfolding pop_and_push
pop_and_push-Moved h src dest x xs ys source target apart =
    let (item, rep, r) = pop-Represents h src x xs source in
    rw (pop_and_push, item)
      (
        refl,
        push-Moved h (pop h src).0 (pop h src).1 dest x (x ∷ xs) ys xs apart (inl refl)
            source.distinct.0 (λ q o. o.1) r rep target,
      )

-- `pop` from one list and `push` to the other.
pub pop-push-Moved :
    (h : Ctls) (src dest : Links) (x : ℕ) (xs ys zs : List ℕ)
    → zs ≡ x ∷ xs
    → Represents h src zs
    → Represents h dest ys
    → Apart zs ys
    → let r = pop h src in
      (r.2 ≡ some x)
      × Moved h zs ys (erase x zs) (x ∷ ys) (push r.0 dest x).0 r.1 (push r.0 dest x).1
pop-push-Moved h src dest x xs ys zs e source target apart =
    let source' = subst (Represents h src) e source in
    let apart' = subst (λ l. Apart l ys) e apart in
    let (item, rep, r) = pop-Represents h src x xs source' in
    let moved =
      push-Moved h (pop h src).0 (pop h src).1 dest x (x ∷ xs) ys xs apart' (inl refl)
        source'.distinct.0 (λ q o. o.1) r rep target in
    let p = (push (pop h src).0 dest x) in
    (
      item,
      subst (λ l. Moved h l ys (erase x l) (x ∷ ys) p.0 (pop h src).1 p.1) (sym e)
          (subst (λ l. Moved h (x ∷ xs) ys l (x ∷ ys) p.0 (pop h src).1 p.1) (sym (erase_self x xs))
            moved),
    )

pub pop_and_push_first :
    (h : Ctls) (src dest : Links) (x : ℕ) (xs ys zs : List ℕ)
    → zs ≡ x ∷ xs
    → Represents h src zs
    → Represents h dest ys
    → Apart zs ys
    → let r = pop_and_push h src dest in Moved h zs ys (erase x zs) (x ∷ ys) r.0 r.1 r.2
pop_and_push_first h src dest x xs ys zs e source target apart =
    let r = pop_and_push h src dest in
    let (_, moved) =
      pop_and_push-Moved h src dest x xs ys (subst (Represents h src) e source) target
        (subst (λ l. Apart l ys) e apart) in
    subst (λ l. Moved h l ys (erase x l) (x ∷ ys) r.0 r.1 r.2) (sym e)
      (subst (λ l. Moved h (x ∷ xs) ys l (x ∷ ys) r.0 r.1 r.2) (sym (erase_self x xs)) moved)
