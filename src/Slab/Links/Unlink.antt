-- ===== src/Slab/Links/Unlink.antt =====
-- The change of the links around an item that is in the list: at its head, at its tail and inside.
use lightcache.Base.{
  ℕ, ◌≡◌, ◌≢◌, ◌∙◌, ap, refl, sym, inl, inr, true, false, List, [], ◌∷◌, none, some, arith, ◌==◌,
  ==_iff, Bool-cases, Option-cases,
}
use mathlib.Core.Path.{subst}
use lightcache.Base.Run.{Run, ok, ◌>>=◌, Returns}
use lightcache.Slab.Links.{
  Ptr, Ctls, Links, set_next, set_prev, same_ptr, deref, assert_pointer, pop, rem_tail, rem_inner,
  rem_found,
}
use lightcache.Slab.Links.Chain.{Absent, Distinct, first, last, IsChain, Represents, Relinks}
use lightcache.Slab.Links.Bypass.{
  erase, Member, bypass, Bypassed, Absent-ne, erase_self, erase_later, bypass-Bypassed,
}
use lightcache.Slab.Links.Ends.{pop-Represents}

bypass-Relinks :
    (h : Ctls) (p : ℕ) (n : Ptr) (xs : List ℕ)
    → Member p xs
    → ((y : ℕ) → n ≡ some y → Member y xs)
    → Relinks h xs (bypass h p n)
bypass-Relinks h p none xs m k = record {
  outside = λ y out. ground (arith, Absent-ne y p xs out m);
  nused = ground arith;
  nindex = ground arith;
  slots = ground arith;
  cache = ground arith;
}
bypass-Relinks h p (some n) xs m k = record {
  outside = λ y out. ground (arith, Absent-ne y p xs out m, Absent-ne y n xs out (k n refl));
  nused = ground arith;
  nindex = ground arith;
  slots = ground arith;
  cache = ground arith;
}

pub Absent-erase : (y i : ℕ) (xs : List ℕ) → Absent y xs → Absent y (erase i xs)
unfolding erase
Absent-erase y i [] out = tt
Absent-erase y i (x ∷ xs) (ne, out) = elim (Bool-cases (x == i)) [
  | inl e ↦ rw e out
  | inr e ↦ rw e (ne, Absent-erase y i xs out)
]

pub Distinct-erase : (i : ℕ) (xs : List ℕ) → Distinct xs → Distinct (erase i xs)
unfolding erase
Distinct-erase i [] d = tt
Distinct-erase i (x ∷ xs) (out, d) = elim (Bool-cases (x == i)) [
  | inl e ↦ rw e d
  | inr e ↦ rw e (Absent-erase x i xs out, Distinct-erase i xs d)
]

abbrev pub Removed : Ctls → List ℕ → ℕ → Ctls × Links → Type 0
Removed h xs item r = Represents r.0 r.1 (erase item xs) × Relinks h xs r.0

found_first :
    (h : Ctls) (li : Links) (x : ℕ) (xs : List ℕ)
    → Represents h li (x ∷ xs)
    → Returns (rem_found h li x) (Removed h (x ∷ xs) x)
unfolding rem_found
found_first h li x xs rep =
    let test : same_ptr (some x) li.head ≡ true = rw rep.head (ground arith) in
    let p = pop-Represents h li x xs rep in
    (((pop h li).0, (pop h li).1), rw test, (rw (erase_self x xs) p.1, p.2))

set_next-prev : (h : Ctls) (p t : ℕ) (q : Ptr) → (set_next h p q t).prev ≡ (h t).prev
set_next-prev h p t q = ground arith

set_next-next : (h : Ctls) (p t : ℕ) (q : Ptr) → (h t).next ≡ q → (set_next h p q t).next ≡ q
set_next-next h p t q e = ground arith

rem_tail_run :
    (h : Ctls) (li : Links) (t p : ℕ)
    → li.tail ≡ some t
    → (h t).prev ≡ some p
    → rem_tail h li ≡ ok (set_next h p none, record li { tail = some p })
unfolding rem_tail
rem_tail_run h li t p tail prev =
    let kept : (set_next h p none t).prev ≡ some p = set_next-prev h p t none ∙ prev in
    let after : ℕ → Run (Ctls × Links) =
      λ b. ok (set_next h b none, record { head = li.head; tail = (set_next h b none t).prev }) in
    let start : rem_tail h li ≡ (assert_pointer (h t).prev >>= after) = rw tail in
    start
    ∙ ap (λ q. assert_pointer q >>= after) prev
    ∙ ap (λ q. ok (set_next h p none, record { head = li.head; tail = q })) kept

rem_inner_run :
    (h : Ctls) (li : Links) (t p n : ℕ)
    → (h t).prev ≡ some p
    → (h t).next ≡ some n
    → rem_inner h li t ≡ ok (set_prev (set_next h p (some n)) n (some p), li)
unfolding rem_inner
rem_inner_run h li t p n prev next =
    let h' = set_next h p (some n) in
    let kept : (h' t).prev ≡ some p = set_next-prev h p t (some n) ∙ prev in
    let still : (h' t).next ≡ some n = set_next-next h p t (some n) next in
    let start : rem_inner h li t
        ≡ (deref (h' t).next >>= λ after. ok (set_prev h' after (h' t).prev, li)) =
      rw (prev, next) in
    let after : (deref (h' t).next >>= λ after. ok (set_prev h' after (h' t).prev, li))
        ≡ ok (set_prev h' n (h' t).prev, li) =
      ap (λ q. deref q >>= λ after. ok (set_prev h' after (h' t).prev, li)) still in
    start ∙ after ∙ ap (λ q. ok (set_prev h' n q, li)) kept

module _ (h : Ctls) (li : Links) (item x : ℕ) (xs : List ℕ) (rep : Represents h li (x ∷ xs))
    (ne : x ≢ item) (b : Bypassed h x item xs) where
  same_list : erase item (x ∷ xs) ≡ x ∷ erase item xs
  same_list = erase_later item x xs (ground arith)

  not_head : same_ptr (some item) li.head ≡ false
  not_head = rw rep.head (ground arith)

  -- The heap that skips the item, with a tail that fits, is the result in both branches.
  skipped :
      (n : Ptr) (tail : Ptr)
      → (h item).next ≡ n
      → tail ≡ last (x ∷ erase item xs)
      → Removed h (x ∷ xs) item (bypass h b.before n, record li { tail = tail })
  skipped n tail e t = (
    record {
      head = rep.head ∙ ap first (sym same_list);
      tail = t ∙ ap last (sym same_list);
      chain =
          subst (IsChain (bypass h b.before n)) (sym same_list)
            (subst (λ q. IsChain (bypass h b.before q) (x ∷ erase item xs)) e b.chain);
      distinct = Distinct-erase item (x ∷ xs) rep.distinct;
    },
    bypass-Relinks h b.before n (x ∷ xs) b.inside (λ y s. inr (b.next_member y (e ∙ s))),
  )

  found_last : (h item).next ≡ none → Returns (rem_found h li item) (Removed h (x ∷ xs) item)
  unfolding rem_found
  found_last end =
      let tail : li.tail ≡ some item = rep.tail ∙ (b.is_last end).0 in
      let at_tail : same_ptr (some item) li.tail ≡ true = rw tail (ground arith) in
      (
        (set_next h b.before none, record li { tail = some b.before }),
        rw (not_head, at_tail) (rem_tail_run h li item b.before tail b.prev),
        skipped none (some b.before) end (sym (b.is_last end).1),
      )

  found_inner :
      (n : ℕ)
      → (h item).next ≡ some n
      → same_ptr (some item) li.tail ≡ false
      → Returns (rem_found h li item) (Removed h (x ∷ xs) item)
  unfolding rem_found
  found_inner n next not_tail = (
    (bypass h b.before (some n), li),
    rw (not_head, not_tail) (rem_inner_run h li item b.before n b.prev next),
    skipped (some n) li.tail next (rep.tail ∙ sym (b.not_last (λ e. cc (e, next)))),
  )

last-next :
    (h : Ctls) (i x : ℕ) (xs : List ℕ)
    → IsChain h (x ∷ xs)
    → last (x ∷ xs) ≡ some i
    → (h i).next ≡ none
last-next h i x [] ch e = let s : x ≡ i = ground arith in subst (λ q. (h q).next ≡ none) s ch.0
last-next h i x (y ∷ ys) ch e = last-next h i y ys ch.2 e

same_ptr-false : (i : ℕ) (p : Ptr) → p ≢ some i → same_ptr (some i) p ≡ false
same_ptr-false i none ne = refl
same_ptr-false i (some j) ne = elim (Bool-cases (i == j)) [
  | inl e ↦ absurd (ne (ap some (sym ((==_iff i j).0 e))))
  | inr e ↦ e
]

pub found_Removed :
    (h : Ctls) (li : Links) (item : ℕ) (xs : List ℕ)
    → Represents h li xs
    → Member item xs
    → Returns (rem_found h li item) (Removed h xs item)
found_Removed h li item [] rep m = absurd m
found_Removed h li item (x ∷ xs) rep (inl e) =
    subst (λ i. Returns (rem_found h li i) (Removed h (x ∷ xs) i)) (sym e)
      (found_first h li x xs rep)
found_Removed h li item (x ∷ xs) rep (inr m) =
    let ne : x ≢ item = Absent-ne x item xs rep.distinct.0 m in
    let b = bypass-Bypassed h item x xs rep.chain rep.distinct m in
    elim (Option-cases (h item).next) [
      | inl end ↦ found_last h li item x xs rep ne b end
      | inr (n, next) ↦ found_inner h li item x xs rep ne b n next (
          same_ptr-false item li.tail
            (λ e. cc (next, last-next h item x xs rep.chain (sym rep.tail ∙ e))))
    ]
