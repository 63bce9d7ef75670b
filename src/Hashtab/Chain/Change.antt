-- ===== src/Hashtab/Chain/Change.antt =====
-- A change of the value or of the flag `free` of an item in use.
use lightcache.Base.{
  ℕ, zero, suc, ◌≡◌, ◌≢◌, ◌∙◌, ap, sym, inl, inr, true, false, List, [], ◌∷◌, Option, none, some,
  arith, get_elem?, set, some-injective, Bool-cases, if◌then◌else◌,
}
use mathlib.Core.Path.{subst}
use lightcache.Protocol.Bytes.{list_eq}
use lightcache.Hashtab.{HItem}
use lightcache.Hashtab.Keys.{list_eq_refl, list_eq-ne}
use lightcache.Hashtab.Chain.{some_key, key_of, IsKeyed, AllKeyed, NoKey, Apart, is_match, find_val}
use lightcache.Hashtab.Chain.Write.{find_val-NoKey, NoKey-set}

NoKey-get :
    (k : List ℕ) (ps : List HItem) (j : ℕ) (p : HItem)
    → get_elem? ps j ≡ some p
    → NoKey k ps
    → key_of p ≢ k
NoKey-get k [] j p e gone = absurd (ground (arith, e))
NoKey-get k (q ∷ ps) zero p e (ne, _) = λ s. ne (ap key_of (some-injective e) ∙ s)
NoKey-get k (q ∷ ps) (suc j) p e (_, gone) = NoKey-get k ps j p e gone

-- The value that is found for the key after the change.
abbrev pub shown : HItem → Option (Option ℕ)
shown p = if p.free then none else some p.val

module _ (p p' : HItem) (same : p'.key ≡ p.key) (used : p.free ≡ false) where
  same_name : key_of p' ≡ key_of p
  same_name = ap some_key same

  earlier :
      (q : HItem) (ps : List HItem) (j : ℕ)
      → get_elem? ps j ≡ some p
      → (q.free ≡ false → NoKey (key_of q) ps)
      → is_match (key_of p) q ≡ false
  earlier q ps j e alone = elim (Bool-cases q.free) [
    | inl f ↦ ground (arith, f)
    | inr f ↦
        let m =
          list_eq-ne (key_of q) (key_of p) (λ s. NoKey-get (key_of q) ps j p e (alone f) (sym s)) in
        rw m
  ]

  pub Apart-change :
      (ps : List HItem) (j : ℕ) → get_elem? ps j ≡ some p → Apart ps → Apart (set ps j p')
  Apart-change [] j e apart = tt
  Apart-change (q ∷ ps) zero e (alone, apart) =
      let here = some-injective e in
      (
        (λ _.
            subst (λ n. NoKey n ps) (ap key_of here ∙ sym same_name)
              (alone (ap (λ (x : HItem). x.free) here ∙ used))),
        apart,
      )
  Apart-change (q ∷ ps) (suc j) e (alone, apart) = (
    (λ f.
        NoKey-set (key_of q) ps j p'
          (λ s. NoKey-get (key_of q) ps j p e (alone f) (sym same_name ∙ s)) (alone f)),
    Apart-change ps j e apart,
  )

  pub find_val-change :
      (ps : List HItem) (j : ℕ)
      → get_elem? ps j ≡ some p
      → Apart ps
      → (find_val (key_of p) (set ps j p') ≡ shown p')
        × ((k : List ℕ) → k ≢ key_of p → find_val k (set ps j p') ≡ find_val k ps)
  unfolding find_val
  find_val-change [] j e apart = absurd (ground (arith, e))
  find_val-change (q ∷ ps) zero e (alone, apart) =
      let here = some-injective e in
      let gone : NoKey (key_of p) ps =
        subst (λ n. NoKey n ps) (ap key_of here) (alone (ap (λ (x : HItem). x.free) here ∙ used)) in
      let named : list_eq (key_of p') (key_of p) ≡ true =
        subst (λ n. list_eq n (key_of p) ≡ true) (sym same_name) (list_eq_refl (key_of p)) in
      (
        elim (Bool-cases p'.free) [
          | inl f ↦ rw (named, f) (find_val-NoKey (key_of p) ps gone)
          | inr f ↦ rw (named, f)
        ],
        λ k ne.
            let a : list_eq (key_of p') k ≡ false =
              list_eq-ne (key_of p') k (λ s. ne (sym s ∙ same_name)) in
            let b : list_eq (key_of q) k ≡ false =
              list_eq-ne (key_of q) k (λ s. ne (sym s ∙ ap key_of here)) in
            rw (a, b),
      )
  find_val-change (q ∷ ps) (suc j) e (alone, apart) =
      let (here, others) = find_val-change ps j e apart in
      let m = earlier q ps j e alone in
      (rw m here, λ k ne. ap (λ x. if is_match k q then some q.val else x) (others k ne))

pub AllKeyed-get :
    (mask h : ℕ) (ps : List HItem) (j : ℕ) (p : HItem)
    → get_elem? ps j ≡ some p
    → AllKeyed mask h ps
    → IsKeyed mask h p
AllKeyed-get mask h [] j p e all = absurd (ground (arith, e))
AllKeyed-get mask h (q ∷ ps) zero p e (is, _) = subst (IsKeyed mask h) (some-injective e) is
AllKeyed-get mask h (q ∷ ps) (suc j) p e (_, all) = AllKeyed-get mask h ps j p e all
