-- ===== src/Slab/Links/Remove.antt =====
-- `rem` and taking one item out of a sequence.
use lightcache.Base.{
  ℕ, zero, suc, ◌<◌, ◌≡◌, ◌∙◌, ap, refl, sym, inl, inr, Bool, true, false, List, [], ◌∷◌, arith,
  length, ◌==◌, ==_iff, Bool-cases,
}
use lightcache.Base.Run.{Run, ok, ◌>>=◌, Returns}
use lightcache.Slab.Links.{Ctls, Links, rem_found, rem_loop, rem}
use lightcache.Slab.Links.Chain.{Absent, first, IsChain, Represents}
use lightcache.Slab.Links.Bypass.{Member}
use lightcache.Slab.Links.Unlink.{Removed, found_Removed}

abbrev finish : Run (Ctls × Links) → Run (Ctls × Links × Bool)
finish r = r >>= λ (h, li). ok (h, li, true)

-- The loop walks to the item, and the list is changed there.
walk-Member :
    (fuel : ℕ) (h : Ctls) (li : Links) (item : ℕ) (ys : List ℕ)
    → IsChain h ys
    → Member item ys
    → length ys < fuel
    → rem_loop fuel h li item (first ys) ≡ finish (rem_found h li item)
unfolding rem_loop
walk-Member fuel h li item [] ch m short = absurd m
walk-Member zero h li item (y ∷ ys) ch m short = elim short [ ]
walk-Member (suc fuel) h li item (y ∷ ys) ch (inl e) short = rw ((==_iff y item).1 (sym e), e)
walk-Member (suc fuel) h li item (y ∷ ys) ch (inr m) short = elim (Bool-cases (y == item)) [
  | inl here ↦ rw (here, (==_iff y item).0 here)
  | inr skip ↦ rw (skip, ch.0) (walk-Member fuel h li item ys ch.2 m (omega arith))
]

walk-Absent :
    (fuel : ℕ) (h : Ctls) (li : Links) (item : ℕ) (ys : List ℕ)
    → IsChain h ys
    → Absent item ys
    → length ys < fuel
    → rem_loop fuel h li item (first ys) ≡ ok (h, li, false)
unfolding rem_loop
walk-Absent zero h li item ys ch out short = elim short [ ]
walk-Absent (suc fuel) h li item [] ch out short = refl
walk-Absent (suc fuel) h li item (y ∷ ys) ch out short =
    let skip : y == item ≡ false = ground (arith, out.0) in
    rw (skip, ch.0) (walk-Absent fuel h li item ys ch.2 out.1 (omega arith))

-- `rem` takes a member out of the list and reports that it did; it changes links of members alone.
pub rem-Removed :
    (fuel : ℕ) (h : Ctls) (li : Links) (item : ℕ) (xs : List ℕ)
    → Represents h li xs
    → Member item xs
    → length xs < fuel
    → Returns (rem fuel h li item) λ r. (r.2 ≡ true) × Removed h xs item (r.0, r.1)
unfolding rem
rem-Removed fuel h li item xs rep m short =
    let (r, run, done) = found_Removed h li item xs rep m in
    (
      (r.0, r.1, true),
      ap (rem_loop fuel h li item) rep.head
          ∙ walk-Member fuel h li item xs rep.chain m short
          ∙ ap finish run,
      (refl, done),
    )

-- An item that is not in the list is not found, and nothing changes.
pub rem-Absent :
    (fuel : ℕ) (h : Ctls) (li : Links) (item : ℕ) (xs : List ℕ)
    → Represents h li xs
    → Absent item xs
    → length xs < fuel
    → rem fuel h li item ≡ ok (h, li, false)
unfolding rem
rem-Absent fuel h li item xs rep out short =
    ap (rem_loop fuel h li item) rep.head ∙ walk-Absent fuel h li item xs rep.chain out short
