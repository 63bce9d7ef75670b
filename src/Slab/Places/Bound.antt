-- ===== src/Slab/Places/Bound.antt =====
-- A list of distinct slab controls is no longer than the array.
use lightcache.Base.{
  ℕ, zero, suc, ◌<◌, ◌≤◌, inl, inr, refl, List, [], ◌∷◌, arith, length, ◌==◌, Bool-cases,
}
use lightcache.Slab.Links.Chain.{Distinct}
use lightcache.Slab.Links.Bypass.{erase, Member, Absent-ne}
use lightcache.Slab.Links.Move.{Absent-erase_self}
use lightcache.Slab.Links.Unlink.{Distinct-erase}
use lightcache.Slab.Places.{Member-erase}

length-erase : (i : ℕ) (xs : List ℕ) → length xs ≤ suc (length (erase i xs))
unfolding erase
length-erase i [] = omega arith
length-erase i (x ∷ xs) = elim (Bool-cases (x == i)) [
  | inl e ↦ rw e (omega arith)
  | inr e ↦ rw e (omega (arith, length-erase i xs))
]

pub length-Distinct :
    (n : ℕ) (xs : List ℕ) → Distinct xs → ((x : ℕ) → Member x xs → x < n) → length xs ≤ n
length-Distinct zero [] d below = omega arith
length-Distinct zero (x ∷ xs) d below = absurd (omega (arith, below x (inl refl)))
length-Distinct (suc n) xs d below =
    let fewer = length-Distinct n (erase n xs) (Distinct-erase n xs d) (λ x m.
      let le = below x (Member-erase x n xs m) in
      let ne = Absent-ne n x (erase n xs) (Absent-erase_self n xs d) m in ground (arith, le, ne)) in
    omega (arith, fewer, length-erase n xs)
