-- ===== src/Slab/SizeClass/Ceiling.antt =====
-- The binary search against its meaning: the first cache whose chunks are large enough.
use lightcache.Base.{
  ℕ, zero, suc, ◌+◌, ◌-◌, ◌/◌, ◌≤◌, ◌<◌, ◌≡◌, refl, ◌⊎◌, ◌||◌, ◌&&◌, true, false, Option, none,
  some, arith, ltb, leb, inl, inr, Bool-cases,
}
use mathlib.Core.Path.{subst}
use lightcache.Slab.SizeClass.{
  int_max, Right, minus_one, at, before, Loop, returned, left_loop, out_of_fuel, search_loop,
  ceil_at, after_loop, size_to_cache,
}

-- Chunk sizes grow with the index.
abbrev pub IsIncreasing : (ℕ → ℕ) → ℕ → Type 0
IsIncreasing sizes n = (i j : ℕ) → i < j → j < n → sizes i < sizes j

-- The result is the first index below `n` whose size holds `key`, or `none` if no size does.
abbrev pub IsCeiling : (ℕ → ℕ) → ℕ → ℕ → Option ℕ → Type 0
IsCeiling sizes n key none = (i : ℕ) → i < n → sizes i < key
IsCeiling sizes n key (some k) = (k < n) × (key ≤ sizes k) × ((i : ℕ) → i < k → sizes i < key)

-- One past the index that `r` stands for.
abbrev past : Right → ℕ
past minus_one = 0
past (at r) = suc r

past-before : (m : ℕ) → past (before m) ≡ m
past-before zero = refl
past-before (suc m) = refl

-- Below `l` all sizes are too small, and from `past r` on all are larger than `key`.
record Brackets (sizes : ℕ → ℕ) (n key l : ℕ) (r : Right) : Type 0 where
  low : (i : ℕ) → i < l → sizes i < key
  high : (i : ℕ) → past r ≤ i → i < n → key < sizes i
  close : l ≤ past r
  fits : past r ≤ n

-- What the loop has established when it ends.
abbrev Ends : (ℕ → ℕ) → ℕ → ℕ → Loop → Type 0
Ends sizes n key (returned m) = (m < n) × (sizes m ≡ key)
Ends sizes n key (left_loop r) = (l : ℕ) × Brackets sizes n key l r × (past r ≤ suc l)
Ends sizes n key out_of_fuel = ⊥

module _ (sizes : ℕ → ℕ) (n key : ℕ) (grows : IsIncreasing sizes n) where
  narrow_up :
      (l m r : ℕ)
      → Brackets sizes n key l (at r)
      → m < r
      → sizes m < key
      → Brackets sizes n key (m + 1) (at r)
  narrow_up l m r b h small = record {
    low = λ i k. ground (arith, grows i m);
    high = b.high;
    close = omega arith;
    fits = b.fits;
  }

  narrow_down :
      (l m r : ℕ)
      → Brackets sizes n key l (at r)
      → l ≤ m
      → m < r
      → key < sizes m
      → Brackets sizes n key l (before m)
  narrow_down l m r b g h large = record {
    low = b.low;
    high =
        λ i k t. let k' : m ≤ i = subst (λ x. x ≤ i) (past-before m) k in ground (arith, grows m i);
    close = rw past-before g;
    fits = rw past-before (omega arith);
  }

  loop-Ends :
      (fuel l : ℕ) (r : Right)
      → Brackets sizes n key l r
      → past r < fuel + l
      → Ends sizes n key (search_loop fuel sizes key l r)
  unfolding search_loop
  loop-Ends zero l r b short = absurd (omega arith)
  loop-Ends (suc fuel) l minus_one b short = (l, b, omega arith)
  loop-Ends (suc fuel) l (at r) b short =
      let m = (l + r) / 2 in
      let size = sizes m in
      elim (Bool-cases (ltb l r)) [
        | inr done ↦ rw done (l, b, ground arith)
        | inl more ↦
            let mid : (l ≤ m) × (m < r) = ground arith in
            elim (Bool-cases (ltb size key)) [
              | inl small ↦
                  rw (more, small)
                    (loop-Ends fuel (m + 1) (at r) (narrow_up l m r b mid.1 (ground arith))
                      (omega arith))
              | inr other ↦ elim (Bool-cases (ltb key size)) [
                | inl large ↦
                    rw (more, other, large)
                      (loop-Ends fuel l (before m) (narrow_down l m r b mid.0 mid.1 (ground arith))
                        (rw past-before (omega arith)))
                | inr same ↦ rw (more, other, same) (ground arith, ground arith)
              ]
            ]
      ]

  -- All sizes up to `r` are too small once the one at `r` is.
  below_small : (r i : ℕ) → sizes r < key → r < n → i ≤ r → sizes i < key
  below_small r i small inside h = ground (arith, grows i r)

  -- The two comparisons after the loop find the ceiling at `r` or at `r + 1`.
  ceil_at-IsCeiling :
      (l : ℕ) (r : ℕ)
      → Brackets sizes n key l (at r)
      → r ≤ l
      → IsCeiling sizes n key (ceil_at sizes n key r)
  unfolding ceil_at
  ceil_at-IsCeiling l r b met = elim (Bool-cases (leb key (sizes r))) [
    | inl here ↦ rw here (b.fits, ground arith, λ i h. ground (arith, b.low i))
    | inr small ↦
        let under : sizes r < key = ground arith in
        let test = ltb r (n - 1) && leb key (sizes (r + 1)) in
        elim (Bool-cases test) [
          | inl next ↦
              rw (small, next)
                (ground arith, ground arith, λ i h. below_small r i under b.fits (omega arith))
          | inr last ↦
              let end : suc r ≡ n = ground (arith, b.high (r + 1)) in
              rw (small, last) (λ i h. below_small r i under b.fits (omega arith))
        ]
  ]

  after_loop-IsCeiling :
      (e : Loop) → 0 < n → Ends sizes n key e → IsCeiling sizes n key (after_loop sizes n key e)
  unfolding after_loop
  after_loop-IsCeiling (returned m) pos (inside, same) =
      (inside, omega arith, λ i h. omega (arith, grows i m h inside))
  after_loop-IsCeiling (left_loop (at r)) pos (l, b, met) = ceil_at-IsCeiling l r b (omega arith)
  after_loop-IsCeiling (left_loop minus_one) pos (l, b, met) =
      let low : key < sizes 0 = b.high 0 (omega arith) pos in
      let here : leb key (sizes 0) ≡ true = ground arith in
      rw (here, ceil_at) (pos, omega arith, λ i h. elim h [ ])
  after_loop-IsCeiling out_of_fuel pos e = absurd e

  -- With growing sizes and a count that an `int` holds, `size_to_cache` always returns, and gives
  -- the smallest cache whose chunks hold `key` bytes, or NULL when the largest cache is too small.
  pub size_to_cache-IsCeiling :
      0 < n → n < int_max → IsCeiling sizes n key (size_to_cache (some sizes) n key)
  unfolding size_to_cache
  size_to_cache-IsCeiling pos small =
      let valid : leb int_max n || ltb n 1 ≡ false = ground arith in
      let start : Brackets sizes n key 0 (at (n - 1)) = record {
        low = λ i h. elim h [ ];
        high = λ i h k. absurd (omega arith);
        close = omega arith;
        fits = omega arith;
      } in
      rw valid (after_loop-IsCeiling _ pos (loop-Ends (n + 1) 0 (at (n - 1)) start (omega arith)))

-- NULL, an empty array and a count that does not fit an `int` are refused.
pub size_to_cache_invalid :
    (sizes : ℕ → ℕ) (n key : ℕ)
    → (n ≡ 0) ⊎ (int_max ≤ n)
    → (size_to_cache (some sizes) n key ≡ none) × (size_to_cache none n key ≡ none)
unfolding size_to_cache
size_to_cache_invalid sizes n key bad = (ground arith, refl)
