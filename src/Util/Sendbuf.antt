-- ===== src/Util/Sendbuf.antt =====
-- `maximize_sndbuf` of src/socket.c: the largest send buffer that the kernel accepts, by binary search.
use lightcache.Base.{
  ℕ, zero, suc, ◌+◌, ◌-◌, ◌*◌, ◌/◌, ◌<◌, ◌≤◌, ◌≡◌, ◌⊎◌, inl, inr, refl, Bool, true, false, Option,
  none, some, arith, leb, Bool-cases, if◌then◌else◌,
}

-- MAX_SENDBUF_SIZE
abbrev pub max_sendbuf_size : ℕ
max_sendbuf_size = 256 * 1024 * 1024

-- `accepts n` says whether `setsockopt` takes the size `n`.
module _ (accepts : ℕ → Bool) where
  -- The loop, with `max + 1` for `max`, which falls to -1; `none` without fuel, else `last_good`.
  unfoldable pub sndbuf_loop : ℕ → ℕ → ℕ → ℕ → Option ℕ
  sndbuf_loop zero min end last_good = none
  sndbuf_loop (suc fuel) min end last_good =
      let avg = (min + (end - 1)) / 2 in
      let up = sndbuf_loop fuel (avg + 1) end avg in
      let down = sndbuf_loop fuel min avg last_good in
      if leb end min then some last_good else if accepts avg then up else down

  -- The value returned at the end of the loop, and the size that was set last.
  abbrev pub return_one : Option ℕ → Option (ℕ × ℕ)
  return_one none = none
  return_one (some last_good) = some (1, last_good)

  -- The value returned, and the size that was set last, 0 for none; `old_size` is `none` when `getsockopt`
  -- fails. Each round drops a size.
  unfoldable pub maximize_sndbuf : Option ℕ → Option (ℕ × ℕ)
  unfolding sndbuf_loop
  maximize_sndbuf none = some (0, 0)
  maximize_sndbuf (some old_size) =
      return_one (sndbuf_loop (max_sendbuf_size + 2) old_size (max_sendbuf_size + 1) 0)

  -- No size from `old` to the maximum is accepted, or `n` is the largest one.
  abbrev pub IsLargest : ℕ → ℕ → Type 0
  IsLargest old n =
      ((n ≡ 0) × ((m : ℕ) → old ≤ m → m ≤ max_sendbuf_size → accepts m ≡ false))
      ⊎ ((old ≤ n)
          × (n ≤ max_sendbuf_size)
          × (accepts n ≡ true)
          × ((m : ℕ) → n < m → m ≤ max_sendbuf_size → accepts m ≡ false))

  abbrev pub IsLargestOf : ℕ → Option ℕ → Type 0
  IsLargestOf old none = ⊥
  IsLargestOf old (some n) = IsLargest old n

  -- The search has ended: 1 is returned and the size that was set last is the largest.
  abbrev pub IsMaximized : ℕ → Option (ℕ × ℕ) → Type 0
  IsMaximized old none = ⊥
  IsMaximized old (some (value, n)) = (value ≡ 1) × IsLargest old n

  largest-IsMaximized :
      (old : ℕ) (r : Option ℕ) → IsLargestOf old r → IsMaximized old (return_one r)
  largest-IsMaximized old none is = is
  largest-IsMaximized old (some n) is = (refl, is)

  module _ (old : ℕ) (below : (m n : ℕ) → m ≤ n → accepts n ≡ true → accepts m ≡ true) where
    -- What the loop has found out.
    record Brackets (min end last_good : ℕ) : Type 0 where
      start : old ≤ min
      last : end ≤ max_sendbuf_size + 1
      low :
          ((min ≡ old) × (last_good ≡ 0))
          ⊎ ((min ≡ last_good + 1)
              × (old ≤ last_good)
              × (last_good ≤ max_sendbuf_size)
              × (accepts last_good ≡ true))
      high : (m : ℕ) → end ≤ m → m ≤ max_sendbuf_size → accepts m ≡ false

    found :
        (min end last_good : ℕ) → Brackets min end last_good → end ≤ min → IsLargest old last_good
    found min end last_good b met = elim b.low [
      | inl (s, z) ↦ inl (z, λ m low high. b.high m (omega (arith, s, met, low)) high)
      | inr (s, above, within, good) ↦
          inr (above, within, good, λ m more high. b.high m (omega (arith, s, met, more)) high)
    ]

    rejected : (avg m : ℕ) → accepts avg ≡ false → avg ≤ m → accepts m ≡ false
    rejected avg m refused le = elim (Bool-cases (accepts m)) [
      | inl taken ↦ absurd (ground (arith, refused, taken, below avg m le))
      | inr e ↦ e
    ]

    loop-IsLargest :
        (fuel min end last_good : ℕ)
        → Brackets min end last_good
        → 0 < fuel
        → end < fuel + min
        → IsLargestOf old (sndbuf_loop fuel min end last_good)
    unfolding sndbuf_loop
    loop-IsLargest zero min end last_good b some_fuel short = absurd (omega (arith, some_fuel))
    loop-IsLargest (suc fuel) min end last_good b some_fuel short =
        let avg = (min + (end - 1)) / 2 in
        elim (Bool-cases (leb end min)) [
          | inl e ↦ rw e (found min end last_good b (ground (arith, e)))
          | inr e ↦
              let less : min < end = ground (arith, e) in
              let inside : (min ≤ avg) × (avg < end) = (omega (arith, less), omega (arith, less)) in
              elim (Bool-cases (accepts avg)) [
                | inl taken ↦
                    rw (e, taken)
                      (loop-IsLargest fuel (avg + 1) end avg
                        (record {
                          start = omega (arith, b.start, inside);
                          last = b.last;
                          low = inr (
                            refl,
                            omega (arith, b.start, inside),
                            omega (arith, b.last, inside),
                            taken,
                          );
                          high = b.high;
                        })
                        (omega (arith, short, less)) (omega (arith, short, inside)))
                | inr refused ↦
                    rw (e, refused)
                      (loop-IsLargest fuel min avg last_good
                        (record {
                          start = b.start;
                          last = omega (arith, b.last, inside);
                          low = b.low;
                          high = λ m low high. rejected avg m refused low;
                        })
                        (omega (arith, short, less)) (omega (arith, short, inside)))
              ]
        ]

    -- If the kernel accepts every size below one that it accepts, `maximize_sndbuf` ends and
    -- returns 1, and the last size that it has set is the largest one from the old size to the maximum that is accepted, or none is.
    pub maximize_sndbuf-IsLargest : IsMaximized old (maximize_sndbuf (some old))
    unfolding maximize_sndbuf
    maximize_sndbuf-IsLargest =
        largest-IsMaximized old (sndbuf_loop (max_sendbuf_size + 2) old (max_sendbuf_size + 1) 0) (
          loop-IsLargest (max_sendbuf_size + 2) old (max_sendbuf_size + 1) 0
            (record {
              start = omega arith;
              last = omega arith;
              low = inl (refl, refl);
              high = λ m low high. absurd (omega (arith, low, high));
            })
            (omega arith) (omega arith))
