-- ===== src/Slab/SizeClass.antt =====
-- `size_to_cache` of src/slab.c: a request's size is rounded up to a cache by binary search.
pub mod Ceiling
use lightcache.Base.{
  ℕ, zero, suc, ◌+◌, ◌-◌, ◌/◌, ◌^◌, Bool, true, false, ◌||◌, ◌&&◌, List, [], ◌∷◌, Option, none,
  some, length, get_or, ltb, leb, ◌==◌, if◌then◌else◌,
}

-- `INT_MAX`
abbrev pub int_max : ℕ
int_max = 2 ^ 31 - 1

-- The signed variable `r`; the loop gives it -1 at least.
pub data Right : Type 0 where
  minus_one : Right
  at : ℕ → Right

-- `m - 1`
abbrev pub before : ℕ → Right
before zero = minus_one
before (suc m) = at m

-- How the loop ends: a `return` inside it, its test, or no fuel.
pub data Loop : Type 0 where
  returned : ℕ → Loop
  left_loop : Right → Loop
  out_of_fuel : Loop

-- The array is a function of the index, given by its field `chunk_size`; a result is an index.
unfoldable pub search_loop : ℕ → (ℕ → ℕ) → ℕ → ℕ → Right → Loop
search_loop zero sizes key l r = out_of_fuel
search_loop (suc fuel) sizes key l minus_one = left_loop minus_one
search_loop (suc fuel) sizes key l (at r) =
    let m = (l + r) / 2 in
    let msize = sizes m in
    let up = search_loop fuel sizes key (m + 1) (at r) in
    let down = search_loop fuel sizes key l (before m) in
    if ltb l r
    then (if ltb msize key then up else if ltb key msize then down else returned m)
    else left_loop (at r)

-- `if (r < 0) r = 0;`
abbrev pub clamp : Right → ℕ
clamp minus_one = 0
clamp (at r) = r

unfoldable pub ceil_at : (ℕ → ℕ) → ℕ → ℕ → ℕ → Option ℕ
ceil_at sizes arr_size key r =
    if leb key (sizes r)
    then some r
    else if ltb r (arr_size - 1) && leb key (sizes (r + 1))
    then some (r + 1)
    else none

unfoldable pub after_loop : (ℕ → ℕ) → ℕ → ℕ → Loop → Option ℕ
unfolding ceil_at
after_loop sizes arr_size key (returned m) = some m
after_loop sizes arr_size key (left_loop r) = ceil_at sizes arr_size key (clamp r)
after_loop sizes arr_size key out_of_fuel = none

-- The array pointer is `none` for NULL. Each round drops an index, so `arr_size` rounds suffice.
unfoldable pub size_to_cache : Option (ℕ → ℕ) → ℕ → ℕ → Option ℕ
unfolding search_loop after_loop
size_to_cache none arr_size key = none
size_to_cache (some sizes) arr_size key =
    if leb int_max arr_size || ltb arr_size 1
    then none
    else after_loop sizes arr_size key (search_loop (arr_size + 1) sizes key 0 (at (arr_size - 1)))
