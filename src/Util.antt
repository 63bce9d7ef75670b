-- ===== src/Util.antt =====
-- The byte swapping of src/util.c, as it is compiled for a little-endian machine.
pub mod Swap
pub mod Sendbuf
use lightcache.Base.{ℕ, zero, suc, ◌*◌, ◌/◌, ◌%◌, ◌^◌, bit_and, bit_or}

-- The loop of `li_swap64`: `rv = (rv << 8) | (in & 0xff); in >>= 8`, with `n` rounds to go.
unfoldable pub swap_loop : ℕ → ℕ → ℕ → ℕ
swap_loop zero rv input = rv
swap_loop (suc n) rv input =
    swap_loop n (bit_or (rv * 2 ^ 8 % 2 ^ 64) (bit_and input 0xff)) (input / 2 ^ 8)

unfoldable pub li_swap64 : ℕ → ℕ
unfolding swap_loop
li_swap64 input = swap_loop 8 0 input

unfoldable pub htonll : ℕ → ℕ
unfolding li_swap64
htonll val = li_swap64 val

unfoldable pub ntohll : ℕ → ℕ
unfolding li_swap64
ntohll val = li_swap64 val
