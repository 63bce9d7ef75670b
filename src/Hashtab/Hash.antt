-- ===== src/Hashtab/Hash.antt =====
-- `HHASH` of src/hashtab.c. An `int` is a number below 2 ^ 32 in two's complement, whose overflow
-- wraps; `>>` keeps the sign, and `char` is signed.
use lightcache.Base.{
  u32, ℕ, zero, suc, ◌+◌, ◌-◌, ◌*◌, ◌/◌, ◌^◌, bit_and, bit_xor, List, [], ◌∷◌, Option, none, some,
  length, ltb, if◌then◌else◌,
}
use lightcache.Base.Run.{Run, ok, fault, null_pointer, out_of_range, ◌>>=◌}

abbrev pub shift_left : ℕ → ℕ → ℕ
shift_left x k = u32 (x * 2 ^ k)

abbrev pub shift_right : ℕ → ℕ → ℕ
shift_right x k = if ltb x (2 ^ 31) then x / 2 ^ k else x / 2 ^ k + (2 ^ 32 - 2 ^ (32 - k))

abbrev pub char_value : ℕ → ℕ
char_value b = if ltb b 128 then b else b + (2 ^ 32 - 2 ^ 8)

unfoldable pub hash_step : ℕ → ℕ → ℕ
hash_step hash b =
    let added = u32 (hash + char_value b) in
    let mixed = u32 (added + shift_left added 10) in bit_xor mixed (shift_right mixed 6)

unfoldable pub hash_loop : List ℕ → ℕ → ℕ
unfolding hash_step
hash_loop [] hash = hash
hash_loop (b ∷ bs) hash = hash_loop bs (hash_step hash b)

-- The value before the mask.
unfoldable pub hash_of : List ℕ → ℕ
unfolding hash_loop
hash_of bytes =
    let looped = hash_loop bytes 0 in
    let added = u32 (looped + shift_left looped 3) in
    let mixed = bit_xor added (shift_right added 11) in u32 (mixed + shift_left mixed 15)

-- The first `n` bytes, as far as there are any.
abbrev pub take : ℕ → List ℕ → List ℕ
take zero bs = []
take (suc n) [] = []
take (suc n) (b ∷ bs) = b ∷ take n bs

-- The `klen` bytes that are read from `key`; the final 0 may not be passed.
abbrev pub read_bytes : List ℕ → ℕ → Run (List ℕ)
read_bytes k klen = if ltb (length k) klen then fault out_of_range else ok (take klen k)

abbrev pub key_bytes : Option (List ℕ) → ℕ → Run (List ℕ)
key_bytes none zero = ok []
key_bytes none (suc n) = fault null_pointer
key_bytes (some k) n = read_bytes k n

unfoldable pub hhash : ℕ → Option (List ℕ) → ℕ → Run ℕ
unfolding hash_of
hhash mask key klen = do bytes ← key_bytes key klen; ok (bit_and (hash_of bytes) mask)
