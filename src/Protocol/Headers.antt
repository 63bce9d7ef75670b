-- ===== src/Protocol/Headers.antt =====
-- What a client reads from the header of a response (src/protocol.h, `add_response` of
-- src/lightcache.c).
use lightcache.Base.{
  ℕ, ◌+◌, ◌*◌, ◌/◌, ◌%◌, ◌^◌, ◌<◌, ◌≡◌, refl, List, [], ◌∷◌, arith, length, get_or,
}
use lightcache.Protocol.Bytes.{be32_at, write_resp_header}

network_bytes :
    (n : ℕ)
    → n < 2 ^ 32
    → ((n / 2 ^ 24 % 256 * 256 + n / 2 ^ 16 % 256) * 256 + n / 2 ^ 8 % 256) * 256 + n % 256 ≡ n
network_bytes n fits = omega arith

-- The header that is written names its command and its return code, `ntohl` of its length field
-- gives the length back, for a length of 32 bits, and the two bytes of padding are as they were.
pub write_resp_header-be32_at :
    (bs : List ℕ) (opcode retcode n : ℕ)
    → length bs ≡ 8
    → n < 2 ^ 32
    → let out = write_resp_header bs opcode retcode n in
      (length out ≡ 8)
      × (get_or out 0 0 ≡ opcode)
      × (get_or out 1 0 ≡ retcode)
      × (be32_at out 4 ≡ n)
      × (get_or out 2 0 ≡ get_or bs 2 0)
      × (get_or out 3 0 ≡ get_or bs 3 0)
unfolding write_resp_header
write_resp_header-be32_at (a ∷ b ∷ c ∷ d ∷ e ∷ f ∷ g ∷ h ∷ []) opcode retcode n len fits =
    (refl, refl, refl, network_bytes n fits, refl, refl)
write_resp_header-be32_at [] opcode retcode n len fits = absurd (omega arith)
write_resp_header-be32_at (a ∷ []) opcode retcode n len fits = absurd (omega arith)
write_resp_header-be32_at (a ∷ b ∷ []) opcode retcode n len fits = absurd (omega arith)
write_resp_header-be32_at (a ∷ b ∷ c ∷ []) opcode retcode n len fits = absurd (omega arith)
write_resp_header-be32_at (a ∷ b ∷ c ∷ d ∷ []) opcode retcode n len fits = absurd (omega arith)
write_resp_header-be32_at (a ∷ b ∷ c ∷ d ∷ e ∷ []) opcode retcode n len fits = absurd (omega arith)
write_resp_header-be32_at (a ∷ b ∷ c ∷ d ∷ e ∷ f ∷ []) opcode retcode n len fits =
    absurd (omega arith)
write_resp_header-be32_at (a ∷ b ∷ c ∷ d ∷ e ∷ f ∷ g ∷ []) opcode retcode n len fits =
    absurd (omega arith)
write_resp_header-be32_at (a ∷ b ∷ c ∷ d ∷ e ∷ f ∷ g ∷ h ∷ i ∷ rest) opcode retcode n len fits =
    absurd (omega arith)
