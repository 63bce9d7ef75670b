-- ===== src/Protocol/Bytes.antt =====
-- Byte order, C strings and the two headers as bytes, as the server is compiled on a little-endian
-- machine (src/protocol.h, and `htonl`, `ntohl`, `htonll` where src/lightcache.c calls them).
use lightcache.Base.{
  ℕ, zero, suc, ◌+◌, ◌*◌, ◌/◌, ◌%◌, ◌^◌, Bool, true, false, ◌&&◌, List, [], ◌∷◌, get_or, set, ◌==◌,
  if◌then◌else◌,
}
use lightcache.Protocol.{
  ReqHeader, Command, cmd_get, cmd_set, cmd_chg_setting, cmd_get_setting, cmd_get_stats, cmd_delete,
  cmd_flush_all, unrecognized,
}

-- A network-order number at `i`.
abbrev pub be32_at : List ℕ → ℕ → ℕ
be32_at bs i =
    ((get_or bs i 0 * 256 + get_or bs (i + 1) 0) * 256 + get_or bs (i + 2) 0) * 256
    + get_or bs (i + 3) 0

-- The fields at their offsets in the struct, with the lengths after `ntohl`.
unfoldable pub decode_header : List ℕ → ReqHeader
decode_header bs = record {
  opcode = get_or bs 0 0;
  key_length = get_or bs 1 0;
  data_length = be32_at bs 4;
  extra_length = be32_at bs 8;
}

-- The bytes of the header of a response; the two bytes of padding keep what they held.
unfoldable pub write_resp_header : List ℕ → ℕ → ℕ → ℕ → List ℕ
write_resp_header bs opcode retcode n =
    set
      (set (set (set (set (set bs 0 opcode) 1 retcode) 4 (n / 2 ^ 24 % 256)) 5 (n / 2 ^ 16 % 256)) 6
        (n / 2 ^ 8 % 256))
      7 (n % 256)

-- The bytes of `htonll(v)`.
unfoldable pub be64 : ℕ → List ℕ
be64 v =
    v / 2 ^ 56 % 256
    ∷ v / 2 ^ 48 % 256
    ∷ v / 2 ^ 40 % 256
    ∷ v / 2 ^ 32 % 256
    ∷ v / 2 ^ 24 % 256
    ∷ v / 2 ^ 16 % 256
    ∷ v / 2 ^ 8 % 256
    ∷ v % 256
    ∷ []

unfoldable pub command_of : ℕ → Command
command_of zero = cmd_get
command_of (suc zero) = cmd_set
command_of (suc (suc zero)) = cmd_chg_setting
command_of (suc (suc (suc zero))) = cmd_get_setting
command_of (suc (suc (suc (suc zero)))) = cmd_get_stats
command_of (suc (suc (suc (suc (suc zero))))) = cmd_delete
command_of (suc (suc (suc (suc (suc (suc zero)))))) = cmd_flush_all
command_of _ = unrecognized

-- The bytes of a C string, up to its first 0.
unfoldable pub c_string : List ℕ → List ℕ
c_string [] = []
c_string (b ∷ bs) = let rest = b ∷ c_string bs in if b == 0 then [] else rest

unfoldable pub list_eq : List ℕ → List ℕ → Bool
list_eq [] [] = true
list_eq [] (b ∷ ys) = false
list_eq (a ∷ xs) [] = false
list_eq (a ∷ xs) (b ∷ ys) = a == b && list_eq xs ys

-- "idle_conn_timeout"
abbrev pub idle_conn_timeout_name : List ℕ
idle_conn_timeout_name =
    105 ∷ 100 ∷ 108 ∷ 101 ∷ 95 ∷ 99 ∷ 111 ∷ 110 ∷ 110 ∷ 95 ∷ 116 ∷ 105 ∷ 109 ∷ 101 ∷ 111 ∷ 117 ∷ 116
    ∷ []

-- `strcmp(s, "idle_conn_timeout") == 0`
unfoldable pub names_idle_timeout : List ℕ → Bool
unfolding c_string list_eq
names_idle_timeout s = list_eq (c_string s) idle_conn_timeout_name
