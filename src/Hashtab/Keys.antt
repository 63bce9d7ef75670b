-- ===== src/Hashtab/Keys.antt =====
-- Keys without a zero byte, which `strcmp` reads in full.
use lightcache.Base.{
  ℕ, ◌-◌, ◌^◌, ◌<◌, ◌≡◌, ◌≢◌, ap, refl, inl, inr, true, false, List, [], ◌∷◌, some, arith, length,
  bit_and, ltb, ◌==◌, ==_iff, Bool-cases,
}
use lightcache.Base.Bits.{bit_and-mask}
use lightcache.Base.Run.{ok}
use lightcache.Protocol.Bytes.{c_string, list_eq}
use lightcache.Hashtab.Hash.{take, read_bytes, hash_of, hhash}
use lightcache.Hashtab.Items.{same_key}

abbrev pub NoZero : List ℕ → Type 0
NoZero [] = Unit
NoZero (b ∷ bs) = (b ≢ 0) × NoZero bs

c_string-NoZero : (k : List ℕ) → NoZero k → c_string k ≡ k
unfolding c_string
c_string-NoZero [] z = refl
c_string-NoZero (b ∷ bs) (ne, z) =
    let e : b == 0 ≡ false = ground arith in rw e (ap (λ l. b ∷ l) (c_string-NoZero bs z))

pub list_eq_refl : (a : List ℕ) → list_eq a a ≡ true
unfolding list_eq
list_eq_refl [] = refl
list_eq_refl (x ∷ a) = ground (arith, list_eq_refl a)

pub list_eq_sound : (a b : List ℕ) → list_eq a b ≡ true → a ≡ b
unfolding list_eq
list_eq_sound [] [] e = refl
list_eq_sound [] (y ∷ b) e = absurd (ground arith)
list_eq_sound (x ∷ a) [] e = absurd (ground arith)
list_eq_sound (x ∷ a) (y ∷ b) e = elim (Bool-cases (x == y)) [
  | inl h ↦ cc ((==_iff x y).0 h, list_eq_sound a b (ground arith))
  | inr h ↦ absurd (ground arith)
]

pub list_eq-ne : (a b : List ℕ) → a ≢ b → list_eq a b ≡ false
list_eq-ne a b ne = elim (Bool-cases (list_eq a b)) [
  | inl e ↦ absurd (ne (list_eq_sound a b e))
  | inr e ↦ e
]

pub same_key_lem :
    (a b : List ℕ) → NoZero a → NoZero b → same_key (some a) (some b) ≡ ok (list_eq a b)
unfolding same_key
same_key_lem a b za zb = rw (c_string-NoZero a za, c_string-NoZero b zb)

take-length : (k : List ℕ) → take (length k) k ≡ k
take-length [] = refl
take-length (b ∷ bs) = ap (λ l. b ∷ l) (take-length bs)

pub read_bytes-length : (k : List ℕ) → read_bytes k (length k) ≡ ok k
read_bytes-length k =
    let e : ltb (length k) (length k) ≡ false = ground arith in rw e (ap ok (take-length k))

-- The bucket of a key in a table with a mask.
unfoldable pub home : ℕ → List ℕ → ℕ
home mask k = bit_and (hash_of k) mask

pub hhash-home : (mask : ℕ) (k : List ℕ) → hhash mask (some k) (length k) ≡ ok (home mask k)
unfolding hhash home
hhash-home mask k = rw (read_bytes-length k)

pub home-lt : (n : ℕ) (k : List ℕ) → 0 < 2 ^ n → home (2 ^ n - 1) k < 2 ^ n
unfolding home
home-lt n k pos = rw (bit_and-mask n (hash_of k)) (omega arith)
