-- ===== src/Mem/Account.antt =====
-- The accounting of memory that the C library gives.
use lightcache.Base.{
  u64, ℕ, ◌+◌, ◌-◌, ◌^◌, ◌<◌, ◌≤◌, ◌≡◌, ◌∙◌, ap, refl, sym, inl, inr, Bool, true, false, ◌&&◌, List,
  [], ◌∷◌, Option, none, some, some-injective, arith, Bool-cases, ltb, leb, ◌==◌, if◌then◌else◌,
}
use lightcache.Base.Run.{Run, ok, ◌>>=◌, Returns}
use lightcache.Mem.{
  Block, Mem, li_memused, header_size, size_at, without, sys_free, li_free, sys_malloc, li_malloc,
}

abbrev pub total : List Block → ℕ
total [] = 0
total ((p, size) ∷ bs) = size + total bs

-- `mem_used` is the sum of the live blocks, and within what the settings allow, which is below 2 ^ 63.
pub record IsAccounted (s : Mem) : Type 0 where
  pub sys : s.use_sys_malloc ≡ true
  pub used : s.mem_used ≡ total s.blocks
  pub bound : total s.blocks ≤ s.mem_avail
  pub word : s.mem_avail < 2 ^ 63

if_true {ℓ} : {A : Type ℓ} (b : Bool) (x y : A) → b ≡ true → (if b then x else y) ≡ x
if_true b x y e = rw e

total-without :
    (bs : List Block) (p n : ℕ) → size_at bs p ≡ some n → total (without bs p) + n ≡ total bs
total-without [] p n e = absurd (ground (arith, e))
total-without ((q, size) ∷ bs) p n e = elim (Bool-cases (q == p)) [
  | inl h ↦
      let same : size ≡ n =
        some-injective (sym (ap (λ b. if b then some size else size_at bs p) h) ∙ e) in
      rw h (omega (arith, same))
  | inr h ↦
      let later : size_at bs p ≡ some n =
        sym (ap (λ b. if b then some size else size_at bs p) h) ∙ e in
      rw h (omega (arith, total-without bs p n later))
]

at_sys_free :
    (s : Mem) (p : ℕ)
    → s.use_sys_malloc ≡ true
    → (end : Run Mem) → sys_free s p ≡ end
    → li_free s (some p) ≡ end
unfolding li_free
at_sys_free s p sys end run = let b = s.use_sys_malloc in if_true b _ _ sys ∙ run

free_live :
    (s : Mem) (p n : ℕ)
    → size_at s.blocks p ≡ some n
    → sys_free s p
      ≡ ok (record s { mem_used = u64 (s.mem_used + 2 ^ 64 - n); blocks = without s.blocks p })
unfolding sys_free
free_live s p n at = rw (sys_free, at)

sys_free_run :
    (s : Mem) (p n : ℕ)
    → s.use_sys_malloc ≡ true
    → size_at s.blocks p ≡ some n
    → li_free s (some p)
      ≡ ok (record s { mem_used = u64 (s.mem_used + 2 ^ 64 - n); blocks = without s.blocks p })
sys_free_run s p n sys at = at_sys_free s p sys _ (free_live s p n at)

-- When the C library's memory is accounted for, `li_free` of a live block returns, keeps the account and
-- takes the size of the block off what is used.
pub li_free-IsAccounted :
    (s : Mem) (p n : ℕ)
    → IsAccounted s
    → size_at s.blocks p ≡ some n
    → Returns
        (li_free s (some p))
        λ t. IsAccounted t × (li_memused t + n ≡ li_memused s) × (t.blocks ≡ without s.blocks p)
unfolding li_memused
li_free-IsAccounted s p n is at =
    let sum = total-without s.blocks p n at in
    let less : u64 (s.mem_used + 2 ^ 64 - n) ≡ total (without s.blocks p) =
      omega (arith, sum, is.used, is.bound, is.word) in
    (
      record s { mem_used = u64 (s.mem_used + 2 ^ 64 - n); blocks = without s.blocks p },
      sys_free_run s p n is.sys at,
      (
        record { sys = is.sys; used = less; bound = omega (arith, sum, is.bound); word = is.word },
        rw is.sys (omega (arith, less, sum, is.used)),
        refl,
      ),
    )

-- What `li_malloc` gives, by whether the block fits into what the settings allow.
abbrev pub IsGiven : Mem → ℕ → Bool → Mem × Option ℕ → Type 0
IsGiven s size false r = r ≡ (s, none)
IsGiven s size true r =
    (p : ℕ) × (r.1 ≡ some p)
    × (r.0.blocks ≡ (p, size) ∷ s.blocks)
    × (li_memused r.0 ≡ li_memused s + size)

module _ (malloc : Mem → ℕ → Option ℕ) (s : Mem) (size : ℕ) (is : IsAccounted s)
    (small : size < 2 ^ 63) (a : ℕ) (serves : malloc s (size + 8) ≡ some a) where
  abbrev given : Mem
  given = record s {
    mem_used = u64 (s.mem_used + size);
    blocks = (a + header_size, size) ∷ s.blocks;
  }

  abbrev fits : Bool
  fits = ltb 0 size && leb (size + total s.blocks) s.mem_avail

  served : sys_malloc malloc s size ≡ ok (given, some (a + header_size))
  unfolding sys_malloc
  served =
      let word : u64 (size + header_size) ≡ size + 8 = omega arith in rw (sys_malloc, word, serves)

  at_sys_malloc :
      (end : Run (Mem × Option ℕ))
      → size == 0 ≡ false
      → ltb s.mem_avail (u64 (size + s.mem_used)) ≡ false
      → sys_malloc malloc s size ≡ end
      → li_malloc malloc s size ≡ end
  unfolding li_malloc
  at_sys_malloc end some_size enough run =
      rw some_size (if_true s.use_sys_malloc _ _ is.sys ∙ rw enough run)

  given_run : fits ≡ true → li_malloc malloc s size ≡ ok (given, some (a + header_size))
  given_run e =
      let some_size : size == 0 ≡ false = ground (arith, e) in
      let enough : ltb s.mem_avail (u64 (size + s.mem_used)) ≡ false =
        ground (arith, e, is.used, is.bound, is.word) in
      at_sys_malloc _ some_size enough served

  refused_run : fits ≡ false → li_malloc malloc s size ≡ ok (s, none)
  unfolding li_malloc
  refused_run e = elim (Bool-cases (size == 0)) [
    | inl h ↦ rw h
    | inr h ↦
        let short : ltb s.mem_avail (u64 (size + s.mem_used)) ≡ true =
          ground (arith, e, h, is.used, is.bound, is.word) in
        rw (h, is.sys, short)
  ]

  given-IsAccounted : fits ≡ true → IsAccounted given × (li_memused given ≡ li_memused s + size)
  unfolding li_memused
  given-IsAccounted e =
      let room : size + total s.blocks ≤ s.mem_avail = ground (arith, e) in
      let more : u64 (s.mem_used + size) ≡ size + total s.blocks =
        omega (arith, is.used, is.bound, is.word, room) in
      (
        record { sys = is.sys; used = more; bound = room; word = is.word },
        rw is.sys (omega (arith, more, is.used)),
      )

  IsGiven-by :
      (b : Bool)
      → fits ≡ b
      → Returns (li_malloc malloc s size) λ r. IsAccounted r.0 × IsGiven s size b r
  IsGiven-by false e = ((s, none), refused_run e, (is, refl))
  IsGiven-by true e =
      let (is', more) = given-IsAccounted e in
      ((given, some (a + header_size)), given_run e, (is', (a + header_size, refl, refl, more)))

  -- When the C library's memory is accounted for and it has the memory for a size below 2^63, `li_malloc`
  -- returns and keeps the account, so that what is used never exceeds what the settings allow: a size above
  -- 0 that fits gives a new block, and adds its size to what is used; else NULL, and nothing changes.
  pub li_malloc-IsAccounted : Returns (li_malloc malloc s size) λ r.
      IsAccounted r.0 × IsGiven s size (ltb 0 size && leb (size + total s.blocks) s.mem_avail) r
  li_malloc-IsAccounted = IsGiven-by fits refl

  freed : (b : Bool) → fits ≡ b → (li_malloc malloc s size >>= λ (t, p). li_free t p) ≡ ok s
  unfolding li_free
  freed false e = ap (λ m. m >>= λ (t, p). li_free t p) (refused_run e)
  freed true e =
      let p = a + header_size in
      let here : p == p ≡ true = ground arith in
      let (is', _) = given-IsAccounted e in
      let back : u64 (u64 (s.mem_used + size) + 2 ^ 64 - size) ≡ s.mem_used =
        omega (arith, is.used, is.bound, is.word, is'.used) in
      ap (λ m. m >>= λ (t, p). li_free t p) (given_run e)
      ∙ sys_free_run given p size is.sys (rw here)
      ∙ rw here (λ i. ok (record s { mem_used = back i }))

  -- When the C library's memory is accounted for and it has the memory for a size below 2^63, `li_free` of
  -- what `li_malloc` gives returns to the state before.
  pub li_free-li_malloc : (li_malloc malloc s size >>= λ (t, p). li_free t p) ≡ ok s
  li_free-li_malloc = freed fits refl
