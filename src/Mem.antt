-- ===== src/Mem.antt =====
-- `li_malloc`, `li_free` and `li_memused` of src/mem.c.
pub mod Account
use lightcache.Base.{
  u64, ℕ, ◌+◌, ◌-◌, ◌^◌, Bool, true, false, List, [], ◌∷◌, Option, none, some, ltb, ◌==◌,
  if◌then◌else◌,
}
use lightcache.Base.Run.{Run, ok, fault, null_pointer, bad_free, ◌>>=◌}
use lightcache.Slab.Manager.{Slabs}
use lightcache.Slab.Alloc.{scmalloc, scfree}

-- A block of the C library: the pointer that `li_malloc` gave, behind the size that it wrote, and that size.
abbrev pub Block : Type 0
Block = ℕ × ℕ

-- `settings.use_sys_malloc` and `settings.mem_avail`, the state of the slab allocator, `mem_used`, and
-- the live blocks of the C library.
pub record Mem : Type 0 where
  pub use_sys_malloc : Bool
  pub mem_avail : ℕ
  pub slabs : Slabs
  pub mem_used : ℕ
  pub blocks : List Block

unfoldable pub li_memused : Mem → ℕ
li_memused s = if s.use_sys_malloc then s.mem_used else s.slabs.slab_stats.mem_used

-- `sizeof(size_t)`
abbrev pub header_size : ℕ
header_size = 8

-- `*(size_t *)(ptr - sizeof(size_t))`, if the block is live
abbrev pub size_at : List Block → ℕ → Option ℕ
size_at [] p = none
size_at ((q, size) ∷ bs) p = let rest = size_at bs p in if q == p then some size else rest

abbrev pub without : List Block → ℕ → List Block
without [] p = []
without ((q, size) ∷ bs) p = let rest = without bs p in if q == p then bs else (q, size) ∷ rest

-- `free(ptr)` after the accounting
unfoldable pub sys_free : Mem → ℕ → Run Mem
sys_free s p = elim (size_at s.blocks p) [
  | none ↦ fault bad_free
  | some size ↦
      ok (record s { mem_used = u64 (s.mem_used + 2 ^ 64 - size); blocks = without s.blocks p })
]

unfoldable pub li_free : Mem → Option ℕ → Run Mem
unfolding sys_free
li_free s none = ok s
li_free s (some p) =
    let slab = (scfree s.slabs p >>= λ slabs. ok (record s { slabs = slabs })) in
    if s.use_sys_malloc then sys_free s p else slab

-- `malloc s n` is what the C library's `malloc(n)` gives.
module _ (malloc : Mem → ℕ → Option ℕ) where
  -- The result of `malloc` is not tested before `memset` writes to it.
  unfoldable pub sys_malloc : Mem → ℕ → Run (Mem × Option ℕ)
  sys_malloc s size = elim (malloc s (u64 (size + header_size))) [
    | none ↦ fault null_pointer
    | some a ↦
        let p = a + header_size in
        ok (record s { mem_used = u64 (s.mem_used + size); blocks = (p, size) ∷ s.blocks }, some p)
  ]

  unfoldable pub li_malloc : Mem → ℕ → Run (Mem × Option ℕ)
  unfolding sys_malloc
  li_malloc s size =
      let slab = (scmalloc s.slabs size >>= λ (slabs, p). ok (record s { slabs = slabs }, p)) in
      let sys = sys_malloc s size in
      if size == 0
      then ok (s, none)
      else if s.use_sys_malloc
      then (if ltb s.mem_avail (u64 (size + s.mem_used)) then ok (s, none) else sys)
      else slab
