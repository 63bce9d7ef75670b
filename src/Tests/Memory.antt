-- ===== src/Tests/Memory.antt =====
-- The accounting of memory at a concrete state with one live block.
use lightcache.Base.{ℕ, ◌+◌, ◌≡◌, ◌&&◌, refl, true, none, some, Option, [], ◌∷◌, arith, ltb, leb}
use lightcache.Base.Run.{ok, ◌>>=◌, Returns}
use lightcache.Slab.Manager.{Slabs}
use lightcache.Mem.{Mem, li_memused, without, li_free, li_malloc}
use lightcache.Mem.Account.{
  IsAccounted, IsGiven, total, li_free-IsAccounted, li_malloc-IsAccounted, li_free-li_malloc,
}

abbrev no_slabs : Slabs
no_slabs = record {
  cm = none;
  slab_stats = record {
    mem_used = 0;
    mem_mallocd = 0;
    mem_limit = 0;
    mem_used_metadata = 0;
    cache_count = 0;
    slab_count = 0;
  };
}

abbrev ten_used : Mem
ten_used = record {
  use_sys_malloc = true;
  mem_avail = 30;
  slabs = no_slabs;
  mem_used = 10;
  blocks = (108, 10) ∷ [];
}

abbrev malloc : Mem → ℕ → Option ℕ
malloc s n = some 200

ten_used-IsAccounted : IsAccounted ten_used
ten_used-IsAccounted = record { sys = refl; used = refl; bound = omega arith; word = omega arith }

li_free-IsAccounted_example : Returns (li_free ten_used (some 108)) λ t.
    IsAccounted t
    × (li_memused t + 10 ≡ li_memused ten_used)
    × (t.blocks ≡ without ten_used.blocks 108)
li_free-IsAccounted_example = li_free-IsAccounted ten_used 108 10 ten_used-IsAccounted refl

li_malloc-IsAccounted_example :
    Returns
      (li_malloc malloc ten_used 20)
      λ r. IsAccounted r.0 × IsGiven ten_used 20 (ltb 0 20 && leb (20 + total ten_used.blocks) 30) r
li_malloc-IsAccounted_example =
    li_malloc-IsAccounted malloc ten_used 20 ten_used-IsAccounted (omega arith) 200 refl

li_free-li_malloc_example : (li_malloc malloc ten_used 20 >>= λ (t, p). li_free t p) ≡ ok ten_used
li_free-li_malloc_example =
    li_free-li_malloc malloc ten_used 20 ten_used-IsAccounted (omega arith) 200 refl
