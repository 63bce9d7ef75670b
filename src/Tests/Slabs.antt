-- ===== src/Tests/Slabs.antt =====
-- A small slab allocator run on concrete inputs.
use lightcache.Base.{
  ℕ, ◌+◌, ◌-◌, ◌*◌, ◌^◌, ◌≡◌, refl, Option, none, some, ◌==◌, if◌then◌else◌, replicate,
}
use lightcache.Base.Run.{Run, ok, fault, ◌>>=◌, assert_failed}
use lightcache.Slab.Bitset.{Bitset, word_count, slab_size}
use lightcache.Slab.Links.{Ctls, Links}
use lightcache.Slab.Manager.{Cache, Slabs}
use lightcache.Slab.Alloc.{scmalloc, scfree}

abbrev all_free : Bitset
all_free = replicate word_count (2 ^ 64 - 1)

abbrev empty : Links
empty = record { head = none; tail = none }

-- Caches of 24 bytes and of a whole slab.
abbrev two_caches : ℕ → Cache
two_caches c =
    if c == 0
    then record {
      chunk_size = 24;
      chunk_count_perslab = 43690;
      slabs_full = empty;
      slabs_partial = empty;
    }
    else record {
      chunk_size = slab_size;
      chunk_count_perslab = 1;
      slabs_full = empty;
      slabs_partial = empty;
    }

abbrev two_ctls : Ctls
two_ctls i = record {
  nused = 0;
  nindex = i;
  slots = all_free;
  next = if i == 0 then some 1 else none;
  prev = if i == 0 then none else some 0;
  cache = none;
}

abbrev two_slabs : Slabs
two_slabs = record {
  cm = some (record {
    caches = two_caches;
    cache_count = 2;
    slab_ctls = two_ctls;
    slabctl_count = 2;
    slabs_free = record { head = some 0; tail = some 1 };
    slabs = 4096;
  });
  slab_stats = record {
    mem_used = 0;
    mem_mallocd = 2 * slab_size + 1000;
    mem_limit = 3 * slab_size;
    mem_used_metadata = 1000;
    cache_count = 2;
    slab_count = 2;
  };
}

-- Two small chunks share a slab; a large one takes the other; then nothing is left for it.
abbrev session : Run (Option ℕ × Option ℕ × Option ℕ × Option ℕ)
session = do
  (s₁, a) ← scmalloc two_slabs 20
  (s₂, b) ← scmalloc s₁ 24
  (s₃, c) ← scmalloc s₂ 25
  (s₄, d) ← scmalloc s₃ 25
  ok (a, b, c, d)

session_addresses : session ≡ ok (some 4096, some 4120, some (4096 + slab_size), none)
unfolding scmalloc
session_addresses = refl

abbrev recycled : Run (Option ℕ × ℕ)
recycled = do
  (s₁, a) ← scmalloc two_slabs 25
  (s₂, b) ← scmalloc s₁ 25
  s₃ ← scfree s₂ 4096
  (s₄, c) ← scmalloc s₃ 3
  ok (c, s₄.slab_stats.mem_used)

recycled_address : recycled ≡ ok (some 4096, slab_size + 24)
unfolding scmalloc scfree
recycled_address = refl

double_free : (scmalloc two_slabs 20 >>= λ (s, _). scfree s 4120) ≡ fault assert_failed
unfolding scmalloc scfree
double_free = refl
