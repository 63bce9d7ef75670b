-- ===== src/Slab/Init/Caches.antt =====
-- The chunk sizes that `init_cache_manager` computes.
use lightcache.Base.{
  ℕ, zero, suc, ◌+◌, ◌/◌, ◌%◌, ◌^◌, ◌<◌, ◌≤◌, ◌≡◌, ◌∙◌, ap, refl, sym, inl, inr, arith, ltb, ◌==◌,
  Bool-cases,
}
use mathlib.Core.Path.{subst}
use lightcache.Slab.Bitset.{slab_size, min_slab_chunk_size}
use lightcache.Slab.SizeClass.{int_max}
use lightcache.Slab.Manager.{Cache, set_cache}
use lightcache.Slab.Init.{aligned, init_caches}
use lightcache.Slab.Valid.{IsShape}
use lightcache.Slab.Valid.Change.{set_cache_chunks, set_cache_same, set_cache_other}

-- Chunk size `d` of the caches whose first unaligned size is `size`.
abbrev pub chunk_from : (ℕ → ℕ) → ℕ → ℕ → ℕ
chunk_from scaled size zero = aligned size
chunk_from scaled size (suc d) = chunk_from scaled (scaled (aligned size)) d

abbrev with_chunk : Cache → ℕ → Cache
with_chunk c size = record c { chunk_size = size; chunk_count_perslab = slab_size / size }

-- What the loop does not write.
pub init_caches-kept {ℓ} :
    {A : Type ℓ} (f : Cache → A) (keep : (c : Cache) (size : ℕ) → f (with_chunk c size) ≡ f c)
    (scaled : ℕ → ℕ) (k i size : ℕ) (caches : ℕ → Cache) (j : ℕ)
    → f (init_caches scaled k i size caches j) ≡ f (caches j)
unfolding init_caches
init_caches-kept f keep scaled zero i size caches j = refl
init_caches-kept f keep scaled (suc k) i size caches j =
    let new = with_chunk (caches i) (aligned size) in
    init_caches-kept f keep scaled k (suc i) (scaled (aligned size)) (set_cache caches i new) j
    ∙ set_cache_chunks f caches i j new (keep (caches i) (aligned size))

init_caches-before :
    (scaled : ℕ → ℕ) (k i size : ℕ) (caches : ℕ → Cache) (j : ℕ)
    → j < i
    → init_caches scaled k i size caches j ≡ caches j
unfolding init_caches
init_caches-before scaled zero i size caches j less = refl
init_caches-before scaled (suc k) i size caches j less =
    let new = with_chunk (caches i) (aligned size) in
    init_caches-before scaled k (suc i) (scaled (aligned size)) (set_cache caches i new) j
      (omega (arith, less))
    ∙ set_cache_other caches i j new (λ s. absurd (omega (arith, s, less)))

-- Cache `i + d` gets size `d`.
init_caches-at :
    (scaled : ℕ → ℕ) (k i size : ℕ) (caches : ℕ → Cache) (d : ℕ)
    → d < k
    → ((init_caches scaled k i size caches (i + d)).chunk_size ≡ chunk_from scaled size d)
      × ((init_caches scaled k i size caches (i + d)).chunk_count_perslab
          ≡ slab_size / chunk_from scaled size d)
unfolding init_caches
init_caches-at scaled zero i size caches d less = absurd (omega (arith, less))
init_caches-at scaled (suc k) i size caches zero less =
    let new = with_chunk (caches i) (aligned size) in
    let place : i + 0 ≡ i = omega arith in
    let e =
      init_caches-before scaled k (suc i) (scaled (aligned size)) (set_cache caches i new) (i + 0)
        (omega arith)
      ∙ ap (set_cache caches i new) place
      ∙ set_cache_same caches i new in
    (ap (λ (x : Cache). x.chunk_size) e, ap (λ (x : Cache). x.chunk_count_perslab) e)
init_caches-at scaled (suc k) i size caches (suc d) less =
    let new = with_chunk (caches i) (aligned size) in
    let place : suc i + d ≡ i + suc d = omega arith in
    subst
      (λ x.
        ((init_caches scaled k (suc i) (scaled (aligned size)) (set_cache caches i new)
            x).chunk_size
          ≡ chunk_from scaled size (suc d))
        × ((init_caches scaled k (suc i) (scaled (aligned size)) (set_cache caches i new)
              x).chunk_count_perslab
            ≡ slab_size / chunk_from scaled size (suc d)))
      place
      (init_caches-at scaled k (suc i) (scaled (aligned size)) (set_cache caches i new) d
        (omega (arith, less)))

-- The factor makes every chunk size larger, the sizes fit an `unsigned int`, and the sizes of all `n`
-- caches fit a slab.
pub record IsScale (scaled : ℕ → ℕ) (n : ℕ) : Type 0 where
  pub grows : (x : ℕ) → 20 ≤ x → x ≤ slab_size → (x < scaled x) × (scaled x + 8 < 2 ^ 32)
  pub most : (d : ℕ) → d < n → chunk_from scaled min_slab_chunk_size d ≤ slab_size

chunk_from-suc :
    (scaled : ℕ → ℕ) (size d : ℕ)
    → chunk_from scaled size (suc d) ≡ aligned (scaled (chunk_from scaled size d))
chunk_from-suc scaled size zero = refl
chunk_from-suc scaled size (suc d) = chunk_from-suc scaled (scaled (aligned size)) d

aligned-ge : (x : ℕ) → x + 8 < 2 ^ 32 → x ≤ aligned x
aligned-ge x fits = elim (Bool-cases (x % 8 == 0)) [
  | inl e ↦ rw e (omega arith)
  | inr e ↦ rw e (omega (arith, fits))
]

module _ (scaled : ℕ → ℕ) (n : ℕ) (is : IsScale scaled n) where
  abbrev sizes : ℕ → ℕ
  sizes d = chunk_from scaled min_slab_chunk_size d

  larger : (d : ℕ) → 20 ≤ sizes d → d < n → sizes d < sizes (suc d)
  larger d least less =
      let (up, fits) = is.grows (sizes d) least (is.most d less) in
      omega
        (arith, up, chunk_from-suc scaled min_slab_chunk_size d, aligned-ge (scaled (sizes d)) fits)

  sizes-least : (d : ℕ) → d < n → 20 ≤ sizes d
  sizes-least zero less = aligned-ge min_slab_chunk_size (omega arith)
  sizes-least (suc d) less =
      let before = sizes-least d (omega (arith, less)) in
      omega (arith, before, larger d before (omega (arith, less)))

  sizes-grow : (i j : ℕ) → i < j → j < n → sizes i < sizes j
  sizes-grow i zero less inside = absurd (omega (arith, less))
  sizes-grow i (suc j) less inside =
      let step = larger j (sizes-least j (omega (arith, inside))) (omega (arith, inside)) in
      elim (Bool-cases (ltb i j)) [
        | inl h ↦
            let before = sizes-grow i j (ground (arith, h)) (omega (arith, inside)) in
            omega (arith, before, step)
        | inr h ↦
            let s : i ≡ j = ground (arith, h, less) in
            subst (λ x. sizes x < sizes (suc j)) (sym s) step
      ]

  -- The sizes and counts that the loop writes are what the allocator needs.
  pub init_caches-IsShape :
      (caches : ℕ → Cache) (count slabs : ℕ)
      → 0 < n
      → n < int_max
      → count < 4096
      → let new = init_caches scaled n 0 min_slab_chunk_size caches in
        IsShape (record {
          cache_count = n;
          size = λ c. (new c).chunk_size;
          chunks = λ c. (new c).chunk_count_perslab;
          count = count;
          slabs = slabs;
        })
  init_caches-IsShape caches count slabs pos small few =
      let new = init_caches scaled n 0 min_slab_chunk_size caches in
      let at : (d : ℕ)
          → d < n
          → ((new d).chunk_size ≡ sizes d) × ((new d).chunk_count_perslab ≡ slab_size / sizes d) =
        λ d less.
          let zero_add : 0 + d ≡ d = omega arith in
          subst
            (λ x.
              ((new x).chunk_size ≡ sizes d) × ((new x).chunk_count_perslab ≡ slab_size / sizes d))
            zero_add (init_caches-at scaled n 0 min_slab_chunk_size caches d less) in
      record {
        grows = λ i j less inside. omega (
          arith,
          (at i (omega (arith, less, inside))).0,
          (at j inside).0,
          sizes-grow i j less inside,
        );
        some_cache = pos;
        few_caches = small;
        least = λ c inside. omega (arith, (at c inside).0, sizes-least c inside);
        most = λ c inside. omega (arith, (at c inside).0, is.most c inside);
        fill = λ c inside. (at c inside).1 ∙ ap (λ x. slab_size / x) (sym (at c inside).0);
        few_slabs = few;
      }
