-- ===== src/Slab/Valid/Chunk.antt =====
-- A chunk is taken from the first partial slab of a cache.
use lightcache.Base.{
  u32, ℕ, ◌+◌, ◌-◌, ◌<◌, ◌≡◌, ◌≢◌, ◌∙◌, ap, refl, sym, inl, inr, Bool, true, false, List, [], ◌∷◌,
  Option, none, some, arith, ltb, ◌==◌, ==_iff, Bool-cases, some-injective, if◌then◌else◌,
}
use mathlib.Core.Path.{subst}
use lightcache.Base.Run.{ok}
use lightcache.Base.Sums.{sum, sum_change}
use lightcache.Slab.Bitset.{Bitset, bit_count, IsBitset, slot, ff_setbit, clear_bit}
use lightcache.Slab.Bitset.Words.{clear_bit-Returns}
use lightcache.Slab.Bitset.Search.{IsFirstSet, ff_setbit-IsFirstSet}
use lightcache.Slab.Links.{SlabCtl, Ctls, Links, pop_and_push}
use lightcache.Slab.Links.Chain.{first}
use lightcache.Slab.Links.Bypass.{erase, Member}
use lightcache.Slab.Links.Move.{Moved, pop_and_push_first}
use lightcache.Slab.Manager.{Cache, Manager, SlabStats, set_cache}
use lightcache.Slab.Alloc.{move_if_full}
use lightcache.Slab.Places.{Place, free, partial, full, Lists-Apart}
use lightcache.Slab.Valid.{
  Shape, shape_of, IsShape, links_of, taken, IsSpare, Fits, IsSlab, IsState, IsAlloc,
}
use lightcache.Slab.Valid.Chunks.{chunks-le, free_chunk}
use lightcache.Slab.Valid.Change.{set_cache_other, set_cache_same, shape_set, update-same}
use lightcache.Slab.Valid.Rewrite.{
  IsRewrite, Writes, h₁, h₁-Writes, lists₁, stays, moved-Writes, moves,
}

-- The slots after slot `k` has been taken.
pub record IsCleared (bts bts' : Bitset) (k : ℕ) : Type 0 where
  pub bitset : IsBitset bts'
  pub inside : k < bit_count
  pub was : slot bts k ≡ 1
  pub here : slot bts' k ≡ 0
  pub others : (l : ℕ) → l ≢ k → slot bts' l ≡ slot bts l

IsCleared-counted :
    (bts bts' : Bitset) (k : ℕ)
    → IsCleared bts bts' k
    → sum (taken bts') bit_count ≡ sum (taken bts) bit_count + 1
IsCleared-counted bts bts' k is = omega (
  arith,
  is.was,
  is.here,
  sum_change (taken bts) (taken bts') bit_count k is.inside
      (λ l ne. ap (λ x. 1 - x) (is.others l ne)),
)

-- A slab with fewer allocated chunks than it has gives the first free one of them.
take_slot :
    (sh : Shape) (is : IsShape sh) (c : ℕ) (inside : c < sh.cache_count) (bts : Bitset) (n : ℕ)
    → IsBitset bts
    → n < sh.chunks c
    → n ≡ sum (taken bts) bit_count
    → (k : ℕ) × (bts' : Bitset) × (ff_setbit bts ≡ some k)
      × (k < sh.chunks c)
      × (clear_bit bts k ≡ ok bts')
      × IsCleared bts bts' k
take_slot sh is c inside bts n valid less counted =
    by_search (ff_setbit bts) refl (ff_setbit-IsFirstSet bts valid)
  where
    by_search :
        (o : Option ℕ)
        → ff_setbit bts ≡ o
        → IsFirstSet bts o
        → (k : ℕ) × (bts' : Bitset) × (ff_setbit bts ≡ some k)
          × (k < sh.chunks c)
          × (clear_bit bts k ≡ ok bts')
          × IsCleared bts bts' k
    by_search none e all = absurd (free_chunk sh is c inside bts n less counted (λ k l. all k))
    by_search (some k) e (_, set_k, before) =
        let low : k < sh.chunks c = elim (Bool-cases (ltb k (sh.chunks c))) [
          | inl h ↦ ground (arith, h)
          | inr h ↦ absurd (
              free_chunk sh is c inside bts n less counted (λ q l. before q (ground (arith, h, l))))
        ] in
        let fits : k < bit_count = omega (arith, low, chunks-le sh is c inside) in
        let (bts', run, (valid', bits)) = clear_bit-Returns valid k fits in
        (
          k,
          bts',
          e,
          low,
          run,
          record {
            bitset = valid';
            inside = fits;
            was = set_k;
            here = bits k ∙ (let s : k == k ≡ true = ground arith in rw s);
            others = λ l ne. bits l ∙ (let s : l == k ≡ false = ground (arith, ne) in rw s);
          },
        )

module _ (m : Manager) (stats : SlabStats) (is : IsAlloc m stats) (c : ℕ)
    (inside : c < m.cache_count) (i : ℕ) (front : (m.caches c).slabs_partial.head ≡ some i) where
  abbrev pub sh : Shape
  sh = shape_of m

  abbrev pub h : Ctls
  h = m.slab_ctls

  abbrev pub state : IsState sh h (links_of m)
  state = is.state

  starts : (xs : List ℕ) → first xs ≡ some i → (rest : List ℕ) × (xs ≡ i ∷ rest)
  starts [] e = absurd (ground (arith, e))
  starts (x ∷ xs) e = (xs, ap (λ y. y ∷ xs) (some-injective e))

  in_partial : (rest : List ℕ) × (state.seq (partial c) ≡ i ∷ rest)
  in_partial = starts (state.seq (partial c)) (sym (state.lists.rep (partial c)).head ∙ front)

  pub at_home : (i < m.slabctl_count) × (state.home i ≡ partial c)
  at_home = state.lists.at i (partial c) (subst (Member i) (sym in_partial.1) (inl refl))

  pub old : IsSlab sh (h i) i (partial c)
  old = subst (IsSlab sh (h i) i) at_home.1 (state.slabs i at_home.0)

  pub slot_of :
      (k : ℕ) × (bts' : Bitset) × (ff_setbit (h i).slots ≡ some k)
      × (k < sh.chunks c)
      × (clear_bit (h i).slots k ≡ ok bts')
      × IsCleared (h i).slots bts' k
  slot_of = take_slot sh is.shape c inside (h i).slots (h i).nused old.bitset old.fits.2 old.counted

  module _ (k : ℕ) (bts' : Bitset) (low : k < sh.chunks c)
      (cleared : IsCleared (h i).slots bts' k) where
    abbrev pub ctl' : SlabCtl
    ctl' = record (h i) { slots = bts'; nused = u32 ((h i).nused + 1) }

    pub nused' : u32 ((h i).nused + 1) ≡ (h i).nused + 1
    nused' = omega (arith, old.fits.2, chunks-le sh is.shape c inside)

    spare : IsSpare (sh.chunks c) bts'
    spare l high below =
        cleared.others l (λ s. absurd (omega (arith, s, high, low))) ∙ old.fits.3 l high below

    pub rewrite : IsRewrite (h i) ctl'
    rewrite = record {
      nindex = refl;
      next = refl;
      prev = refl;
      cache = refl;
      bitset = cleared.bitset;
      counted = nused' ∙ omega (arith, old.counted, IsCleared-counted (h i).slots bts' k cleared);
    }

    abbrev pub m₁ : Manager
    m₁ = record m { slab_ctls = h₁ m stats is i at_home.0 ctl' rewrite }

    -- The chunk is taken from slab `i`, which is then in the right list.
    pub record Takes (m' : Manager) : Type 0 where
      pub state' : IsState sh m'.slab_ctls (links_of m')
      pub writes : Writes h i ctl' m'.slab_ctls
      pub shape' : shape_of m' ≡ shape_of m

    stays_partial : (h i).nused + 1 < sh.chunks c → Takes m₁
    stays_partial less = record {
      state' = stays m stats is i at_home.0 ctl' rewrite (
          subst (Fits sh ctl') (sym at_home.1)
            (inside, old.fits.1, omega (arith, less, nused'), spare));
      writes = h₁-Writes m stats is i at_home.0 ctl' rewrite;
      shape' = refl;
    }

    abbrev moved_links : Ctls × Links × Links × Bool
    moved_links = pop_and_push m₁.slab_ctls (m.caches c).slabs_partial (m.caches c).slabs_full

    abbrev new_cache : Cache
    new_cache = record (m.caches c) { slabs_partial = moved_links.1; slabs_full = moved_links.2 }

    abbrev m₂ : Manager
    m₂ = record m₁ { slab_ctls = moved_links.0; caches = set_cache m.caches c new_cache }

    ne : partial c ≢ full c
    ne e = cc

    moved :
        Moved m₁.slab_ctls
          (state.seq (partial c))
          (state.seq (full c))
          (erase i (state.seq (partial c)))
          (i ∷ state.seq (full c))
          m₂.slab_ctls
          (links_of m₂ (partial c))
          (links_of m₂ (full c))
    moved =
        let lists = lists₁ m stats is i at_home.0 ctl' rewrite in
        subst
          (λ (x : Cache).
            Moved m₁.slab_ctls (state.seq (partial c)) (state.seq (full c))
              (erase i (state.seq (partial c))) (i ∷ state.seq (full c)) moved_links.0
              x.slabs_partial x.slabs_full)
          (sym (set_cache_same m.caches c new_cache))
          (pop_and_push_first m₁.slab_ctls (m.caches c).slabs_partial (m.caches c).slabs_full i
            in_partial.0 (state.seq (full c)) (state.seq (partial c)) in_partial.1
            (lists.rep (partial c)) (lists.rep (full c))
            (Lists-Apart m.slabctl_count m₁.slab_ctls (links_of m) state.seq state.home lists
              (partial c) (full c) ne))

    others : (r : Place) → r ≢ partial c → r ≢ full c → links_of m₂ r ≡ links_of m r
    others free np nf = refl
    others (partial d) np nf =
        ap (λ (x : Cache). x.slabs_partial)
          (set_cache_other m.caches c d new_cache (λ s. np (ap partial s)))
    others (full d) np nf =
        ap (λ (x : Cache). x.slabs_full)
          (set_cache_other m.caches c d new_cache (λ s. nf (ap full s)))

    -- `moved`, with the list of slab `i` as its home
    moved' :
        Moved m₁.slab_ctls
          (state.seq (state.home i))
          (state.seq (full c))
          (erase i (state.seq (state.home i)))
          (i ∷ state.seq (full c))
          m₂.slab_ctls
          (links_of m₂ (state.home i))
          (links_of m₂ (full c))
    moved' =
        subst
          (λ r.
            Moved m₁.slab_ctls (state.seq r) (state.seq (full c)) (erase i (state.seq r))
              (i ∷ state.seq (full c)) m₂.slab_ctls (links_of m₂ r) (links_of m₂ (full c)))
          (sym at_home.1) moved

    becomes_full : (h i).nused + 1 ≡ sh.chunks c → Takes m₂
    becomes_full e =
        let ne' : state.home i ≢ full c = λ s. ne (sym at_home.1 ∙ s) in
        record {
          state' =
              moves m stats is i at_home.0 ctl' rewrite (full c) ne' m₂.slab_ctls (links_of m₂)
                moved' (inside, old.fits.1, nused' ∙ e, spare)
                (λ r np nf. others r (λ s. np (s ∙ sym at_home.1)) nf);
          writes =
              moved-Writes m stats is i at_home.0 ctl' rewrite (full c) ne' m₂.slab_ctls
                (links_of m₂) moved';
          shape' = shape_set m moved_links.0 m.slabs_free c new_cache refl refl;
        }

    count₁ : (m₁.slab_ctls i).nused ≡ (h i).nused + 1
    count₁ = ap (λ (x : SlabCtl). x.nused) (update-same h i ctl') ∙ nused'

    pub takes : Takes (move_if_full m₁ c i)
    unfolding move_if_full
    takes = elim (Bool-cases ((m₁.slab_ctls i).nused == sh.chunks c)) [
      | inl e ↦
          subst Takes (sym (ap (λ b. if b then m₂ else m₁) e))
            (becomes_full (sym count₁ ∙ (==_iff _ (sh.chunks c)).0 e))
      | inr e ↦
          let more : (h i).nused + 1 ≢ sh.chunks c = λ s. absurd (ground (arith, e, count₁ ∙ s)) in
          subst Takes (sym (ap (λ b. if b then m₂ else m₁) e))
            (stays_partial (ground (arith, old.fits.2, more)))
    ]
