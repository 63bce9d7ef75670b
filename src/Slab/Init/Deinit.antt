-- ===== src/Slab/Init/Deinit.antt =====
-- `deinit_cache_manager` on the error path: every block that was allocated is given back.
use lightcache.Base.{
  u64, ℕ, ◌+◌, ◌-◌, ◌^◌, ◌<◌, ◌≡◌, refl, ap, true, false, List, [], ◌∷◌, Option, none, some, arith,
  ◌==◌,
}
use lightcache.Base.Run.{ok, Returns}
use lightcache.Slab.Links.{Ptr}
use lightcache.Slab.Manager.{Manager, SlabStats}
use lightcache.Slab.Init.Setup.{
  Block, Setup, with_stats, block_size, without_block, freei, free_some, deinit_cache_manager, err,
}

-- No cache manager, and no block of it.
pub record IsIdle (s : Setup) : Type 0 where
  pub cm_ptr : s.cm_ptr ≡ none
  pub cm : s.slabs.cm ≡ none
  pub blocks : s.blocks ≡ []
  pub mallocd : s.slabs.slab_stats.mem_mallocd ≡ 0
  pub used : s.slabs.slab_stats.mem_used ≡ 0

abbrev pub state : Option Manager → SlabStats → List Block → Ptr → Ptr → Ptr → Ptr → Setup
state cm stats bs p q r x = record {
  slabs = record { cm = cm; slab_stats = stats };
  blocks = bs;
  cm_ptr = p;
  caches_ptr = q;
  ctls_ptr = r;
  slabs_ptr = x;
}

-- The error path ends with `false` in an idle state.
abbrev pub Undone : Setup → Type 0
Undone s = Returns (err s) λ r. (r.1 ≡ false) × IsIdle r.0

-- What is left of the count of allocated bytes, when a block of `n` bytes is given back.
abbrev less : ℕ → ℕ → ℕ
less total n = u64 (total + 2 ^ 64 - n)

abbrev left_stats : SlabStats → ℕ → SlabStats
left_stats stats left = record stats { mem_mallocd = left }

freei_lem :
    (s : Setup) (p n : ℕ) (bs : List Block)
    → block_size s.blocks p ≡ some n
    → without_block s.blocks p ≡ bs
    → freei s (some p)
      ≡ ok
          (record (with_stats s
            (left_stats s.slabs.slab_stats (less s.slabs.slab_stats.mem_mallocd n))) {
              blocks = bs;
            })
unfolding freei
freei_lem s p n bs size rest = rw (freei, size, rest)

-- The state after `deinit_cache_manager`, if the last block left `s`.
abbrev undone : Setup → Setup
undone s =
    state none
      (record (s.slabs.slab_stats) {
        mem_used_metadata = 0;
        mem_used = 0;
        mem_limit = 0;
        cache_count = 0;
        slab_count = 0;
      })
      s.blocks none none none none

deinit_lem :
    (s s₁ s₂ s₃ s₄ : Setup) (p : ℕ)
    → s.cm_ptr ≡ some p
    → free_some s s.caches_ptr ≡ ok s₁
    → free_some s₁ s.ctls_ptr ≡ ok s₂
    → free_some s₂ s.slabs_ptr ≡ ok s₃
    → freei s₃ (some p) ≡ ok s₄
    → s₄.slabs.slab_stats.mem_mallocd ≡ 0
    → s₄.blocks ≡ []
    → Undone s
unfolding err deinit_cache_manager
deinit_lem s s₁ s₂ s₃ s₄ p has e₁ e₂ e₃ e₄ zero_left no_blocks =
    let test : s₄.slabs.slab_stats.mem_mallocd == 0 ≡ true = ground (arith, zero_left) in
    (
      (undone s₄, false),
      rw (err, deinit_cache_manager, has, e₁, e₂, e₃, e₄, test),
      (
        refl,
        record { cm_ptr = refl; cm = refl; blocks = no_blocks; mallocd = zero_left; used = refl },
      ),
    )

own_block :
    (p a : ℕ) (bs : List Block)
    → (block_size ((p, a) ∷ bs) p ≡ some a) × (without_block ((p, a) ∷ bs) p ≡ bs)
own_block p a bs = let e : p == p ≡ true = ground arith in (rw e, rw e)

other_block :
    (p q b n : ℕ) (bs bs' : List Block)
    → q == p ≡ false
    → block_size bs p ≡ some n
    → without_block bs p ≡ bs'
    → (block_size ((q, b) ∷ bs) p ≡ some n) × (without_block ((q, b) ∷ bs) p ≡ (q, b) ∷ bs')
other_block p q b n bs bs' ne size rest = (rw ne size, rw ne (ap (λ x. (q, b) ∷ x) rest))

module _ (cm : Option Manager) (stats : SlabStats) (p a : ℕ) where
  abbrev at_stats : ℕ → SlabStats
  at_stats = left_stats stats

  pub err_caches :
      a < 2 ^ 64
      → stats.mem_mallocd ≡ a
      → Undone (state cm stats ((p, a) ∷ []) (some p) none none none)
  unfolding free_some
  err_caches fits total =
      let s = state cm stats ((p, a) ∷ []) (some p) none none none in
      let (size, rest) = own_block p a [] in
      deinit_lem s s s s (state cm (at_stats (less stats.mem_mallocd a)) [] (some p) none none none)
        p refl refl refl refl (freei_lem s p a [] size rest) (omega (arith, total, fits)) refl

  module _ (q b : ℕ) where
    pub err_ctls :
        a + b < 2 ^ 64
        → stats.mem_mallocd ≡ a + b
        → Undone (state cm stats ((q, b) ∷ (p, a) ∷ []) (some p) (some q) none none)
    unfolding free_some
    err_ctls fits total =
        let left = less stats.mem_mallocd b in
        let s = state cm stats ((q, b) ∷ (p, a) ∷ []) (some p) (some q) none none in
        let s₁ = state cm (at_stats left) ((p, a) ∷ []) (some p) (some q) none none in
        let (size, rest) = own_block q b ((p, a) ∷ []) in
        let (size', rest') = own_block p a [] in
        deinit_lem s s₁ s₁ s₁ (state cm (at_stats (less left a)) [] (some p) (some q) none none) p
          refl (freei_lem s q b ((p, a) ∷ []) size rest) refl refl (freei_lem s₁ p a [] size' rest')
          (omega (arith, total, fits)) refl

    pub err_slabs :
        (r c : ℕ)
        → r == q ≡ false
        → a + b + c < 2 ^ 64
        → stats.mem_mallocd ≡ a + b + c
        → Undone (state cm stats ((r, c) ∷ (q, b) ∷ (p, a) ∷ []) (some p) (some q) (some r) none)
    unfolding free_some
    err_slabs r c ne fits total =
        let left = less stats.mem_mallocd b in
        let left' = less left c in
        let s = state cm stats ((r, c) ∷ (q, b) ∷ (p, a) ∷ []) (some p) (some q) (some r) none in
        let s₁ = state cm (at_stats left) ((r, c) ∷ (p, a) ∷ []) (some p) (some q) (some r) none in
        let s₂ = state cm (at_stats left') ((p, a) ∷ []) (some p) (some q) (some r) none in
        let (size₀, rest₀) = own_block q b ((p, a) ∷ []) in
        let (size, rest) =
          other_block q r c b ((q, b) ∷ (p, a) ∷ []) ((p, a) ∷ []) ne size₀ rest₀ in
        let (size', rest') = own_block r c ((p, a) ∷ []) in
        let (size'', rest'') = own_block p a [] in
        deinit_lem s s₁ s₂ s₂
          (state cm (at_stats (less left' a)) [] (some p) (some q) (some r) none) p refl
          (freei_lem s q b ((r, c) ∷ (p, a) ∷ []) size rest)
          (freei_lem s₁ r c ((p, a) ∷ []) size' rest') refl (freei_lem s₂ p a [] size'' rest'')
          (omega (arith, total, fits)) refl
