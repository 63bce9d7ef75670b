-- ===== src/Slab/Valid/Rewrite.antt =====
-- The slots of one slab change, and the slab stays in its list or moves to another.
use lightcache.Base.{
  ℕ, ◌+◌, ◌*◌, ◌<◌, ◌≡◌, ◌≢◌, ◌⊎◌, ◌∙◌, ap, refl, sym, inl, inr, true, false, ◌∷◌, arith, ◌==◌,
  ==_iff, Bool-cases,
}
use mathlib.Core.Path.{subst}
use lightcache.Base.Sums.{sum, sum_change}
use lightcache.Slab.Bitset.{bit_count, IsBitset, slot}
use lightcache.Slab.Links.{SlabCtl, Ctls, Links, update}
use lightcache.Slab.Links.Bypass.{erase}
use lightcache.Slab.Links.Move.{Moved}
use lightcache.Slab.Manager.{Manager, SlabStats}
use lightcache.Slab.Places.{Place, Lists, Lists-moved, Lists-links, moved_seq, moved_home}
use lightcache.Slab.Valid.{
  Shape, shape_of, links_of, taken, Fits, IsSlab, IsState, size_at, weight, IsAlloc, IsLive,
  SameData, IsSlab-same, slabs-IsSlab,
}
use lightcache.Slab.Valid.Change.{weight-same, update-links, update-same, update-other}

same_data : (a b : SlabCtl) → b ≡ a → SameData a b
same_data a b e = record {
  nused = ap (λ (x : SlabCtl). x.nused) e;
  nindex = ap (λ (x : SlabCtl). x.nindex) e;
  slots = ap (λ (x : SlabCtl). x.slots) e;
  cache = ap (λ (x : SlabCtl). x.cache) e;
}

-- A new control for slab `i`, with the links of the old one.
pub record IsRewrite (ctl ctl' : SlabCtl) : Type 0 where
  pub nindex : ctl'.nindex ≡ ctl.nindex
  pub next : ctl'.next ≡ ctl.next
  pub prev : ctl'.prev ≡ ctl.prev
  pub cache : ctl'.cache ≡ ctl.cache
  pub bitset : IsBitset ctl'.slots
  pub counted : ctl'.nused ≡ sum (taken ctl'.slots) bit_count

-- All slabs but `i` keep their data, and slab `i` has that of `ctl'`.
pub record Writes (h : Ctls) (i : ℕ) (ctl' : SlabCtl) (h' : Ctls) : Type 0 where
  pub others : (j : ℕ) → j ≢ i → SameData (h j) (h' j)
  pub here : SameData ctl' (h' i)

module _ (m : Manager) (stats : SlabStats) (is : IsAlloc m stats) (i : ℕ)
    (below : i < m.slabctl_count) (ctl' : SlabCtl) (rewrite : IsRewrite (m.slab_ctls i) ctl') where
  abbrev sh : Shape
  sh = shape_of m

  abbrev h : Ctls
  h = m.slab_ctls

  abbrev state : IsState sh h (links_of m)
  state = is.state

  abbrev p : Place
  p = state.home i

  old : IsSlab sh (h i) i p
  old = state.slabs i below

  abbrev pub h₁ : Ctls
  h₁ = update h i ctl'

  pub h₁-Writes : Writes h i ctl' h₁
  h₁-Writes = record {
    others = λ j ne. same_data (h j) (h₁ j) (update-other h i j ctl' ne);
    here = same_data ctl' (h₁ i) (update-same h i ctl');
  }

  pub lists₁ : Lists m.slabctl_count h₁ (links_of m) state.seq state.home
  lists₁ =
      Lists-links m.slabctl_count h h₁ (links_of m) state.seq state.home
        (update-links h i ctl' rewrite.next rewrite.prev) state.lists

  new : (h' : Ctls) (q : Place) → Writes h i ctl' h' → Fits sh ctl' q → IsSlab sh (h' i) i q
  new h' q w fits = IsSlab-same sh ctl' (h' i) i q w.here (record {
    nindex = rewrite.nindex ∙ old.nindex;
    bitset = rewrite.bitset;
    counted = rewrite.counted;
    fits = fits;
  })

  pub stays : Fits sh ctl' p → IsState sh h₁ (links_of m)
  stays fits = record {
    seq = state.seq;
    home = state.home;
    lists = lists₁;
    slabs =
        slabs-IsSlab sh h h₁ state.home state.home i state.slabs
          (λ j ne. (h₁-Writes.others j ne, refl)) (new h₁ p h₁-Writes fits);
  }

  module _ (q : Place) (ne : p ≢ q) (h' : Ctls) (links' : Place → Links)
      (moved : Moved h₁
        (state.seq p)
        (state.seq q)
        (erase i (state.seq p))
        (i ∷ state.seq q)
        h'
        (links' p)
        (links' q)) where
    pub moved-Writes : Writes h i ctl' h'
    moved-Writes = record {
      others = λ j n.
          let s = h₁-Writes.others j n in
          record {
            nused = moved.nused j ∙ s.nused;
            nindex = moved.nindex j ∙ s.nindex;
            slots = moved.slots j ∙ s.slots;
            cache = moved.cache j ∙ s.cache;
          };
      here =
          let s = h₁-Writes.here in
          record {
            nused = moved.nused i ∙ s.nused;
            nindex = moved.nindex i ∙ s.nindex;
            slots = moved.slots i ∙ s.slots;
            cache = moved.cache i ∙ s.cache;
          };
    }

    pub moves :
        Fits sh ctl' q
        → ((r : Place) → r ≢ p → r ≢ q → links' r ≡ links_of m r)
        → IsState sh h' links'
    moves fits others =
        let home' = moved_home state.home q i in
        let self : home' i ≡ q = (let e : i == i ≡ true = ground arith in rw e) in
        record {
          seq = moved_seq state.seq p q i;
          home = home';
          lists =
              Lists-moved m.slabctl_count h₁ (links_of m) state.seq state.home lists₁ h' links' p q
                i ne (state.lists.owned i below) moved others;
          slabs =
              slabs-IsSlab sh h h' state.home home' i state.slabs
                (λ j n.
                  (moved-Writes.others j n, (let e : j == i ≡ false = ground (arith, n) in rw e)))
                (subst (IsSlab sh (h' i) i) (sym self) (new h' q moved-Writes fits));
        }

  -- The bytes of slab `i` change, those of the others do not.
  pub bytes :
      (h' : Ctls)
      → Writes h i ctl' h'
      → sum (weight sh h') m.slabctl_count + (h i).nused * size_at sh (h i).cache
        ≡ sum (weight sh h) m.slabctl_count + ctl'.nused * size_at sh (h i).cache
  bytes h' w =
      let here : weight sh h' i ≡ ctl'.nused * size_at sh (h i).cache =
        λ t. w.here.nused t * size_at sh ((w.here.cache ∙ rewrite.cache) t) in
      omega (
        arith,
        here,
        sum_change (weight sh h) (weight sh h') m.slabctl_count i below
            (λ j n. weight-same sh h h' j (w.others j n)),
      )

  -- Chunks of other slabs stay as they are.
  live_elsewhere :
      (m' : Manager)
      → shape_of m' ≡ shape_of m
      → Writes h i ctl' m'.slab_ctls
      → (d j k : ℕ) → j ≢ i
      → (IsLive m d j k → IsLive m' d j k) × (IsLive m' d j k → IsLive m d j k)
  live_elsewhere m' shape w d j k ne =
      let s = w.others j ne in
      let count : m'.slabctl_count ≡ m.slabctl_count = ap (λ (x : Shape). x.count) shape in
      (
        (λ live. record {
          inside = omega (arith, live.inside, count);
          owner = s.cache ∙ live.owner;
          allocated = ap (λ b. slot b k) s.slots ∙ live.allocated;
          below = live.below;
        }),
        (λ live. record {
          inside = omega (arith, live.inside, count);
          owner = sym s.cache ∙ live.owner;
          allocated = sym (ap (λ b. slot b k) s.slots) ∙ live.allocated;
          below = live.below;
        }),
      )

  live_here :
      (m' : Manager)
      → shape_of m' ≡ shape_of m
      → Writes h i ctl' m'.slab_ctls
      → (d k : ℕ) → slot ctl'.slots k ≡ slot (h i).slots k
      → (IsLive m d i k → IsLive m' d i k) × (IsLive m' d i k → IsLive m d i k)
  live_here m' shape w d k same =
      let count : m'.slabctl_count ≡ m.slabctl_count = ap (λ (x : Shape). x.count) shape in
      let slots : slot (m'.slab_ctls i).slots k ≡ slot (h i).slots k =
        ap (λ b. slot b k) w.here.slots ∙ same in
      let owner : (m'.slab_ctls i).cache ≡ (h i).cache = w.here.cache ∙ rewrite.cache in
      (
        (λ live. record {
          inside = omega (arith, live.inside, count);
          owner = owner ∙ live.owner;
          allocated = slots ∙ live.allocated;
          below = live.below;
        }),
        (λ live. record {
          inside = omega (arith, live.inside, count);
          owner = sym owner ∙ live.owner;
          allocated = sym slots ∙ live.allocated;
          below = live.below;
        }),
      )

  -- If slot `k` alone changes, all other chunks stay as they are.
  pub live_but :
      (m' : Manager) (k : ℕ)
      → shape_of m' ≡ shape_of m
      → Writes h i ctl' m'.slab_ctls
      → ((l : ℕ) → l ≢ k → slot ctl'.slots l ≡ slot (h i).slots l)
      → (d j l : ℕ)
      → ((j ≡ i) × (l ≡ k))
        ⊎ ((IsLive m d j l → IsLive m' d j l) × (IsLive m' d j l → IsLive m d j l))
  live_but m' k shape w same d j l = elim (Bool-cases (j == i)) [
    | inr e ↦ inr (live_elsewhere m' shape w d j l (λ s. absurd (ground (arith, e, s))))
    | inl e ↦
        let s : j ≡ i = (==_iff j i).0 e in
        elim (Bool-cases (l == k)) [
          | inl f ↦ inl (s, (==_iff l k).0 f)
          | inr f ↦
              let ne : l ≢ k = λ x. absurd (ground (arith, f, x)) in
              inr (
                subst (λ x. (IsLive m d x l → IsLive m' d x l) × (IsLive m' d x l → IsLive m d x l))
                  (sym s) (live_here m' shape w d l (same l ne)))
        ]
  ]
