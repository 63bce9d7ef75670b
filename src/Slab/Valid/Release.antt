-- ===== src/Slab/Valid/Release.antt =====
-- The list that a slab is in after one of its chunks has been given back.
use lightcache.Base.{
  u32, ℕ, suc, ◌+◌, ◌-◌, ◌^◌, ◌<◌, ◌≤◌, ◌≡◌, ◌≢◌, ◌∙◌, ap, refl, sym, inl, inr, true, false, ◌∷◌,
  arith, length, ◌==◌, ==_iff, Bool-cases, if◌then◌else◌,
}
use mathlib.Core.Path.{subst}
use lightcache.Base.Run.{Run, ok, assert, ◌>>=◌, ◌>>◌, Returns}
use lightcache.Base.Sums.{term_le-sum}
use lightcache.Slab.Bitset.{Bitset, bit_count}
use lightcache.Slab.Links.{SlabCtl, Ctls, Links, rem_and_push}
use lightcache.Slab.Links.Chain.{Absent}
use lightcache.Slab.Links.Bypass.{erase, Member, Absent-ne}
use lightcache.Slab.Links.Move.{Moved, rem_and_push-Moved}
use lightcache.Slab.Links.Remove.{rem-Absent}
use lightcache.Slab.Manager.{Cache, Manager, SlabStats, set_cache}
use lightcache.Slab.Alloc.{set_partial, to_free, to_partial}
use lightcache.Slab.Places.{Place, free, partial, full, Lists, Lists-Apart}
use lightcache.Slab.Places.Bound.{length-Distinct}
use lightcache.Slab.Valid.{
  Shape, shape_of, links_of, taken, IsSpare, Fits, IsSlab, IsState, IsAlloc, IsLive,
}
use lightcache.Slab.Valid.Chunks.{chunks-pos, chunks-le}
use lightcache.Slab.Valid.Change.{set_cache_chunks, set_cache_same, shape_set}
use lightcache.Slab.Valid.Rewrite.{
  IsRewrite, Writes, h₁, h₁-Writes, lists₁, stays, moved-Writes, moves,
}
use lightcache.Slab.Valid.Owner.{IsOwned, IsSlab-IsOwned, IsReturned}

-- A list keeps its ends if the ones written in its place are the same.
links_kept :
    (m : Manager) (h' : Ctls) (free' : Links) (c : ℕ) (new : Cache) (s : Place)
    → (s ≡ free → free' ≡ m.slabs_free)
    → (s ≡ partial c → new.slabs_partial ≡ (m.caches c).slabs_partial)
    → (s ≡ full c → new.slabs_full ≡ (m.caches c).slabs_full)
    → links_of
        (record m { slab_ctls = h'; slabs_free = free'; caches = set_cache m.caches c new })
        s
      ≡ links_of m s
links_kept m h' free' c new free at_free at_partial at_full = at_free refl
links_kept m h' free' c new (partial d) at_free at_partial at_full = elim (Bool-cases (d == c)) [
  | inl e ↦
      let s : d ≡ c = (==_iff d c).0 e in
      rw (links_of, e) (at_partial (ap partial s) ∙ ap (λ x. (m.caches x).slabs_partial) (sym s))
  | inr e ↦ rw (links_of, e) refl
]
links_kept m h' free' c new (full d) at_free at_partial at_full = elim (Bool-cases (d == c)) [
  | inl e ↦
      let s : d ≡ c = (==_iff d c).0 e in
      rw (links_of, e) (at_full (ap full s) ∙ ap (λ x. (m.caches x).slabs_full) (sym s))
  | inr e ↦ rw (links_of, e) refl
]

module _ (m : Manager) (stats : SlabStats) (is : IsAlloc m stats) (c i k : ℕ)
    (live : IsLive m c i k) where
  abbrev pub sh : Shape
  sh = shape_of m

  abbrev pub h : Ctls
  h = m.slab_ctls

  abbrev state : IsState sh h (links_of m)
  state = is.state

  abbrev p : Place
  p = state.home i

  pub old : IsSlab sh (h i) i p
  old = state.slabs i live.inside

  pub owned : IsOwned sh (h i) p c k
  owned = IsSlab-IsOwned sh (h i) i p c k old live.owner live.allocated live.below

  pub some_used : 1 ≤ (h i).nused
  some_used =
      omega
        (arith, live.allocated, old.counted, term_le-sum (taken (h i).slots) bit_count k live.below)

  pub used-le : (h i).nused ≤ sh.chunks c
  used-le = elim owned.list [
    | inl (_, less) ↦ omega (arith, less)
    | inr (_, same) ↦ omega (arith, same)
  ]

  pub fewer : u32 ((h i).nused + 2 ^ 32 - 1) ≡ (h i).nused - 1
  fewer = omega (arith, some_used, used-le, chunks-le sh is.shape c owned.inside)

  module _ (bts' : Bitset) (returned : IsReturned (h i).slots bts' k) where
    abbrev pub ctl' : SlabCtl
    ctl' = record (h i) { slots = bts'; nused = u32 ((h i).nused + 2 ^ 32 - 1) }

    spare : IsSpare (sh.chunks c) bts'
    spare l high below =
        returned.others l (λ s. absurd (omega (arith, s, high, owned.low)))
        ∙ owned.spare l high below

    pub rewrite : IsRewrite (h i) ctl'
    rewrite = record {
      nindex = refl;
      next = refl;
      prev = refl;
      cache = refl;
      bitset = returned.bitset;
      counted = fewer ∙ omega (arith, old.counted, returned.count);
    }

    abbrev pub m₁ : Manager
    m₁ = record m { slab_ctls = h₁ m stats is i live.inside ctl' rewrite }

    -- The chunk is given back to slab `i`, which is then in the right list.
    pub record Releases (m' : Manager) : Type 0 where
      pub state' : IsState sh m'.slab_ctls (links_of m')
      pub writes : Writes h i ctl' m'.slab_ctls
      pub shape' : shape_of m' ≡ shape_of m

    lists : Lists m.slabctl_count m₁.slab_ctls (links_of m) state.seq state.home
    lists = lists₁ m stats is i live.inside ctl' rewrite

    short : (q : Place) → length (state.seq q) < suc m.slabctl_count
    short q = omega (
      arith,
      length-Distinct m.slabctl_count (state.seq q) (lists.rep q).distinct
          (λ x s. (lists.at x q s).0),
    )

    -- `rem_and_push` from the list of the slab to another.
    removed :
        (q r : Place)
        → p ≡ q
        → q ≢ r
        → Returns
            (rem_and_push (suc m.slabctl_count) m₁.slab_ctls (links_of m q) (links_of m r) i)
            λ x.
              (x.3 ≡ true)
              × Moved m₁.slab_ctls
                  (state.seq q)
                  (state.seq r)
                  (erase i (state.seq q))
                  (i ∷ state.seq r)
                  x.0
                  x.1
                  x.2
    removed q r e ne =
        rem_and_push-Moved (suc m.slabctl_count) m₁.slab_ctls (links_of m q) (links_of m r) i
          (state.seq q) (state.seq r) (lists.rep q) (lists.rep r)
          (Lists-Apart m.slabctl_count m₁.slab_ctls (links_of m) state.seq state.home lists q r ne)
          (subst (λ x. Member i (state.seq x)) e (state.lists.owned i live.inside)) (short q)

    -- What `Moved` makes of the slab lists, if the new ones are in place.
    relisted :
        (q r : Place) (h' : Ctls) (src dest free' : Links) (new : Cache)
        → p ≡ q
        → q ≢ r
        → Moved m₁.slab_ctls
            (state.seq q)
            (state.seq r)
            (erase i (state.seq q))
            (i ∷ state.seq r)
            h'
            src
            dest
        → let m' = record m {
          slab_ctls = h';
          slabs_free = free';
          caches = set_cache m.caches c new;
        } in
          (links_of m' q ≡ src)
          → (links_of m' r ≡ dest)
          → ((s : Place) → s ≢ q → s ≢ r → links_of m' s ≡ links_of m s)
          → Fits sh ctl' r
          → new.chunk_size ≡ (m.caches c).chunk_size
          → new.chunk_count_perslab ≡ (m.caches c).chunk_count_perslab
          → Releases m'
    relisted q r h' src dest free' new e ne moved at_q at_r others fits size chunks =
        let m' = record m {
          slab_ctls = h';
          slabs_free = free';
          caches = set_cache m.caches c new;
        } in
        let at_lists : Moved m₁.slab_ctls (state.seq q) (state.seq r) (erase i (state.seq q))
            (i ∷ state.seq r) h' (links_of m' q) (links_of m' r) =
          subst
            (λ x.
              Moved m₁.slab_ctls (state.seq q) (state.seq r) (erase i (state.seq q))
                (i ∷ state.seq r) h' x (links_of m' r))
            (sym at_q)
            (subst
              (Moved m₁.slab_ctls (state.seq q) (state.seq r) (erase i (state.seq q))
                (i ∷ state.seq r) h' src)
              (sym at_r) moved) in
        let at_home : Moved m₁.slab_ctls (state.seq p) (state.seq r) (erase i (state.seq p))
            (i ∷ state.seq r) h' (links_of m' p) (links_of m' r) =
          subst
            (λ x.
              Moved m₁.slab_ctls (state.seq x) (state.seq r) (erase i (state.seq x))
                (i ∷ state.seq r) h' (links_of m' x) (links_of m' r))
            (sym e) at_lists in
        let ne' : p ≢ r = λ s. ne (sym e ∙ s) in
        record {
          state' =
              moves m stats is i live.inside ctl' rewrite r ne' h' (links_of m') at_home fits
                (λ s np nr. others s (λ x. np (x ∙ sym e)) nr);
          writes =
              moved-Writes m stats is i live.inside ctl' rewrite r ne' h' (links_of m') at_home;
          shape' = shape_set m h' free' c new size chunks;
        }

    now_partial : (new : Cache) → (set_cache m.caches c new c).slabs_partial ≡ new.slabs_partial
    now_partial new = ap (λ (x : Cache). x.slabs_partial) (set_cache_same m.caches c new)

    now_full : (new : Cache) → (set_cache m.caches c new c).slabs_full ≡ new.slabs_full
    now_full new = ap (λ (x : Cache). x.slabs_full) (set_cache_same m.caches c new)

    stays_partial : p ≡ partial c → (h i).nused < sh.chunks c → Releases m₁
    stays_partial e less = record {
      state' = stays m stats is i live.inside ctl' rewrite (
          subst (Fits sh ctl') (sym e)
            (owned.inside, live.owner, omega (arith, less, fewer, some_used), spare));
      writes = h₁-Writes m stats is i live.inside ctl' rewrite;
      shape' = refl;
    }

    from_full : p ≡ full c → (h i).nused ≡ sh.chunks c → Returns (to_partial m₁ c i) Releases
    unfolding to_partial
    from_full e same =
        let ne : full c ≢ partial c = λ s. cc in
        let ((h', src, dest, found), run, (done, moved)) = removed (full c) (partial c) e ne in
        let new : Cache = record (m.caches c) { slabs_full = src; slabs_partial = dest } in
        (
          record m { slab_ctls = h'; caches = set_cache m.caches c new },
          rw (run, done),
          relisted (full c) (partial c) h' src dest m.slabs_free new e ne moved (now_full new)
              (now_partial new)
              (λ s nf np.
                links_kept m h' m.slabs_free c new s (λ x. refl) (λ x. absurd (np x))
                  (λ x. absurd (nf x)))
              (owned.inside, live.owner, omega (arith, same, fewer, some_used), spare) refl refl,
        )

    emptied : (h i).nused ≡ 1 → Fits sh ctl' free
    emptied one = omega (arith, one, fewer)

    from_partial : p ≡ partial c → (h i).nused ≡ 1 → Returns (to_free m₁ c i) Releases
    unfolding to_free
    from_partial e one =
        let ne : partial c ≢ free = λ s. cc in
        let ((h', src, dest, found), run, (done, moved)) = removed (partial c) free e ne in
        let new : Cache = record (m.caches c) { slabs_partial = src } in
        (
          record m { slab_ctls = h'; slabs_free = dest; caches = set_cache m.caches c new },
          rw (run, done),
          relisted (partial c) free h' src dest dest new e ne moved (now_partial new) refl
              (λ s np nf.
                links_kept m h' dest c new s (λ x. absurd (nf x)) (λ x. absurd (np x)) (λ x. refl))
              (emptied one) refl refl,
        )

    -- The second search of `to_free`.
    from_full_list : Manager → Run Manager
    from_full_list m' = do
      (h', rest, free', found') ←
          rem_and_push (suc m.slabctl_count) m'.slab_ctls (m'.caches c).slabs_full m'.slabs_free i
      assert found'
      ok (record m' {
        slab_ctls = h';
        slabs_free = free';
        caches = set_cache m'.caches c (record (m'.caches c) { slabs_full = rest });
      })

    unmoved : Manager
    unmoved = record m₁ { caches = set_partial m₁ c (m₁.caches c).slabs_partial }

    unmoved_same : unmoved ≡ m₁
    unfolding unmoved
    unmoved_same = λ t. record m₁ {
      caches = λ d.
          set_cache_chunks (λ (x : Cache). x) m₁.caches c d
            (record (m₁.caches c) { slabs_partial = (m₁.caches c).slabs_partial }) refl t;
    }

    not_partial : p ≡ full c → Absent i (state.seq (partial c))
    not_partial e =
        elim (Lists-Apart m.slabctl_count m₁.slab_ctls (links_of m) state.seq state.home lists
          (full c) (partial c) (λ s. cc) i) [
            | inl out ↦ absurd (
                Absent-ne i i (state.seq (full c)) out
                  (subst (λ x. Member i (state.seq x)) e (state.lists.owned i live.inside)) refl)
            | inr out ↦ out
          ]

    skipped : p ≡ full c → to_free m₁ c i ≡ from_full_list unmoved
    unfolding to_free rem_and_push from_full_list unmoved
    skipped e =
        let run =
          rem-Absent (suc m.slabctl_count) m₁.slab_ctls (m.caches c).slabs_partial i
            (state.seq (partial c)) (lists.rep (partial c)) (not_partial e) (short (partial c)) in
        rw run

    last_of_full : p ≡ full c → (h i).nused ≡ 1 → Returns (from_full_list m₁) Releases
    unfolding from_full_list
    last_of_full e one =
        let ne : full c ≢ free = λ s. cc in
        let ((h', src, dest, found), run, (done, moved)) = removed (full c) free e ne in
        let new : Cache = record (m.caches c) { slabs_full = src } in
        (
          record m { slab_ctls = h'; slabs_free = dest; caches = set_cache m.caches c new },
          rw (run, done),
          relisted (full c) free h' src dest dest new e ne moved (now_full new) refl
              (λ s nq nf.
                links_kept m h' dest c new s (λ x. absurd (nf x)) (λ x. refl) (λ x. absurd (nq x)))
              (emptied one) refl refl,
        )

    freed : (h i).nused ≡ 1 → Returns (to_free m₁ c i) Releases
    freed one = elim owned.list [
      | inl (e, less) ↦ from_partial e one
      | inr (e, same) ↦
          subst (λ r. Returns r Releases) (sym (skipped e ∙ ap from_full_list unmoved_same))
            (last_of_full e one)
    ]

    abbrev pub last_one : ℕ
    last_one = u32 ((m.caches c).chunk_count_perslab + 2 ^ 32 - 1)

    last_one_lem : last_one ≡ sh.chunks c - 1
    last_one_lem =
        omega (arith, chunks-pos sh is.shape c owned.inside, chunks-le sh is.shape c owned.inside)

    -- From the count of the slab on, `scfree` puts the slab in the right list.
    pub release-Releases :
        Returns
          (if ctl'.nused == 0
            then to_free m₁ c i
            else if ctl'.nused == last_one
            then to_partial m₁ c i
            else ok m₁)
          Releases
    release-Releases = elim (Bool-cases (ctl'.nused == 0)) [
      | inl z ↦ rw z (freed (ground (arith, z, fewer, some_used)))
      | inr nz ↦ elim owned.list [
        | inl (e, less) ↦
            let not_last : ctl'.nused == last_one ≡ false =
              ground (arith, fewer, last_one_lem, less, some_used) in
            rw (nz, not_last) (m₁, refl, stays_partial e less)
        | inr (e, same) ↦
            let is_last : ctl'.nused == last_one ≡ true =
              ground (arith, fewer, last_one_lem, same) in
            rw (nz, is_last) (from_full e same)
      ]
    ]
