-- ===== src/Slab/Valid/Take.antt =====
-- The slab that `scmalloc` takes a chunk from.
use lightcache.Base.{
  ℕ, ◌<◌, ◌≡◌, ◌≢◌, ◌∙◌, ap, refl, sym, inl, inr, true, false, List, [], ◌∷◌, none, some, arith,
  ◌==◌, ==_iff, Bool-cases, Option-cases,
}
use mathlib.Core.Path.{subst}
use lightcache.Base.Sums.{sum, sum_congr}
use lightcache.Slab.Bitset.{bit_count, IsBitset, slot}
use lightcache.Slab.Links.{SlabCtl, Ctls, Links, Ptr, update, peek, push, pop}
use lightcache.Slab.Links.Chain.{first, Represents}
use lightcache.Slab.Links.Bypass.{erase, Member}
use lightcache.Slab.Links.Ends.{pop_empty}
use lightcache.Slab.Links.Move.{Moved, pop-push-Moved}
use lightcache.Slab.Manager.{Cache, Manager, SlabStats, set_cache}
use lightcache.Slab.Alloc.{adopt, take_slab}
use lightcache.Slab.Places.{
  Place, free, partial, full, Lists, Lists-Apart, Lists-moved, Lists-links, moved_seq, moved_home,
}
use lightcache.Slab.Valid.{
  shape_of, links_of, taken, IsSlab, IsState, weight, IsAlloc, IsLive, SameData, slabs-IsSlab,
}
use lightcache.Slab.Valid.Chunks.{chunks-pos, all_free}
use lightcache.Slab.Valid.Change.{
  weight-zero, weight-same, set_cache_chunks, set_cache_other, set_cache_same, shape_set,
  IsAlloc-change,
}

-- `m'` has the same chunks allocated as `m`, and slab `i` is the first partial one of cache `c`.
pub record IsTaken (m : Manager) (stats : SlabStats) (c : ℕ) (m' : Manager) (i : ℕ) : Type 0 where
  pub alloc : IsAlloc m' stats
  pub front : (m'.caches c).slabs_partial.head ≡ some i
  pub shape : shape_of m' ≡ shape_of m
  pub slots : (j : ℕ) → (m'.slab_ctls j).slots ≡ (m.slab_ctls j).slots
  pub kept : (d j k : ℕ) → IsLive m d j k → IsLive m' d j k
  pub back : (d j k : ℕ) → IsLive m' d j k → IsLive m d j k

at_none :
    (m : Manager) (c : ℕ)
    → peek (m.caches c).slabs_partial ≡ none
    → take_slab m c ≡ adopt m c (pop m.slab_ctls m.slabs_free)
unfolding take_slab
at_none m c e = rw (take_slab, e)

at_some :
    (m : Manager) (c i : ℕ) → peek (m.caches c).slabs_partial ≡ some i → take_slab m c ≡ (m, some i)
unfolding take_slab
at_some m c i e = rw (take_slab, e)

peeked : (li : Links) → peek li ≡ li.head
unfolding peek
peeked li = refl

module _ (m : Manager) (stats : SlabStats) (is : IsAlloc m stats) (c : ℕ)
    (inside : c < m.cache_count) where
  abbrev state : IsState (shape_of m) m.slab_ctls (links_of m)
  state = is.state

  module _ (i : ℕ) (rest : List ℕ) (none_partial : state.seq (partial c) ≡ [])
      (some_free : state.seq free ≡ i ∷ rest) where
    abbrev popped : Ctls × Links × Ptr
    popped = pop m.slab_ctls m.slabs_free

    abbrev pushed : Ctls × Links
    pushed = push popped.0 (m.caches c).slabs_partial i

    abbrev h' : Ctls
    h' = update pushed.0 i (record (pushed.0 i) { cache = some c })

    abbrev adopted : Manager
    adopted = record m {
      slab_ctls = h';
      slabs_free = popped.1;
      caches = set_cache m.caches c (record (m.caches c) { slabs_partial = pushed.1 });
    }

    ne : free ≢ partial c
    ne e = cc

    moved :
        (popped.2 ≡ some i)
        × Moved m.slab_ctls
            (state.seq free)
            (state.seq (partial c))
            (erase i (state.seq free))
            (i ∷ state.seq (partial c))
            pushed.0
            popped.1
            pushed.1
    moved =
        pop-push-Moved m.slab_ctls m.slabs_free (m.caches c).slabs_partial i rest
          (state.seq (partial c)) (state.seq free) some_free (state.lists.rep free)
          (state.lists.rep (partial c))
          (Lists-Apart m.slabctl_count m.slab_ctls (links_of m) state.seq state.home state.lists
            free (partial c) ne)

    here : Member i (state.seq free)
    here = subst (Member i) (sym some_free) (inl refl)

    others : (r : Place) → r ≢ free → r ≢ partial c → links_of adopted r ≡ links_of m r
    others free nf np = absurd (nf refl)
    others (partial d) nf np =
        ap (λ (x : Cache). x.slabs_partial)
          (set_cache_other m.caches c d _ (λ s. np (ap partial s)))
    others (full d) nf np =
        set_cache_chunks (λ (x : Cache). x.slabs_full) m.caches c d
          (record (m.caches c) { slabs_partial = pushed.1 }) refl

    target : links_of adopted (partial c) ≡ pushed.1
    target =
        ap (λ (x : Cache). x.slabs_partial)
          (set_cache_same m.caches c (record (m.caches c) { slabs_partial = pushed.1 }))

    abbrev home' : ℕ → Place
    home' = moved_home state.home (partial c) i

    abbrev seq' : Place → List ℕ
    seq' = moved_seq state.seq free (partial c) i

    same_links : (y : ℕ) → ((h' y).next ≡ (pushed.0 y).next) × ((h' y).prev ≡ (pushed.0 y).prev)
    same_links y = elim (Bool-cases (y == i)) [
      | inl e ↦
          let s : y ≡ i = (==_iff y i).0 e in
          rw e (ap (λ x. (pushed.0 x).next) (sym s), ap (λ x. (pushed.0 x).prev) (sym s))
      | inr e ↦ rw e (refl, refl)
    ]

    lists : Lists m.slabctl_count h' (links_of adopted) seq' home'
    lists = Lists-links m.slabctl_count pushed.0 h' (links_of adopted) seq' home' same_links (
        Lists-moved m.slabctl_count m.slab_ctls (links_of m) state.seq state.home state.lists
          pushed.0 (links_of adopted) free (partial c) i ne here
          (subst
            (Moved m.slab_ctls (state.seq free) (state.seq (partial c)) (erase i (state.seq free))
              (i ∷ state.seq (partial c)) pushed.0 popped.1)
            (sym target) moved.1)
          others)

    data_other : (j : ℕ) → j ≢ i → SameData (m.slab_ctls j) (h' j)
    data_other j n =
        let e : j == i ≡ false = ground (arith, n) in
        rw e (record {
          nused = moved.1.nused j;
          nindex = moved.1.nindex j;
          slots = moved.1.slots j;
          cache = moved.1.cache j;
        })

    old : IsSlab (shape_of m) (m.slab_ctls i) i free
    old =
        let (below, place) = state.lists.at i free here in
        subst (IsSlab (shape_of m) (m.slab_ctls i) i) place (state.slabs i below)

    -- The slab has all slots free.
    untaken : (k : ℕ) → k < bit_count → slot (m.slab_ctls i).slots k ≡ 1
    untaken = all_free (m.slab_ctls i).slots (sym old.counted ∙ old.fits)

    new_ctl : h' i ≡ record (pushed.0 i) { cache = some c }
    new_ctl = let e : i == i ≡ true = ground arith in rw e

    new : IsSlab (shape_of m) (h' i) i (partial c)
    new =
        subst (λ ctl. IsSlab (shape_of m) ctl i (partial c)) (sym new_ctl)
          (record {
            nindex = moved.1.nindex i ∙ old.nindex;
            bitset = subst IsBitset (sym (moved.1.slots i)) old.bitset;
            counted =
                moved.1.nused i
                ∙ old.counted
                ∙ ap (λ w. sum (taken w) bit_count) (sym (moved.1.slots i));
            fits = (
              inside,
              refl,
              omega (arith, moved.1.nused i, old.fits, chunks-pos (shape_of m) is.shape c inside),
              λ k low below. ap (λ w. slot w k) (moved.1.slots i) ∙ untaken k below,
            );
          })

    shape' : shape_of adopted ≡ shape_of m
    shape' = shape_set m h' popped.1 c (record (m.caches c) { slabs_partial = pushed.1 }) refl refl

    home'_self : home' i ≡ partial c
    home'_self = let e : i == i ≡ true = ground arith in rw e

    state' : IsState (shape_of m) h' (links_of adopted)
    state' = record {
      seq = seq';
      home = home';
      lists = lists;
      slabs =
          slabs-IsSlab (shape_of m) m.slab_ctls h' state.home home' i state.slabs
            (λ j n. (data_other j n, (let e : j == i ≡ false = ground (arith, n) in rw e)))
            (subst (IsSlab (shape_of m) (h' i) i) (sym home'_self) new);
    }

    bytes :
        (j : ℕ) → j < m.slabctl_count → weight (shape_of m) h' j ≡ weight (shape_of m) m.slab_ctls j
    bytes j below = elim (Bool-cases (j == i)) [
      | inl e ↦
          let s : j ≡ i = (==_iff j i).0 e in
          let was : (m.slab_ctls j).nused ≡ 0 = ap (λ x. (m.slab_ctls x).nused) s ∙ old.fits in
          let now : (h' j).nused ≡ 0 =
            ap (λ x. (h' x).nused) s
            ∙ ap (λ (x : SlabCtl). x.nused) new_ctl
            ∙ moved.1.nused i
            ∙ old.fits in
          weight-zero (shape_of m) h' j now ∙ sym (weight-zero (shape_of m) m.slab_ctls j was)
      | inr e ↦
          let ne : j ≢ i = λ s. absurd (ground (arith, e, s)) in
          weight-same (shape_of m) m.slab_ctls h' j (data_other j ne)
    ]

    adopted-IsAlloc : IsAlloc adopted stats
    adopted-IsAlloc =
        IsAlloc-change m adopted stats stats is shape' state'
          (is.used
            ∙ sym (
                sum_congr (weight (shape_of m) m.slab_ctls) (weight (shape_of m) h') m.slabctl_count
                  bytes))
          refl

    not_live : (j k : ℕ) → k < bit_count → slot (m.slab_ctls j).slots k ≡ 0 → j ≢ i
    not_live j k below free_slot s =
        absurd (
          omega
            (arith, untaken k below, sym (ap (λ x. slot (m.slab_ctls x).slots k) s) ∙ free_slot))

    adopted_slots : (j : ℕ) → (h' j).slots ≡ (m.slab_ctls j).slots
    adopted_slots j = elim (Bool-cases (j == i)) [
      | inl e ↦
          let s : j ≡ i = (==_iff j i).0 e in
          ap (λ x. (h' x).slots) s
          ∙ ap (λ (x : SlabCtl). x.slots) new_ctl
          ∙ moved.1.slots i
          ∙ ap (λ x. (m.slab_ctls x).slots) (sym s)
      | inr e ↦ (data_other j (λ s. absurd (ground (arith, e, s)))).slots
    ]

    adopted-IsTaken : IsTaken m stats c adopted i
    adopted-IsTaken = record {
      alloc = adopted-IsAlloc;
      front = ap (λ (x : Links). x.head) target ∙ moved.1.target.head;
      shape = shape';
      slots = adopted_slots;
      kept = λ d j k live.
          let d' = data_other j (not_live j k live.below live.allocated) in
          record {
            inside = live.inside;
            owner = d'.cache ∙ live.owner;
            allocated = ap (λ w. slot w k) (adopted_slots j) ∙ live.allocated;
            below = live.below;
          };
      back = λ d j k live.
          let was = sym (ap (λ w. slot w k) (adopted_slots j)) ∙ live.allocated in
          record {
            inside = live.inside;
            owner = sym (data_other j (not_live j k live.below was)).cache ∙ live.owner;
            allocated = was;
            below = live.below;
          };
    }

    adopt_run : peek (m.caches c).slabs_partial ≡ none → take_slab m c ≡ (adopted, some i)
    adopt_run e = at_none m c e ∙ ap (λ o. adopt m c (popped.0, popped.1, o)) moved.0

  same-IsTaken : (i : ℕ) → (m.caches c).slabs_partial.head ≡ some i → IsTaken m stats c m i
  same-IsTaken i e = record {
    alloc = is;
    front = e;
    shape = refl;
    slots = λ j. refl;
    kept = λ d j k live. live;
    back = λ d j k live. live;
  }

  no_first : (xs : List ℕ) → first xs ≡ none → xs ≡ []
  no_first [] e = refl
  no_first (x ∷ xs) e = absurd (ground (arith, e))

  -- What `take_slab` gives: a slab of the cache with a free chunk; or none, if there is no such slab and no
  -- free one, and nothing changes.
  abbrev pub TakesSlab : Manager × Ptr → Type 0
  TakesSlab (m', none) = (m' ≡ m) × (state.seq (partial c) ≡ []) × (state.seq free ≡ [])
  TakesSlab (m', some i) = IsTaken m stats c m' i

  from_free :
      (xs : List ℕ)
      → state.seq free ≡ xs
      → state.seq (partial c) ≡ []
      → peek (m.caches c).slabs_partial ≡ none
      → TakesSlab (take_slab m c)
  from_free [] e none_partial empty =
      let gone =
        pop_empty m.slab_ctls m.slabs_free
          (subst (Represents m.slab_ctls m.slabs_free) e (state.lists.rep free)) in
      subst TakesSlab (sym (at_none m c empty ∙ ap (adopt m c) gone)) (refl, none_partial, e)
  from_free (i ∷ rest) e none_partial empty =
      subst TakesSlab (sym (adopt_run i rest none_partial e empty))
        (adopted-IsTaken i rest none_partial e)

  pub take_slab-TakesSlab : TakesSlab (take_slab m c)
  take_slab-TakesSlab =
      let li = (m.caches c).slabs_partial in
      elim (Option-cases (peek li)) [
        | inl e ↦
            from_free (state.seq free) refl
              (no_first (state.seq (partial c))
                (sym (state.lists.rep (partial c)).head ∙ sym (peeked li) ∙ e))
              e
        | inr (i, e) ↦
            subst TakesSlab (sym (at_some m c i e)) (same-IsTaken i (sym (peeked li) ∙ e))
      ]
