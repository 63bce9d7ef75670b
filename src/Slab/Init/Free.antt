-- ===== src/Slab/Init/Free.antt =====
-- The list of free slabs after `init_cache_manager`.
use lightcache.Base.{
  ℕ, zero, suc, ◌+◌, ◌-◌, ◌<◌, ◌≤◌, ◌≡◌, ◌≢◌, ◌∙◌, ap, refl, sym, inl, inr, List, [], ◌∷◌, none,
  some, arith, replicate, Bool-cases, ==_iff, ◌==◌, true, false,
}
use lightcache.Slab.Bitset.{word_count}
use lightcache.Slab.Links.{Ptr, SlabCtl, Ctls, update}
use lightcache.Slab.Links.Chain.{Absent, Distinct, first, last, IsChain, Represents}
use lightcache.Slab.Init.{full_word, init_ctl, link_ctls, init_free}

abbrev pub interval : ℕ → ℕ → List ℕ
interval i zero = []
interval i (suc k) = i ∷ interval (suc i) k

abbrev before : ℕ → Ptr
before zero = none
before (suc i) = some i

pub interval-Absent : (k i j : ℕ) → i < j → Absent i (interval j k)
interval-Absent zero i j less = tt
interval-Absent (suc k) i j less = (ground (arith, less), interval-Absent k i (suc j) (omega arith))

interval-Distinct : (k i : ℕ) → Distinct (interval i k)
interval-Distinct zero i = tt
interval-Distinct (suc k) i =
    (interval-Absent k i (suc i) (omega arith), interval-Distinct k (suc i))

last-interval : (k i : ℕ) → last (interval i (suc k)) ≡ some (i + k)
last-interval zero i = ap some (omega arith)
last-interval (suc k) i = last-interval k (suc i) ∙ ap some (omega arith)

interval-ends :
    (count : ℕ)
    → 0 < count
    → (some 0 ≡ first (interval 0 count)) × (some (count - 1) ≡ last (interval 0 count))
interval-ends zero pos = absurd (omega (arith, pos))
interval-ends (suc k) pos = (refl, ap some (omega arith) ∙ sym (last-interval k 0))

link_ctls-before : (count k i j : ℕ) (p : Ptr) (h : Ctls) → j < i → link_ctls count k i p h j ≡ h j
unfolding link_ctls
link_ctls-before count zero i j p h less = refl
link_ctls-before count (suc k) i j p h less =
    let e : j == i ≡ false = ground (arith, less) in
    link_ctls-before count k (suc i) j (some i) (update h i (init_ctl count i p (h i)))
      (omega arith)
    ∙ rw e

link_ctls-at :
    (count k i j : ℕ) (h : Ctls)
    → i ≤ j
    → j < i + k
    → link_ctls count k i (before i) h j ≡ init_ctl count j (before j) (h j)
unfolding link_ctls
link_ctls-at count zero i j h low high = absurd (omega (arith, low, high))
link_ctls-at count (suc k) i j h low high =
    let h' = update h i (init_ctl count i (before i) (h i)) in
    elim (Bool-cases (j == i)) [
      | inl e ↦
          let s : j ≡ i = (==_iff j i).0 e in
          link_ctls-before count k (suc i) j (some i) h' (omega (arith, s))
          ∙ rw e (ap (λ m. init_ctl count m (before m) (h m)) (sym s))
      | inr e ↦
          let ne : j ≢ i = λ s. absurd (ground (arith, e, s)) in
          link_ctls-at count k (suc i) j h' (ground (arith, low, ne)) (omega (arith, high)) ∙ rw e
    ]

-- Each slab control has its own index and all slots free.
pub record AllFree (count : ℕ) (h : Ctls) : Type 0 where
  pub nindex : (j : ℕ) → j < count → (h j).nindex ≡ j
  pub slots : (j : ℕ) → j < count → (h j).slots ≡ replicate word_count full_word

module _ (count : ℕ) (h : Ctls) where
  abbrev linked : Ctls
  linked = link_ctls count count 0 none h

  at : (j : ℕ) → j < count → linked j ≡ init_ctl count j (before j) (h j)
  at j less = link_ctls-at count count 0 j h (omega arith) (omega (arith, less))

  interval-IsChain : (k i : ℕ) → i + k ≡ count → IsChain linked (interval i k)
  interval-IsChain zero i e = tt
  interval-IsChain (suc zero) i e =
      let end : i == count - 1 ≡ true = ground (arith, e) in
      (ap (λ (c : SlabCtl). c.next) (at i (omega (arith, e))) ∙ rw end, tt, tt)
  interval-IsChain (suc (suc k)) i e =
      let more : i == count - 1 ≡ false = ground (arith, e) in
      (
        ap (λ (c : SlabCtl). c.next) (at i (omega (arith, e))) ∙ rw more,
        ap (λ (c : SlabCtl). c.prev) (at (suc i) (omega (arith, e))),
        interval-IsChain (suc k) (suc i) (omega (arith, e)),
      )

  -- For at least one slab control, the loop of `init_cache_manager` leaves a well-formed list of free slabs
  -- with all slab controls in order, each with its own index and with all slots free.
  pub init_free-Represents :
      0 < count
      → Represents (init_free count h).0 (init_free count h).1 (interval 0 count)
        × AllFree count (init_free count h).0
  unfolding init_free
  init_free-Represents pos = (
    record {
      head = (interval-ends count pos).0;
      tail = (interval-ends count pos).1;
      chain = interval-IsChain count 0 (omega arith);
      distinct = interval-Distinct count 0;
    },
    record {
      nindex = λ j less. ap (λ (c : SlabCtl). c.nindex) (at j less);
      slots = λ j less. ap (λ (c : SlabCtl). c.slots) (at j less);
    },
  )

  -- The loop leaves the counts of allocated chunks as they are.
  pub init_free-nused : (j : ℕ) → j < count → ((init_free count h).0 j).nused ≡ (h j).nused
  unfolding init_free
  init_free-nused j less = ap (λ (c : SlabCtl). c.nused) (at j less)
