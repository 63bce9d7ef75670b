-- ===== src/Hashtab/Move.antt =====
-- The loops of `_hgrow`, for a way to add items that works.
use lightcache.Base.{
  ℕ, zero, suc, ◌+◌, ◌<◌, ◌≤◌, ◌≡◌, ◌≢◌, ◌∙◌, ap, refl, sym, inl, inr, Bool, true, false, List, [],
  ◌∷◌, ◌++◌, Option, none, some, arith, length, length-append, get_elem?, Bool-cases, Option-cases,
  if◌then◌else◌,
}
use mathlib.Core.List.{append_assoc, append-nil}
use mathlib.Core.Path.{subst}
use lightcache.Base.Run.{ok, Returns}
use lightcache.Protocol.Bytes.{list_eq}
use lightcache.Hashtab.{HItem, Htab, hsuccess}
use lightcache.Hashtab.Keys.{NoZero, list_eq_refl, list_eq_sound, list_eq-ne}
use lightcache.Hashtab.Table.{Ref, Setter, chain_of, update_item, move_item}
use lightcache.Hashtab.Grow.{move_chain, move_buckets}
use lightcache.Hashtab.Chain.{key_of, IsKeyed, AllKeyed, Apart, find_val}
use lightcache.Hashtab.Chain.Change.{shown}
use lightcache.Hashtab.Valid.{IsTable, lookup, Changes, bucket-IsTable}
use lightcache.Hashtab.Steps.{IsGot, hget-IsGot, IsChanged, update_item-IsChanged}
use lightcache.Hashtab.Flat.{items_from, or_else, find_val-append, Apart-front, find_val-before}

-- A way to add new keys to tables that have taken `j` items so far, of `total` at most.
pub record Adds (alloc_ok : ℕ → Bool) (setter : Setter alloc_ok) (Good : Htab → ℕ → Type 0)
    (total : ℕ) : Type 0 where
  pub valid : (d : Htab) (j : ℕ) → Good d j → IsTable d
  pub step :
      (d : Htab) (j n : ℕ) (k : List ℕ) (v : Option ℕ)
      → Good d j
      → j < total
      → NoZero k
      → lookup d k ≡ none
      → Returns
          (setter d n (some k) (length k) v)
          λ r. (r.2 ≡ hsuccess) × Good r.0 (suc j) × Changes d r.0 k (some v)
  pub change :
      (d d' : Htab) (j : ℕ) (k : List ℕ) (w : Option (Option ℕ))
      → Good d j
      → IsChanged d d' k w
      → d'.freecount ≡ d.freecount
      → Good d' j

abbrev item : List ℕ → Option ℕ → Bool → HItem
item k v f = record { key = some k; klen = length k; val = v; free = f }

item-eta : (mask h : ℕ) (p : HItem) → IsKeyed mask h p → p ≡ item (key_of p) p.val p.free
item-eta mask h p is = λ i. record { key = is.key i; klen = is.size i; val = p.val; free = p.free }

abbrev set_free : Bool → HItem → HItem
set_free f q = record q { free = f }

module _ (alloc_ok : ℕ → Bool) (setter : Setter alloc_ok) (Good : Htab → ℕ → Type 0) (total : ℕ)
    (adds : Adds alloc_ok setter Good total) where
  -- The new table `d` has the items `ps`.
  pub record HasItems (d : Htab) (ps : List HItem) : Type 0 where
    pub good : Good d (length ps)
    pub reads : (k : List ℕ) → lookup d k ≡ find_val k ps

  find_val-item :
      (k : List ℕ) (v : Option ℕ) (f : Bool) → find_val k (item k v f ∷ []) ≡ shown (item k v f)
  unfolding find_val
  find_val-item k v true = rw (list_eq_refl k)
  find_val-item k v false = rw (list_eq_refl k)

  find_val-other_item :
      (q k : List ℕ) (v : Option ℕ) (f : Bool) → q ≢ k → find_val q (item k v f ∷ []) ≡ none
  unfolding find_val
  find_val-other_item q k v f ne = let e = list_eq-ne k q (λ s. ne (sym s)) in rw e

  or_none : (a : Option (Option ℕ)) → or_else a none ≡ a
  or_none none = refl
  or_none (some v) = refl

  more-HasItems :
      (d d' : Htab) (ps : List HItem) (k : List ℕ) (v : Option ℕ) (f : Bool)
      → ((q : List ℕ) → lookup d q ≡ find_val q ps)
      → find_val k ps ≡ none
      → Good d' (suc (length ps))
      → Changes d d' k (shown (item k v f))
      → HasItems d' (ps ++ item k v f ∷ [])
  more-HasItems d d' ps k v f reads fresh good changes = record {
    good = subst (Good d') (omega (arith, length-append ps (item k v f ∷ []))) good;
    reads = λ q. elim (Bool-cases (list_eq q k)) [
      | inl e ↦
          subst (λ l. lookup d' l ≡ find_val l (ps ++ item k v f ∷ [])) (sym (list_eq_sound q k e))
            (changes.here
              ∙ sym (
                  find_val-append k ps (item k v f ∷ [])
                  ∙ ap (λ a. or_else a (find_val k (item k v f ∷ []))) fresh
                  ∙ find_val-item k v f))
      | inr e ↦
          let ne : q ≢ k =
            λ s. absurd (ground (arith, e, subst (λ l. list_eq q l ≡ true) s (list_eq_refl q))) in
          changes.others q ne
          ∙ reads q
          ∙ sym (
              find_val-append q ps (item k v f ∷ [])
              ∙ ap (or_else (find_val q ps)) (find_val-other_item q k v f ne)
              ∙ or_none (find_val q ps))
    ];
  }

  freecount-update_item :
      (t : Htab) (it : Ref) (g : HItem → HItem) → (update_item t it g).freecount ≡ t.freecount
  freecount-update_item t (h, i) g = elim (Option-cases (get_elem? (chain_of t h) i)) [
    | inl e ↦ rw (update_item, e)
    | inr (p, e) ↦ rw (update_item, e)
  ]

  -- The item that was added gets the flag of the old one.
  mark_one :
      (d d' : Htab) (valid : IsTable d') (ps : List HItem) (k : List ℕ) (plain : NoZero k)
      (v : Option ℕ) (f : Bool) (n : ℕ) (found : Option Ref)
      → ((q : List ℕ) → lookup d q ≡ find_val q ps)
      → find_val k ps ≡ none
      → Good d' (suc (length ps))
      → Changes d d' k (some v)
      → IsGot d' valid k plain (some v) found
      → Returns
          (elim found [
            | none ↦ ok (d', n, false)
            | some it ↦ ok (update_item d' it (set_free f), n, true)
          ])
          λ (r : Htab × ℕ × Bool). (r.2 ≡ true) × HasItems r.0 (ps ++ item k v f ∷ [])
  mark_one d d' valid ps k plain v f n none reads fresh good changes is = absurd is
  mark_one d d' valid ps k plain v f n (some it) reads fresh good changes
        (q, at_home, at, named, used, same) =
      let d'' = update_item d' it (set_free f) in
      let changed =
        update_item-IsChanged d' valid k it q (set_free f) at_home at named used refl refl in
      let good' =
        adds.change d' d'' (suc (length ps)) k (shown (set_free f q)) good changed
          (freecount-update_item d' it (set_free f)) in
      let changes' : Changes d d'' k (shown (item k v f)) = record {
        here = changed.changes.here ∙ ap (λ x. if f then none else some x) same;
        others = λ l ne. changed.changes.others l ne ∙ changes.others l ne;
      } in
      ((d'', n, true), refl, (refl, more-HasItems d d'' ps k v f reads fresh good' changes'))

  move_one :
      (d : Htab) (ps : List HItem) (k : List ℕ) (v : Option ℕ) (f : Bool) (n : ℕ)
      → HasItems d ps
      → NoZero k
      → find_val k ps ≡ none
      → length ps < total
      → Returns
          (move_item alloc_ok setter (item k v f) d n)
          λ r. (r.2 ≡ true) × HasItems r.0 (ps ++ item k v f ∷ [])
  unfolding move_item
  move_one d ps k v f n has plain fresh room =
      let (r, run, (done, good, changes)) =
        adds.step d (length ps) n k v has.good room plain (has.reads k ∙ fresh) in
      let valid = adds.valid r.0 (suc (length ps)) good in
      let (found, got, is) = hget-IsGot r.0 valid k plain in
      let is' = subst (λ w. IsGot r.0 valid k plain w found) changes.here is in
      let (s, marked, result) =
        mark_one d r.0 valid ps k plain v f r.1 found has.reads fresh good changes is' in
      (s, rw (run, done, got) marked, result)

  move_chain-HasItems :
      (mask h : ℕ) (ps qs : List HItem) (d : Htab) (n : ℕ)
      → HasItems d ps
      → AllKeyed mask h qs
      → Apart (ps ++ qs)
      → length ps + length qs ≤ total
      → Returns (move_chain alloc_ok setter qs d n) λ r. (r.2 ≡ none) × HasItems r.0 (ps ++ qs)
  unfolding move_chain
  move_chain-HasItems mask h ps [] d n has all apart room =
      ((d, n, none), refl, (refl, subst (HasItems d) (sym (append-nil ps)) has))
  move_chain-HasItems mask h ps (p ∷ qs) d n has (is, all) apart room =
      let eta = item-eta mask h p is in
      let (r, run, (moved, has')) =
        move_one d ps (key_of p) p.val p.free n has is.plain (find_val-before ps qs p apart)
          (omega arith) in
      let run' : move_item alloc_ok setter p d n ≡ ok r =
        ap (λ q. move_item alloc_ok setter q d n) eta ∙ run in
      let has'' = subst (λ q. HasItems r.0 (ps ++ q ∷ [])) (sym eta) has' in
      let same = append_assoc ps (p ∷ []) qs in
      let (s, rest, (all_moved, final)) =
        move_chain-HasItems mask h (ps ++ p ∷ []) qs r.0 r.1 has'' all
          (subst Apart (sym same) apart) (omega (arith, length-append ps (p ∷ []))) in
      (s, rw (run', moved) rest, (all_moved, subst (HasItems s.0) same final))

  module _ (t : Htab) (valid : IsTable t) where
    next_bucket :
        (k i : ℕ) (r : Htab × ℕ × Option (List HItem))
        → r.2 ≡ none
        → (elim r.2 [
          | none ↦ move_buckets alloc_ok setter t k (i + 1) r.0 r.1
          | some rest ↦ ok (r.0, r.1, some (i, rest))
        ])
          ≡ move_buckets alloc_ok setter t k (i + 1) r.0 r.1
    next_bucket k i r done = rw done

    pub move_buckets-HasItems :
        (k i : ℕ) (ps : List HItem) (d : Htab) (n : ℕ)
        → HasItems d ps
        → i + k ≤ t.realsize
        → Apart (ps ++ items_from t i k)
        → length ps + length (items_from t i k) ≤ total
        → Returns
            (move_buckets alloc_ok setter t k i d n)
            λ r. (r.2 ≡ none) × HasItems r.0 (ps ++ items_from t i k)
    unfolding move_buckets items_from
    move_buckets-HasItems zero i ps d n has inside apart room =
        ((d, n, none), refl, (refl, subst (HasItems d) (sym (append-nil ps)) has))
    move_buckets-HasItems (suc k) i ps d n has inside apart room =
        let c = chain_of t i in
        let rest = items_from t (i + 1) k in
        let same = append_assoc ps c rest in
        let apart' : Apart ((ps ++ c) ++ rest) = subst Apart (sym same) apart in
        let (r, run, (done, has')) =
          move_chain-HasItems t.mask i ps c d n has (valid.keyed i)
            (Apart-front (ps ++ c) rest apart') (omega (arith, length-append c rest)) in
        let (s, run', (done', has'')) =
          move_buckets-HasItems k (i + 1) (ps ++ c) r.0 r.1 has' (omega arith) apart'
            (omega (arith, length-append c rest, length-append ps c)) in
        (
          s,
          rw (bucket-IsTable t i valid (omega arith), run) (next_bucket k i r done ∙ run'),
          (done', subst (HasItems s.0) same has''),
        )
