-- ===== src/Slab/Links/Ends.antt =====
-- `push` and `pop`, and the first item of a sequence.
use lightcache.Base.{ℕ, ◌≡◌, refl, List, [], ◌∷◌, none, some, arith}
use lightcache.Slab.Links.{Ctls, Links, update, drop_tail, link_front, push, pop}
use lightcache.Slab.Links.Chain.{
  Absent, first, last, IsChain, Represents, Relinks, IsChain-update, IsChain-update_first,
}

-- `push` puts an item that is not in the list at its front, and changes links alone.
pub push-Represents :
    (h : Ctls) (li : Links) (xs : List ℕ) (item : ℕ)
    → Represents h li xs
    → Absent item xs
    → Represents (push h li item).0 (push h li item).1 (item ∷ xs)
      × Relinks h (item ∷ xs) (push h li item).0
unfolding push
push-Represents h li [] item rep out = rw rep.head (
  record { head = refl; tail = refl; chain = ground arith; distinct = (tt, tt) },
  record {
    outside = ground arith;
    nused = ground arith;
    nindex = ground arith;
    slots = ground arith;
    cache = ground arith;
  },
)
push-Represents h li (x ∷ xs) item rep out =
    let linked = link_front h (record { head = some x; tail = li.tail }) item in
    let c = record (linked x) { prev = some item } in
    let behind : IsChain linked (x ∷ xs) = IsChain-update h item _ (x ∷ xs) out rep.chain in
    let chain : IsChain (update linked x c) (x ∷ xs) =
      IsChain-update_first linked x c xs rep.distinct.0 refl behind in
    rw rep.head (
      record {
        head = refl;
        tail = rep.tail;
        chain = (ground arith, ground arith, chain);
        distinct = (out, rep.distinct);
      },
      record {
        outside = ground arith;
        nused = ground arith;
        nindex = ground arith;
        slots = ground arith;
        cache = ground arith;
      },
    )

last-drop_tail : (x : ℕ) (xs : List ℕ) → drop_tail (first xs) (last (x ∷ xs)) ≡ last xs
last-drop_tail x [] = refl
last-drop_tail x (y ∷ ys) = refl

-- `pop` gives the first item of a list that has one and drops it, and changes links alone.
pub pop-Represents :
    (h : Ctls) (li : Links) (x : ℕ) (xs : List ℕ)
    → Represents h li (x ∷ xs)
    → ((pop h li).2 ≡ some x)
      × Represents (pop h li).0 (pop h li).1 xs
      × Relinks h (x ∷ xs) (pop h li).0
unfolding pop
pop-Represents h li x xs rep =
    let c = record (h x) { prev = none } in
    let chain : IsChain (update h x c) xs = IsChain-update h x c xs rep.distinct.0 rep.chain.2 in
    let next : (update h x c x).next ≡ first xs = ground (arith, rep.chain.0) in
    rw rep.head (
      refl,
      record {
        head = next;
        tail = rw (next, rep.tail) (last-drop_tail x xs);
        chain = chain;
        distinct = rep.distinct.1;
      },
      record {
        outside = ground arith;
        nused = ground arith;
        nindex = ground arith;
        slots = ground arith;
        cache = ground arith;
      },
    )

-- On an empty list `pop` gives NULL and changes nothing.
pub pop_empty : (h : Ctls) (li : Links) → Represents h li [] → pop h li ≡ (h, li, none)
unfolding pop
pop_empty h li rep = ground (arith, rep.head, rep.tail)
