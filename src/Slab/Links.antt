-- ===== src/Slab/Links.antt =====
-- The doubly linked lists of slab controls (src/slab.c). A pointer to a control is its index into
-- `slab_ctls`, and `none` is NULL; the array is a function, changed at one index at a time.
pub mod Chain
pub mod Ends
pub mod Bypass
pub mod Unlink
pub mod Remove
pub mod Move
use lightcache.Base.{ℕ, zero, suc, ◌+◌, Bool, true, false, Option, none, some, ◌==◌, if◌then◌else◌}
use lightcache.Base.Run.{Run, ok, fault, assert_failed, null_pointer, out_of_fuel, ◌>>=◌}
use lightcache.Slab.Bitset.{Bitset}

abbrev pub Ptr : Type 0
Ptr = Option ℕ

pub record SlabCtl : Type 0 where
  pub nused : ℕ
  pub nindex : ℕ
  pub slots : Bitset
  pub next : Ptr
  pub prev : Ptr
  pub cache : Ptr

abbrev pub Ctls : Type 0
Ctls = ℕ → SlabCtl

-- `list_t`
pub record Links : Type 0 where
  pub head : Ptr
  pub tail : Ptr

abbrev pub update : Ctls → ℕ → SlabCtl → Ctls
update h p c q = if q == p then c else h q

abbrev pub set_next : Ctls → ℕ → Ptr → Ctls
set_next h p q = update h p (record (h p) { next = q })

abbrev pub set_prev : Ctls → ℕ → Ptr → Ctls
set_prev h p q = update h p (record (h p) { prev = q })

abbrev pub same_ptr : Ptr → Ptr → Bool
same_ptr none none = true
same_ptr none (some q) = false
same_ptr (some p) none = false
same_ptr (some p) (some q) = p == q

-- `*p`
abbrev pub deref : Ptr → Run ℕ
deref none = fault null_pointer
deref (some p) = ok p

-- `assert(p != NULL)`, before `*p`
abbrev pub assert_pointer : Ptr → Run ℕ
assert_pointer none = fault assert_failed
assert_pointer (some p) = ok p

unfoldable pub peek : Links → Ptr
peek li = li.head

-- `item->next = li->head; item->prev = NULL`
abbrev pub link_front : Ctls → Links → ℕ → Ctls
link_front h li item = update h item (record (h item) { next = li.head; prev = none })

abbrev pub push_at : Ctls → Links → Ptr → ℕ → Ctls × Links
push_at h li none item = (h, record { head = some item; tail = some item })
push_at h li (some first) item =
    (set_prev h first (some item), record { head = some item; tail = li.tail })

unfoldable pub push : Ctls → Links → ℕ → Ctls × Links
push h li item = push_at (link_front h li item) li li.head item

-- `if (!li->head) li->tail = NULL`
abbrev pub drop_tail : Ptr → Ptr → Ptr
drop_tail none tail = none
drop_tail (some first) tail = tail

abbrev pub pop_at : Ctls → Links → Ptr → Ctls × Links × Ptr
pop_at h li none = (h, record { head = none; tail = none }, none)
pop_at h li (some first) =
    let h' = set_prev h first none in
    let rest = (h' first).next in
    (h', record { head = rest; tail = drop_tail rest li.tail }, some first)

unfoldable pub pop : Ctls → Links → Ctls × Links × Ptr
pop h li = pop_at h li li.head

-- The branch of `rem` at the last item.
unfoldable pub rem_tail : Ctls → Links → Run (Ctls × Links)
rem_tail h li = do
  tail ← deref li.tail
  before ← assert_pointer (h tail).prev
  let h' = set_next h before none
  ok (h', record li { tail = (h' tail).prev })

-- The branch of `rem` at an item with two neighbours.
unfoldable pub rem_inner : Ctls → Links → ℕ → Run (Ctls × Links)
rem_inner h li cit = do
  before ← deref (h cit).prev
  let h' = set_next h before (h cit).next
  after ← deref (h' cit).next
  ok (set_prev h' after (h' cit).prev, li)

unfoldable pub rem_found : Ctls → Links → ℕ → Run (Ctls × Links)
unfolding pop rem_tail rem_inner
rem_found h li cit =
    if same_ptr (some cit) li.head
    then (let (h', li', _) = pop h li in ok (h', li'))
    else if same_ptr (some cit) li.tail
    then rem_tail h li
    else rem_inner h li cit

-- The loop of `rem`, from `cit` on.
unfoldable pub rem_loop : ℕ → Ctls → Links → ℕ → Ptr → Run (Ctls × Links × Bool)
unfolding rem_found
rem_loop zero h li item cit = fault out_of_fuel
rem_loop (suc fuel) h li item none = ok (h, li, false)
rem_loop (suc fuel) h li item (some cit) =
    let rest = rem_loop fuel h li item (h cit).next in
    if cit == item then (rem_found h li cit >>= λ (h', li'). ok (h', li', true)) else rest

unfoldable pub rem : ℕ → Ctls → Links → ℕ → Run (Ctls × Links × Bool)
unfolding rem_loop
rem fuel h li item = rem_loop fuel h li item li.head

unfoldable pub rem_and_push : ℕ → Ctls → Links → Links → ℕ → Run (Ctls × Links × Links × Bool)
unfolding rem push
rem_and_push fuel h src dest item = do
  (h', src', found) ← rem fuel h src item
  if found
      then (let (h'', dest') = push h' dest item in ok (h'', src', dest', true))
      else ok (h', src', dest, false)

unfoldable pub pop_and_push : Ctls → Links → Links → Ctls × Links × Links × Bool
unfolding pop push
pop_and_push h src dest =
    let (h', src', item) = pop h src in
    elim item [
      | none ↦ (h', src', dest, false)
      | some i ↦ (let (h'', dest') = push h' dest i in (h'', src', dest', true))
    ]
