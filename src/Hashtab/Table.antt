-- ===== src/Hashtab/Table.antt =====
-- The operations of src/hashtab.c. A pointer to an item is its bucket and its position there.
use lightcache.Base.{
  u32, ℕ, zero, suc, ◌+◌, ◌-◌, ◌*◌, ◌^◌, Bool, true, false, ◌&&◌, List, [], ◌∷◌, ◌++◌, Option, none,
  some, length, get_elem?, set, ltb, leb, ◌==◌, if◌then◌else◌,
}
use lightcache.Base.Run.{Run, ok, fault, null_pointer, out_of_range, use_after_free, ◌>>=◌}
use lightcache.Hashtab.{HResult, hsuccess, herror, hexists, HItem, Htab, hsize, hmask}
use lightcache.Hashtab.Hash.{hhash}
use lightcache.Hashtab.Items.{scan, search, present, vacant}

abbrev pub Ref : Type 0
Ref = ℕ × ℕ

-- `ht->_table[h]`
abbrev pub bucket : Htab → ℕ → Run (List HItem)
bucket ht h =
    if ltb h ht.realsize
    then (elim (ht.table h) [ none ↦ fault use_after_free | some chain ↦ ok chain ])
    else fault out_of_range

abbrev pub put_chain : Htab → ℕ → List HItem → Htab
put_chain ht h chain = record ht { table = λ g. if g == h then some chain else ht.table g }

abbrev pub no_items : Option (List HItem) → List HItem
no_items none = []
no_items (some chain) = chain

abbrev pub chain_of : Htab → ℕ → List HItem
chain_of ht h = no_items (ht.table h)

-- A write to the item at a position.
abbrev pub update_item : Htab → Ref → (HItem → HItem) → Htab
update_item ht (h, i) f = elim (get_elem? (chain_of ht h) i) [
  | none ↦ ht
  | some p ↦ put_chain ht h (set (chain_of ht h) i (f p))
]

-- `memcpy(new->key, key, klen+1)`, with the last 0 byte. A copy that ends before that byte is no string, and
-- the next `strcmp` reads beyond it, so that a key longer than `klen` counts as a fault too.
abbrev pub copied_key : Option (List ℕ) → ℕ → Run (List ℕ)
copied_key none klen = fault null_pointer
copied_key (some k) klen = if length k == klen then ok k else fault out_of_range

unfoldable pub hget : Htab → Option (List ℕ) → ℕ → Run (Option Ref)
unfolding hhash search
hget ht key klen = do
  h ← hhash ht.mask key klen
  chain ← bucket ht h
  found ← search chain key 0
  ok (elim found [ none ↦ none | some i ↦ some (h, i) ])

unfoldable pub hfree : Htab → Ref → Htab
hfree ht (h, i) = elim (get_elem? (chain_of ht h) i) [
  | none ↦ ht
  | some p ↦
      let freed = put_chain ht h (set (chain_of ht h) i (record p { free = true })) in
      if p.free then ht else record freed { freecount = u32 (ht.freecount + 1) }
]

unfoldable pub hcount : Htab → ℕ
hcount ht = u32 (ht.count + 2 ^ 32 - ht.freecount)

-- `henum` gives the items that it hands to `enumfn`, in order. `stops it` says whether `enumfn` returns
-- nonzero for the item `it`, which ends the enumeration; `enumfn` may change that item, but no other one.
module _ (stops : Ref → Bool) (enum_free : Bool) where
  -- The inner loop over bucket `h` from position `i` on, and whether it ends the enumeration.
  unfoldable pub chain_refs : ℕ → List HItem → ℕ → List Ref × Bool
  chain_refs h [] i = ([], false)
  chain_refs h (p ∷ ps) i =
      let (rest, stopped) = chain_refs h ps (i + 1) in
      if p.free && (if enum_free then false else true)
      then (rest, stopped)
      else if stops (h, i)
      then ((h, i) ∷ [], true)
      else ((h, i) ∷ rest, stopped)

  -- The outer loop over `n` buckets from bucket `h` on.
  unfoldable pub henum_from : Htab → ℕ → ℕ → Run (List Ref)
  unfolding chain_refs
  henum_from ht zero h = ok []
  henum_from ht (suc n) h =
      let rest = henum_from ht n (h + 1) in
      bucket ht h >>= λ chain.
      let (refs, stopped) = chain_refs h chain 0 in
      if stopped then ok refs else (rest >>= λ more. ok (refs ++ more))

  unfoldable pub henum : Htab → Run (List Ref)
  unfolding henum_from
  henum ht = henum_from ht ht.realsize 0

-- `(ht->count - ht->freecount) / (double)ht->realsize >= 0.75`: the quotient by a power of two is
-- exact in a `double`.
unfoldable pub overloaded : Htab → Bool
unfolding hcount
overloaded ht = ltb (hcount ht) (2 ^ 31) && leb (3 * ht.realsize) (4 * hcount ht)

abbrev pub empty_table : ℕ → Htab
empty_table logsize = record {
  realsize = hsize logsize;
  logsize = logsize;
  count = 0;
  mask = hmask logsize;
  freecount = 0;
  table = λ h. some [];
}

-- `alloc_ok n` is the outcome of the n-th call of `li_malloc`.
module _ (alloc_ok : ℕ → Bool) where
  unfoldable pub htcreate : ℕ → ℕ → Option Htab × ℕ
  htcreate n logsize =
      if alloc_ok n
      then (if alloc_ok (n + 1) then some (empty_table logsize) else none, n + 2)
      else (none, n + 1)

  -- A free item is used again, with a new key if its own is too short.
  unfoldable pub reuse :
      Htab → ℕ → ℕ → ℕ → HItem → Option (List ℕ) → ℕ → Option ℕ → Run (Htab × ℕ × Bool)
  reuse ht n h i p key klen val =
      let chain = chain_of ht h in
      let fill : ℕ → Run (Htab × ℕ × Bool) = λ n'.
        (copied_key key klen >>= λ k. ok (
          record (put_chain ht h
              (set chain i (record { key = some k; klen = klen; val = val; free = false }))) {
                freecount = u32 (ht.freecount + 2 ^ 32 - 1);
              },
          n',
          true,
        )) in
      let lost = put_chain ht h (set chain i (record p { key = none })) in
      if ltb p.klen (klen + 1)
      then (if alloc_ok n then fill (n + 1) else ok (lost, n + 1, false))
      else fill n

  -- A new item at the front of the chain.
  unfoldable pub add_front : Htab → ℕ → ℕ → Option (List ℕ) → ℕ → Option ℕ → Run (Htab × ℕ × Bool)
  add_front ht n h key klen val =
      let fill =
        (copied_key key klen >>= λ k.
        let new : HItem = record { key = some k; klen = klen; val = val; free = false } in
        ok (
          record (put_chain ht h (new ∷ chain_of ht h)) { count = u32 (ht.count + 1) },
          n + 2,
          true,
        )) in
      if alloc_ok n
      then (if alloc_ok (n + 1) then fill else ok (ht, n + 2, false))
      else ok (ht, n + 1, false)

  unfoldable pub add_item :
      Htab → ℕ → ℕ → Option ℕ → Option (List ℕ) → ℕ → Option ℕ → Run (Htab × ℕ × Bool)
  unfolding reuse add_front
  add_item ht n h none key klen val = add_front ht n h key klen val
  add_item ht n h (some i) key klen val = elim (get_elem? (chain_of ht h) i) [
    | none ↦ fault out_of_range
    | some p ↦ reuse ht n h i p key klen val
  ]

  abbrev pub Grow : Type 0
  Grow = Htab → ℕ → Run (Htab × ℕ × Bool)

  abbrev pub Setter : Type 0
  Setter = Htab → ℕ → Option (List ℕ) → ℕ → Option ℕ → Run (Htab × ℕ × HResult)

  -- The end of `hset`, after a new or used item.
  unfoldable pub check_load : Grow → Htab → ℕ → Run (Htab × ℕ × HResult)
  unfolding overloaded
  check_load grow ht n =
      let grown =
        (grow ht n >>= λ (ht', n', done). ok (ht', n', if done then hsuccess else herror)) in
      if overloaded ht then grown else ok (ht, n, hsuccess)

  -- `hset` with the `_hgrow` that it calls
  unfoldable pub hset_with : Grow → Setter
  unfolding hhash scan add_item check_load
  hset_with grow ht n key klen val = do
    h ← hhash ht.mask key klen
    chain ← bucket ht h
    found ← scan chain key 0 none
    elim found [
      | present ↦ ok (ht, n, hexists)
      | vacant slot ↦
          (add_item ht n h slot key klen val >>= λ (ht', n', done).
          if done then check_load grow ht' n' else ok (ht', n', herror))
    ]

  -- One round of the inner loop of `_hgrow`; the result is whether it goes on.
  unfoldable pub move_item : Setter → HItem → Htab → ℕ → Run (Htab × ℕ × Bool)
  unfolding hget
  move_item setter p dummy n = do
    (dummy', n', ret) ← setter dummy n p.key p.klen p.val
    let unmoved : Run (Htab × ℕ × Bool) = ok (dummy', n', false)
    elim ret [
      | hsuccess ↦
          (hget dummy' p.key p.klen >>= λ found. elim found [
            | none ↦ unmoved
            | some it ↦ ok (update_item dummy' it (λ q. record q { free = p.free }), n', true)
          ])
      | other ↦ unmoved
    ]
