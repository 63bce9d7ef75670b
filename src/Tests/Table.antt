-- ===== src/Tests/Table.antt =====
-- The hash table run on concrete keys, and its theorems there.
use lightcache.Base.{
  ℕ, ◌^◌, ◌<◌, ◌≡◌, refl, inl, Bool, true, false, Option, none, some, List, [], ◌∷◌, length, arith,
  ltb, ◌==◌,
}
use lightcache.Base.Run.{Run, ok, ◌>>=◌, Returns}
use lightcache.Protocol.Bytes.{list_eq}
use lightcache.Hashtab.{HItem, Htab, herror}
use lightcache.Hashtab.Table.{Ref, empty_table, chain_of, hget, hfree, hcount, henum}
use lightcache.Hashtab.Hash.{hash_of, hhash}
use lightcache.Hashtab.Grow.{hset}
use lightcache.Hashtab.Keys.{NoZero, home}
use lightcache.Hashtab.Chain.{AllUsed, find_val}
use lightcache.Hashtab.Valid.{
  IsTable, lookup, Changes, with_chain, with_chain-IsTable, items, hhash-realsize,
}
use lightcache.Hashtab.Growth.{empty_table-IsTable, items-empty_table}
use lightcache.Hashtab.Steps.{IsGot, hget-IsGot}
use lightcache.Hashtab.Map.{AfterSet, hset-AfterSet, IsHeld, hget-hset, IsFreed, hfree-hget}
use lightcache.Hashtab.Failure.{hset-no_memory, hset-grow_failed}
use lightcache.Hashtab.Enum.{IsEach, up_to, henum-IsEach}

abbrev pub always : ℕ → Bool
always n = true

abbrev store : Htab → List ℕ → ℕ → Run Htab
store ht k v = hset always ht 0 (some k) (length k) (some v) >>= λ r. ok r.0

abbrev stored : Run Htab
stored = do
  a ← store (empty_table 1) (97 ∷ []) 1
  b ← store a (98 ∷ 97 ∷ []) 2
  c ← store b (200 ∷ []) 3
  store c (99 ∷ 99 ∷ []) 4

abbrev sizes : Htab → Run (ℕ × ℕ × ℕ)
sizes ht = henum (λ it. false) true ht >>= λ its. ok (ht.realsize, hcount ht, length its)

abbrev both_refs : Htab → Run (Option Ref × Option Ref)
both_refs ht = do a ← hget ht (some (200 ∷ [])) 1; b ← hget ht (some (100 ∷ [])) 1; ok (a, b)

-- The table has grown twice, and counts four items.
stored_size : (stored >>= sizes) ≡ ok (8, 4, 4)
unfolding hset hcount henum
stored_size = refl

stored_get : (stored >>= both_refs) ≡ ok (some (7, 0), none)
unfolding hset hget
stored_get = refl

negative_hash : hhash 1023 (some (98 ∷ 97 ∷ 250 ∷ 251 ∷ 3 ∷ [])) 5 ≡ ok 673
unfolding hhash
negative_hash = refl

abbrev pub key : List ℕ
key = 98 ∷ 97 ∷ []

pub key-NoZero : NoZero key
key-NoZero = (λ e. absurd (omega (arith, e)), (λ e. absurd (omega (arith, e)), tt))

abbrev pub empty : Htab
empty = empty_table 1

empty-IsTable : IsTable empty
empty-IsTable = empty_table-IsTable 1 (omega arith)

empty-lookup : lookup empty key ≡ none
unfolding lookup find_val
empty-lookup = refl

-- Two buckets with one item, whose value is 7.
abbrev pub held : HItem
held = record { key = some key; klen = 2; val = some 7; free = false }

abbrev pub one : Htab
one = with_chain empty (home 1 key) (held ∷ []) 1 0

pub one-IsTable : IsTable one
one-IsTable =
    with_chain-IsTable empty (home 1 key) (held ∷ []) 1 0 empty-IsTable
      (record { key = refl; size = refl; plain = key-NoZero; here = refl }, tt) ((λ _. tt), tt)
      (omega arith)

pub one-lookup : lookup one key ≡ some (some 7)
unfolding lookup find_val home hash_of list_eq
one-lookup = refl

empty-few : items empty < 2 ^ 27
empty-few = omega (arith, items-empty_table 1)

abbrev never : ℕ → Bool
never n = false

abbrev two_only : ℕ → Bool
two_only n = ltb n 2

hhash-realsize_example : Returns (hhash 1 (some key) 2) λ h. h < 2
hhash-realsize_example = hhash-realsize one key one-IsTable

hget-IsGot_example :
    Returns (hget one (some key) 2) (IsGot one one-IsTable key key-NoZero (lookup one key))
hget-IsGot_example = hget-IsGot one one-IsTable key key-NoZero

hset-AfterSet_example :
    Returns
      (hset always empty 0 (some key) 2 (some 7))
      (AfterSet empty 0 key (some 7) (lookup empty key))
hset-AfterSet_example =
    hset-AfterSet always (λ n. refl) empty empty-IsTable (omega arith) empty-few key key-NoZero 0
      (some 7)

hget-hset_example :
    Returns {A = Htab × Option Ref}
      (hset always empty 0 (some key) 2 (some 7) >>= λ r.
        hget r.0 (some key) 2 >>= λ found. ok (r.0, found))
      λ s. IsHeld s.0 key (some 7) s.1
hget-hset_example =
    hget-hset always (λ n. refl) empty empty-IsTable (omega arith) empty-few key key-NoZero 0
      (some 7) empty-lookup

hfree-hget_example :
    (it : Ref) × (hget one (some key) 2 ≡ ok (some it)) × IsFreed one key (hfree one it)
hfree-hget_example = hfree-hget one one-IsTable key key-NoZero (some 7) one-lookup

hset-no_memory_example :
    Returns (hset never empty 0 (some key) 2 (some 7)) λ r. (r.0 ≡ empty) × (r.2 ≡ herror)
hset-no_memory_example =
    hset-no_memory never empty empty-IsTable key key-NoZero empty-lookup tt 0 (some 7) (inl refl)

-- The second item of a table with two buckets: the load is full, and there is no memory to grow.
other-lookup : lookup one (99 ∷ []) ≡ none
unfolding lookup find_val home hash_of
other-lookup = refl

other-NoZero : NoZero (99 ∷ [])
other-NoZero = (λ e. absurd (omega (arith, e)), tt)

other-AllUsed : AllUsed (chain_of one (home 1 (99 ∷ [])))
unfolding home hash_of
other-AllUsed = tt

one_count : hcount one ≡ 1
unfolding hcount
one_count = refl

hset-grow_failed_example :
    Returns
      (hset two_only one 0 (some (99 ∷ [])) 1 (some 8))
      λ r. (r.2 ≡ herror) × IsTable r.0 × Changes one r.0 (99 ∷ []) (some (some 8))
hset-grow_failed_example =
    hset-grow_failed two_only one one-IsTable (99 ∷ []) other-NoZero other-lookup other-AllUsed 0
      (some 8) refl refl (inl refl) (omega (arith, one_count)) (omega (arith, one_count))

-- A function that returns nonzero for the first item of a bucket.
abbrev not_first : Ref → Bool
not_first r = r.1 == 0

henum-IsEach_example :
    (all : List Ref) × IsEach one true all × (henum not_first true one ≡ ok (up_to not_first all))
henum-IsEach_example = henum-IsEach not_first true one one-IsTable
