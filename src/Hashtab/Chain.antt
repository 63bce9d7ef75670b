-- ===== src/Hashtab/Chain.antt =====
-- One chain as a finite map: what the loops of `hset` and `hget` find in it.
pub mod Write
pub mod Change
use lightcache.Base.{
  ℕ, zero, suc, ◌+◌, ◌<◌, ◌≤◌, ◌≡◌, ◌≢◌, ◌∙◌, ap, refl, sym, inl, inr, ◌⊎◌, Bool, true, false, not,
  ◌&&◌, List, [], ◌∷◌, Option, none, some, arith, length, get_elem?, set, Bool-cases, Option-cases,
  if◌then◌else◌,
}
use mathlib.Core.Path.{subst}
use lightcache.Base.Run.{Run, ok, ◌>>=◌}
use lightcache.Protocol.Bytes.{list_eq}
use lightcache.Hashtab.{HItem}
use lightcache.Hashtab.Items.{same_key, scan, search, Scan, present, vacant}
use lightcache.Hashtab.Keys.{NoZero, list_eq_refl, list_eq_sound, list_eq-ne, same_key_lem, home}

abbrev pub some_key : Option (List ℕ) → List ℕ
some_key none = []
some_key (some k) = k

abbrev pub key_of : HItem → List ℕ
key_of p = some_key p.key

-- The item has a key without zero bytes, and stands in the bucket of its key.
pub record IsKeyed (mask h : ℕ) (p : HItem) : Type 0 where
  pub key : p.key ≡ some (key_of p)
  pub size : p.klen ≡ length (key_of p)
  pub plain : NoZero (key_of p)
  pub here : home mask (key_of p) ≡ h

abbrev pub AllKeyed : ℕ → ℕ → List HItem → Type 0
AllKeyed mask h [] = Unit
AllKeyed mask h (p ∷ ps) = IsKeyed mask h p × AllKeyed mask h ps

pub AllKeyed-set :
    (mask h : ℕ) (ps : List HItem) (j : ℕ) (p : HItem)
    → IsKeyed mask h p
    → AllKeyed mask h ps
    → AllKeyed mask h (set ps j p)
AllKeyed-set mask h [] j p is all = tt
AllKeyed-set mask h (q ∷ ps) zero p is (_, all) = (is, all)
AllKeyed-set mask h (q ∷ ps) (suc j) p is (one, all) = (one, AllKeyed-set mask h ps j p is all)

-- No item, free or not, has the key.
abbrev pub NoKey : List ℕ → List HItem → Type 0
NoKey k [] = Unit
NoKey k (p ∷ ps) = (key_of p ≢ k) × NoKey k ps

-- An item that is in use has its key for itself, in what follows it.
abbrev pub Apart : List HItem → Type 0
Apart [] = Unit
Apart (p ∷ ps) = (p.free ≡ false → NoKey (key_of p) ps) × Apart ps

abbrev pub AllUsed : List HItem → Type 0
AllUsed [] = Unit
AllUsed (p ∷ ps) = (p.free ≡ false) × AllUsed ps

abbrev pub is_match : List ℕ → HItem → Bool
is_match k p = list_eq (key_of p) k && not p.free

-- The value of the first item in use with the key.
unfoldable pub find_val : List ℕ → List HItem → Option (Option ℕ)
find_val k [] = none
find_val k (p ∷ ps) = let rest = find_val k ps in if is_match k p then some p.val else rest

unfoldable pub last_free : List HItem → ℕ → Option ℕ → Option ℕ
last_free [] i new = new
last_free (p ∷ ps) i new = last_free ps (i + 1) (if p.free then some i else new)

abbrev pub scanned : Option (Option ℕ) → Option ℕ → Scan
scanned none slot = vacant slot
scanned (some v) slot = present

same_key-key_of :
    (mask h : ℕ) (p : HItem) (k : List ℕ)
    → IsKeyed mask h p
    → NoZero k
    → same_key p.key (some k) ≡ ok (list_eq (key_of p) k)
same_key-key_of mask h p k is z =
    ap (λ o. same_key o (some k)) is.key ∙ same_key_lem (key_of p) k is.plain z

pub scan_lem :
    (mask h : ℕ) (ps : List HItem) (k : List ℕ) (i : ℕ) (new : Option ℕ)
    → AllKeyed mask h ps
    → NoZero k
    → scan ps (some k) i new ≡ ok (scanned (find_val k ps) (last_free ps i new))
unfolding scan find_val last_free
scan_lem mask h [] k i new all z = refl
scan_lem mask h (p ∷ ps) k i new (is, all) z =
    rw (same_key-key_of mask h p k is z) (elim (Bool-cases (is_match k p)) [
      | inl e ↦ rw e
      | inr e ↦ rw e (scan_lem mask h ps k (i + 1) _ all z)
    ])

-- The position that `hget` finds holds an item in use with the key and the value.
abbrev pub IsFound : List HItem → List ℕ → Option (Option ℕ) → ℕ → Option ℕ → Type 0
IsFound ps k none i none = Unit
IsFound ps k none i (some j) = ⊥
IsFound ps k (some v) i none = ⊥
IsFound ps k (some v) i (some j) =
    (m : ℕ) × (p : HItem) × (i + m ≡ j)
    × (get_elem? ps m ≡ some p)
    × (key_of p ≡ k)
    × (p.free ≡ false)
    × (p.val ≡ v)

IsFound-later :
    (p : HItem) (ps : List HItem) (k : List ℕ) (v : Option (Option ℕ)) (i : ℕ) (j : Option ℕ)
    → IsFound ps k v (i + 1) j
    → IsFound (p ∷ ps) k v i j
IsFound-later p ps k none i none f = tt
IsFound-later p ps k none i (some j) f = absurd f
IsFound-later p ps k (some v) i none f = absurd f
IsFound-later p ps k (some v) i (some j) (m, q, e, g, k', f, v') =
    (suc m, q, omega arith, g, k', f, v')

pub search_lem :
    (mask h : ℕ) (ps : List HItem) (k : List ℕ) (i : ℕ)
    → AllKeyed mask h ps
    → NoZero k
    → (j : Option ℕ) × (search ps (some k) i ≡ ok j) × IsFound ps k (find_val k ps) i j
unfolding search find_val
search_lem mask h [] k i all z = (none, refl, tt)
search_lem mask h (p ∷ ps) k i (is, all) z =
    let (j, run, f) = search_lem mask h ps k (i + 1) all z in
    elim (Bool-cases p.free) [
      | inl e ↦
          let no : is_match k p ≡ false = ground arith in
          (j, rw e run, rw no (IsFound-later p ps k (find_val k ps) i j f))
      | inr e ↦ elim (Bool-cases (list_eq (key_of p) k)) [
        | inl s ↦
            let yes : is_match k p ≡ true = ground arith in
            (
              some i,
              rw (e, same_key-key_of mask h p k is z, s),
              rw yes (0, p, omega arith, refl, list_eq_sound (key_of p) k s, e, refl),
            )
        | inr s ↦
            let no : is_match k p ≡ false = ground arith in
            (
              j,
              rw (e, same_key-key_of mask h p k is z, s) run,
              rw no (IsFound-later p ps k (find_val k ps) i j f),
            )
      ]
    ]
