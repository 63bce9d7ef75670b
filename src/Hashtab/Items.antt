-- ===== src/Hashtab/Items.antt =====
-- Walks over the items of one chain: the loops of `hset` and `hget` of src/hashtab.c.
use lightcache.Base.{ℕ, ◌+◌, Bool, not, ◌&&◌, List, [], ◌∷◌, Option, none, some, if◌then◌else◌}
use lightcache.Base.Run.{Run, ok, fault, null_pointer, ◌>>=◌}
use lightcache.Protocol.Bytes.{c_string, list_eq}
use lightcache.Hashtab.{HItem}

-- `strcmp(a, b) == 0`
unfoldable pub same_key : Option (List ℕ) → Option (List ℕ) → Run Bool
unfolding c_string list_eq
same_key none b = fault null_pointer
same_key (some a) none = fault null_pointer
same_key (some a) (some b) = ok (list_eq (c_string a) (c_string b))

-- How the loop of `hset` ends: the key is there, or it is not, with the last free item if any.
pub data Scan : Type 0 where
  present : Scan
  vacant : Option ℕ → Scan

-- The loop of `hset` from position `i` on; `new` is the free item that was seen last.
unfoldable pub scan : List HItem → Option (List ℕ) → ℕ → Option ℕ → Run Scan
unfolding same_key
scan [] key i new = ok (vacant new)
scan (p ∷ ps) key i new =
    let rest = scan ps key (i + 1) (if p.free then some i else new) in
    (same_key p.key key >>= λ same. if same && not p.free then ok present else rest)

-- The loop of `hget` from position `i` on.
unfoldable pub search : List HItem → Option (List ℕ) → ℕ → Run (Option ℕ)
unfolding same_key
search [] key i = ok none
search (p ∷ ps) key i =
    let rest = search ps key (i + 1) in
    let here = (same_key p.key key >>= λ same. if same then ok (some i) else rest) in
    if p.free then rest else here
