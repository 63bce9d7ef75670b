-- ===== src/Server/Store/Table.antt =====
-- The hash table of src/hashtab.c as the table of the server: the calls of src/lightcache.c pass the
-- length of the key, and values are requests.
use lightcache.Base.{
  ℕ, zero, suc, ◌<◌, ◌^◌, ◌≡◌, ◌∙◌, ap, refl, sym, Bool, true, false, List, [], ◌∷◌, Option, none,
  some, arith, length, get_elem?, set, if◌then◌else◌,
}
use mathlib.Core.Path.{subst}
use lightcache.Base.Run.{ok, Returns}
use lightcache.Protocol.{Response}
use lightcache.Hashtab.{HItem, Htab}
use lightcache.Hashtab.Keys.{NoZero, home}
use lightcache.Hashtab.Table.{htcreate, Ref, chain_of, update_item, hget, hfree, hcount, henum}
use lightcache.Hashtab.Grow.{hset}
use lightcache.Hashtab.Chain.{key_of}
use lightcache.Hashtab.Valid.{IsTable, lookup, with_chain, chain_of-same, items}
use lightcache.Hashtab.Steps.{IsGot, hget-IsGot, update_item-IsChanged}
use lightcache.Hashtab.Map.{hset-present, AfterSet, hset-AfterSet, free_at}
use lightcache.Server.State.{Env, Parsed, Stats}
use lightcache.Server.Store.{Updates, TableLaws}

abbrev pub key_size : Option (List ℕ) → ℕ
key_size none = 0
key_size (some k) = length k

abbrev pub value_of : Option HItem → Option ℕ
value_of none = none
value_of (some p) = p.val

-- `item->val = v`
abbrev pub with_val : Option ℕ → HItem → HItem
with_val v p = record p { val = v }

module _ (alloc_ok : ℕ → Bool) (stale_out : ℕ → Response) (strtoull : List ℕ → Parsed)
    (stats_page : Stats → ℕ → ℕ → List ℕ) where
  abbrev pub table_env : Env
  table_env = record {
    alloc_ok = alloc_ok;
    stale_out = stale_out;
    strtoull = strtoull;
    stats_page = stats_page;
    Table = Htab;
    Item = Ref;
    htcreate = htcreate alloc_ok;
    hget = λ t key. hget t key (key_size key);
    hset = λ t n key r. hset alloc_ok t n key (key_size key) (some r);
    hfree = hfree;
    item_val = λ t it. value_of (get_elem? (chain_of t it.0) it.1);
    set_val = λ t it v. update_item t it (with_val v);
    all_items = henum (λ it. false) true;
    hcount = hcount;
  }

  -- The item at `it` is in use, and has the key and the value.
  abbrev pub IsAt : Htab → List ℕ → Ref → Option ℕ → Type 0
  IsAt t k it w =
      (p : HItem) × (it.0 ≡ home t.mask k)
      × (get_elem? (chain_of t it.0) it.1 ≡ some p)
      × (key_of p ≡ k)
      × (p.free ≡ false)
      × (p.val ≡ w)

  abbrev pub HasRoom : Htab → Type 0
  HasRoom t = (t.logsize < 30) × (items t < 2 ^ 27)

  get_elem?-set {ℓ} :
      {A : Type ℓ} (xs : List A) (i : ℕ) (x y : A)
      → get_elem? xs i ≡ some x
      → get_elem? (set xs i y) i ≡ some y
  get_elem?-set [] i x y e = absurd (ground (arith, e))
  get_elem?-set (z ∷ xs) zero x y e = refl
  get_elem?-set (z ∷ xs) (suc i) x y e = get_elem?-set xs i x y e

  update_item_at :
      (t : Htab) (h i : ℕ) (p : HItem) (v : Option ℕ)
      → get_elem? (chain_of t h) i ≡ some p
      → update_item t (h, i) (with_val v)
        ≡ with_chain t h (set (chain_of t h) i (with_val v p)) t.count t.freecount
  update_item_at t h i p v at = rw (update_item, at)

  pub assigned :
      (t : Htab) (k : List ℕ) (it : Ref) (w v : Option ℕ)
      → IsTable t
      → IsAt t k it w
      → IsTable (update_item t it (with_val v))
        × IsAt (update_item t it (with_val v)) k it v
        × Updates lookup t (update_item t it (with_val v)) k (some v)
  assigned t k (h, i) w v valid (p, at_home, at, named, used, _) =
      let c =
        update_item-IsChanged t valid k (h, i) p (with_val v) at_home at named used refl refl in
      let e = update_item_at t h i p v at in
      let chain = set (chain_of t h) i (with_val v p) in
      (
        c.valid,
        subst (λ t'. IsAt t' k (h, i) v) (sym e)
            (
              with_val v p,
              at_home,
              ap (λ xs. get_elem? xs i) (chain_of-same t h chain t.count t.freecount)
                  ∙ get_elem?-set (chain_of t h) i p (with_val v p) at,
              named,
              used,
              refl,
            ),
        record {
          here = c.changes.here ∙ ap (λ (b : Bool). if b then none else some v) used;
          others = c.changes.others;
        },
      )

  pub removed :
      (t : Htab) (k : List ℕ) (it : Ref) (w : Option ℕ)
      → IsTable t
      → IsAt t k it w
      → IsTable (hfree t it) × Updates lookup t (hfree t it) k none
  removed t k (h, i) w valid (p, at_home, at, named, used, _) =
      let f = free_at t valid k p h i at_home at named used in
      (f.valid, record { here = f.changes.here; others = f.changes.others })

  pub got_none :
      (t : Htab) (k : List ℕ)
      → IsTable t
      → NoZero k
      → lookup t k ≡ none
      → hget t (some k) (length k) ≡ ok none
  got_none t k valid plain e =
      let (it, run, is) = hget-IsGot t valid k plain in
      run ∙ ap ok (nothing_got it (subst (λ w. IsGot t valid k plain w it) e is))
    where
      nothing_got : (it : Option Ref) → IsGot t valid k plain none it → it ≡ none
      nothing_got none is = refl
      nothing_got (some i) is = absurd is

  pub got_some :
      (t : Htab) (k : List ℕ) (w : Option ℕ)
      → IsTable t
      → NoZero k
      → lookup t k ≡ some w
      → (it : Ref) × (hget t (some k) (length k) ≡ ok (some it)) × IsAt t k it w
  got_some t k w valid plain e =
      let (it, run, is) = hget-IsGot t valid k plain in
      something_got it run (subst (λ w. IsGot t valid k plain w it) e is)
    where
      something_got :
          (it : Option Ref)
          → hget t (some k) (length k) ≡ ok it
          → IsGot t valid k plain (some w) it
          → (it : Ref) × (hget t (some k) (length k) ≡ ok (some it)) × IsAt t k it w
      something_got none run is = absurd is
      something_got (some i) run is = (i, run, is)

  pub set_by :
      ((m : ℕ) → alloc_ok m ≡ true)
      → (t : Htab) (n : ℕ) (k : List ℕ) (r : ℕ) (w : Option (Option ℕ)) → IsTable t
      → HasRoom t
      → NoZero k
      → lookup t k ≡ w
      → Returns (hset alloc_ok t n (some k) (length k) (some r)) (AfterSet t n k (some r) w)
  set_by always t n k r w valid (room, few) plain e =
      subst
        (λ x. Returns (hset alloc_ok t n (some k) (length k) (some r)) (AfterSet t n k (some r) x))
        e (hset-AfterSet alloc_ok always t valid room few k plain n (some r))

  -- The hash table is a map from keys without a zero byte, as the server takes it to be.
  abbrev pub table_laws : TableLaws table_env
  table_laws = record {
    Valid = IsTable;
    Room = HasRoom;
    value = lookup;
    At = IsAt;
    get_none = got_none;
    get_some = got_some;
    item_val = λ t k it w (p, _, at, _, _, same). ap value_of at ∙ same;
    assign = assigned;
    remove = removed;
    add = λ always t n k r valid room plain e.
        let (x, run, (yes', good, changes, _)) = set_by always t n k r none valid room plain e in
        (x, run, (yes', good, record { here = changes.here; others = changes.others }));
    refuse = λ t n k r w valid plain e. hset-present alloc_ok t valid k plain n (some r) w e;
  }
