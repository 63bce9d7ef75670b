-- ===== src/Hashtab/Valid.antt =====
-- Well-formed tables as finite maps from keys to values.
use lightcache.Base.{
  ℕ, zero, suc, ◌+◌, ◌-◌, ◌^◌, ◌<◌, ◌≤◌, ◌≡◌, ◌≢◌, ◌∙◌, ap, sym, inl, inr, true, List, Option, some,
  arith, length, ltb, ◌==◌, ==_iff, Bool-cases, if◌then◌else◌,
}
use native.Mathlib.Nat.{one-le-pow}
use mathlib.Core.Path.{subst}
use lightcache.Base.Run.{ok, Returns}
use lightcache.Hashtab.{HItem, Htab}
use lightcache.Hashtab.Keys.{home, hhash-home, home-lt}
use lightcache.Hashtab.Hash.{hhash}
use lightcache.Hashtab.Table.{bucket, put_chain, chain_of}
use lightcache.Hashtab.Chain.{AllKeyed, Apart, find_val}

-- The sizes agree, no chain is lost, items stand in the buckets of their keys, and an item in use has
-- its key for itself in what follows it.
pub record IsTable (t : Htab) : Type 0 where
  pub small : t.logsize ≤ 30
  pub realsize : t.realsize ≡ 2 ^ t.logsize
  pub mask : t.mask ≡ 2 ^ t.logsize - 1
  pub word : t.freecount < 2 ^ 32
  pub kept : (h : ℕ) → t.table h ≡ some (chain_of t h)
  pub keyed : (h : ℕ) → AllKeyed t.mask h (chain_of t h)
  pub apart : (h : ℕ) → Apart (chain_of t h)

-- The value of a key, if an item in use has the key.
unfoldable pub lookup : Htab → List ℕ → Option (Option ℕ)
lookup t k = find_val k (chain_of t (home t.mask k))

-- `t'` differs from `t` in the value of the key `k`, which is `w`.
pub record Changes (t t' : Htab) (k : List ℕ) (w : Option (Option ℕ)) : Type 0 where
  pub here : lookup t' k ≡ w
  pub others : (q : List ℕ) → q ≢ k → lookup t' q ≡ lookup t q

abbrev pub with_chain : Htab → ℕ → List HItem → ℕ → ℕ → Htab
with_chain t h chain count freecount = record (put_chain t h chain) {
  count = count;
  freecount = freecount;
}

pub chain_of-with_chain :
    (t : Htab) (h : ℕ) (c : List HItem) (n f g : ℕ)
    → chain_of (with_chain t h c n f) g ≡ (if g == h then c else chain_of t g)
chain_of-with_chain t h c n f g = elim (Bool-cases (g == h)) [ inl e ↦ rw e | inr e ↦ rw e ]

pub chain_of-same :
    (t : Htab) (h : ℕ) (c : List HItem) (n f : ℕ) → chain_of (with_chain t h c n f) h ≡ c
chain_of-same t h c n f =
    let e : h == h ≡ true = ground arith in chain_of-with_chain t h c n f h ∙ rw e

pub with_chain-IsTable :
    (t : Htab) (h : ℕ) (c : List HItem) (n f : ℕ)
    → IsTable t
    → AllKeyed t.mask h c
    → Apart c
    → f < 2 ^ 32
    → IsTable (with_chain t h c n f)
with_chain-IsTable t h c n f v all apart word = record {
  word = word;
  small = v.small;
  realsize = v.realsize;
  mask = v.mask;
  kept = λ g. elim (Bool-cases (g == h)) [ inl e ↦ rw e | inr e ↦ rw e (v.kept g) ];
  keyed = λ g. elim (Bool-cases (g == h)) [
    | inl e ↦ rw e (subst (λ i. AllKeyed t.mask i c) (sym ((==_iff g h).0 e)) all)
    | inr e ↦ rw e (v.keyed g)
  ];
  apart = λ g. elim (Bool-cases (g == h)) [ inl e ↦ rw e apart | inr e ↦ rw e (v.apart g) ];
}

-- A new chain in the bucket of the key, which differs in that key alone.
pub with_chain-Changes :
    (t : Htab) (k : List ℕ) (w : Option (Option ℕ)) (c : List HItem) (n f : ℕ)
    → find_val k c ≡ w
    → ((q : List ℕ) → q ≢ k → find_val q c ≡ find_val q (chain_of t (home t.mask k)))
    → Changes t (with_chain t (home t.mask k) c n f) k w
unfolding lookup
with_chain-Changes t k w c n f here others =
    let h = home t.mask k in
    record {
      here = ap (find_val k) (chain_of-same t h c n f) ∙ here;
      others = λ q ne. elim (Bool-cases (home t.mask q == h)) [
        | inl e ↦
            let s : home t.mask q ≡ h = (==_iff (home t.mask q) h).0 e in
            ap (λ g. find_val q (chain_of (with_chain t h c n f) g)) s
            ∙ ap (find_val q) (chain_of-same t h c n f)
            ∙ others q ne
            ∙ ap (λ g. find_val q (chain_of t g)) (sym s)
        | inr e ↦ ap (find_val q) (chain_of-with_chain t h c n f (home t.mask q) ∙ rw e)
      ];
    }

pub home-realsize : (t : Htab) (k : List ℕ) → IsTable t → home t.mask k < t.realsize
home-realsize t k v =
    let pos : 1 ≤ 2 ^ t.logsize = one-le-pow t.logsize 2 (omega arith) in
    rw (v.mask, v.realsize) (home-lt t.logsize k (omega arith))

-- On a well-formed table the hash of a key is computed within the key and below the size of the array.
pub hhash-realsize :
    (t : Htab) (k : List ℕ)
    → IsTable t
    → Returns (hhash t.mask (some k) (length k)) λ h. h < t.realsize
hhash-realsize t k v = (home t.mask k, hhash-home t.mask k, home-realsize t k v)

pub bucket-IsTable :
    (t : Htab) (h : ℕ) → IsTable t → h < t.realsize → bucket t h ≡ ok (chain_of t h)
bucket-IsTable t h v inside = let e : ltb h t.realsize ≡ true = ground arith in rw (e, v.kept h)

-- The items of the first `n` buckets.
unfoldable pub items_upto : Htab → ℕ → ℕ
items_upto t zero = 0
items_upto t (suc n) = items_upto t n + length (chain_of t n)

abbrev pub items : Htab → ℕ
items t = items_upto t t.realsize

pub items_upto-with_chain :
    (t : Htab) (h : ℕ) (c : List HItem) (n f m : ℕ)
    → items_upto (with_chain t h c n f) m + (if ltb h m then length (chain_of t h) else 0)
      ≡ items_upto t m + (if ltb h m then length c else 0)
unfolding items_upto
items_upto-with_chain t h c n f zero = ground arith
items_upto-with_chain t h c n f (suc m) = elim (Bool-cases (m == h)) [
  | inl e ↦
      let s : m ≡ h = (==_iff m h).0 e in
      let here : length (chain_of t m) ≡ length (chain_of t h) =
        ap (λ g. length (chain_of t g)) s in
      rw e (ground (arith, items_upto-with_chain t h c n f m, here))
  | inr e ↦ rw e (ground (arith, items_upto-with_chain t h c n f m))
]
