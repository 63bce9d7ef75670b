-- ===== src/Server/Store.antt =====
-- The cache: what the commands of src/lightcache.c ask of a hash table, and the requests that it holds.
pub mod Answered
pub mod Delete
pub mod Set
pub mod Change
pub mod Get
pub mod Client
pub mod Table
use lightcache.Base.{
  ℕ, ◌≡◌, ◌≢◌, ◌∙◌, ap, refl, sym, inl, inr, Bool, true, false, List, Option, none, some, arith,
  some-injective, Bool-cases, ◌==◌, ==_iff, if◌then◌else◌,
}
use mathlib.Core.Path.{subst}
use lightcache.Base.Run.{ok, ◌>>=◌, Returns}
use lightcache.Protocol.{Request}
use lightcache.Hashtab.{HResult, hsuccess, hexists}
use lightcache.Protocol.Bytes.{list_eq}
use lightcache.Hashtab.Keys.{NoZero, list_eq_refl, list_eq_sound}
use lightcache.Server.State.{Env, Server, Holds, place, set_request, load}
use lightcache.Server.Commands.{atoull, del_cached_req, drop_item}

-- `t'` differs from `t` in the value of the key `k`, which is `w`.
pub record Updates {Table : Type 0} (value : Table → List ℕ → Option (Option ℕ)) (t t' : Table)
    (k : List ℕ) (w : Option (Option ℕ)) : Type 0 where
  pub here : value t' k ≡ w
  pub others : (k' : List ℕ) → k' ≢ k → value t' k' ≡ value t k'

-- The table is a map from keys without a zero byte. `At t k it w` says that `it` is the item of the key
-- `k`, with the value `w`, and `Room t` that an item can be added.
pub record TableLaws (env : Env) : Type 1 where
  pub Valid : env.Table → Type 0
  pub Room : env.Table → Type 0
  pub value : env.Table → List ℕ → Option (Option ℕ)
  pub At : env.Table → List ℕ → env.Item → Option ℕ → Type 0
  pub get_none :
      (t : env.Table) (k : List ℕ)
      → Valid t
      → NoZero k
      → value t k ≡ none
      → env.hget t (some k) ≡ ok none
  pub get_some :
      (t : env.Table) (k : List ℕ) (w : Option ℕ)
      → Valid t
      → NoZero k
      → value t k ≡ some w
      → (it : env.Item) × (env.hget t (some k) ≡ ok (some it)) × At t k it w
  pub item_val :
      (t : env.Table) (k : List ℕ) (it : env.Item) (w : Option ℕ)
      → At t k it w
      → env.item_val t it ≡ w
  pub assign :
      (t : env.Table) (k : List ℕ) (it : env.Item) (w v : Option ℕ)
      → Valid t
      → At t k it w
      → Valid (env.set_val t it v)
        × At (env.set_val t it v) k it v
        × Updates value t (env.set_val t it v) k (some v)
  pub remove :
      (t : env.Table) (k : List ℕ) (it : env.Item) (w : Option ℕ)
      → Valid t
      → At t k it w
      → Valid (env.hfree t it) × Updates value t (env.hfree t it) k none
  pub add :
      ((n : ℕ) → env.alloc_ok n ≡ true)
      → (t : env.Table) (n : ℕ) (k : List ℕ) (r : ℕ) → Valid t
      → Room t
      → NoZero k
      → value t k ≡ none
      → Returns
          (env.hset t n (some k) r)
          λ x. (x.2 ≡ hsuccess) × Valid x.0 × Updates value t x.0 k (some (some r))
  pub refuse :
      (t : env.Table) (n : ℕ) (k : List ℕ) (r : ℕ) (w : Option ℕ)
      → Valid t
      → NoZero k
      → value t k ≡ some w
      → env.hset t n (some k) r ≡ ok (t, n, hexists)

module _ (env : Env) (laws : TableLaws env) where
  open env use {Table, Item, hfree, set_val}

  -- A request that the cache holds under the key `k`.
  pub record IsCached (s : Server Table) (k : List ℕ) (r : ℕ) (q : Request) : Type 0 where
    pub stored : s.requests r ≡ some q
    pub key : q.rkey ≡ some k
    pub kept : q.can_free ≡ false
    pub extra : (e : List ℕ) × (n : ℕ) × (q.rextra ≡ some e) × (atoull env e ≡ some n)

  -- The table is well formed, and the value of each key is a request that the cache holds.
  pub record IsStocked (s : Server Table) : Type 0 where
    pub valid : laws.Valid s.table
    pub stock :
        (k : List ℕ) (w : Option ℕ)
        → laws.value s.table k ≡ some w
        → (r : ℕ) × (q : Request) × (w ≡ some r) × IsCached s k r q

  -- The state after `del_cached_req` and `hfree` on the item of a request.
  abbrev pub dropped : Server Table → Item → ℕ → Server Table
  dropped s it r = record s {
    requests = place s.requests r none;
    table = hfree (set_val s.table it none) it;
  }

  pub IsCached-elsewhere :
      (s : Server Table) (k k' : List ℕ) (r r' : ℕ) (q q' : Request)
      → k' ≢ k
      → IsCached s k r q
      → IsCached s k' r' q'
      → r' ≢ r
  IsCached-elsewhere s k k' r r' q q' ne one other same =
      let e : q ≡ q' = some-injective (sym one.stored ∙ ap s.requests (sym same) ∙ other.stored) in
      ne (some-injective (sym other.key ∙ ap (λ (x : Request). x.rkey) (sym e) ∙ one.key))

  pub drop_item_run :
      (s : Server Table) (it : Item) (r : ℕ) (q : Request)
      → env.item_val s.table it ≡ some r
      → s.requests r ≡ some q
      → drop_item env s it ≡ ok (dropped s it r)
  unfolding drop_item del_cached_req
  drop_item_run s it r q val live = rw (drop_item, del_cached_req, val, load, live)

  pub place-other {ℓ} : {A : Type ℓ} (f : ℕ → A) (i j : ℕ) (v : A) → j ≢ i → place f i v j ≡ f j
  place-other f i j v ne = let e : j == i ≡ false = ground (arith, ne) in rw e

  pub place-same {ℓ} : {A : Type ℓ} (f : ℕ → A) (i : ℕ) (v : A) → place f i v i ≡ v
  place-same f i v = let e : i == i ≡ true = ground arith in rw e

  -- What a change of the requests and the table keeps.
  pub keeps_stock :
      (s s' : Server Table) (k : List ℕ) (r r₀ : ℕ)
      → IsStocked s
      → laws.Valid s'.table
      → ((k' : List ℕ) → k' ≢ k → laws.value s'.table k' ≡ laws.value s.table k')
      → ((j : ℕ) → j ≢ r → j ≢ r₀ → s'.requests j ≡ s.requests j)
      → ((k' : List ℕ) (r' : ℕ) (q' : Request)
          → k' ≢ k
          → IsCached s k' r' q'
          → (r' ≢ r) × (r' ≢ r₀))
      → ((w : Option ℕ)
          → laws.value s'.table k ≡ some w
          → (r' : ℕ) × (q' : Request) × (w ≡ some r') × IsCached s' k r' q')
      → IsStocked s'
  keeps_stock s s' k r r₀ is valid table requests apart own = record {
    valid = valid;
    stock = λ k' w e. elim (Bool-cases (list_eq k' k)) [
      | inl same ↦
          let name = list_eq_sound k' k same in
          subst (λ l. (r' : ℕ) × (q' : Request) × (w ≡ some r') × IsCached s' l r' q') (sym name)
            (own w (ap (laws.value s'.table) (sym name) ∙ e))
      | inr other ↦
          let ne : k' ≢ k = λ x.
            absurd (ground (arith, other, subst (λ l. list_eq k' l ≡ true) x (list_eq_refl k'))) in
          let (r', q', at, c) = is.stock k' w (sym (table k' ne) ∙ e) in
          (
            r',
            q',
            at,
            record {
              stored = requests r' (apart k' r' q' ne c).0 (apart k' r' q' ne c).1 ∙ c.stored;
              key = c.key;
              kept = c.kept;
              extra = c.extra;
            },
          )
    ];
  }

  pub dropped-IsStocked :
      (s : Server Table) (k : List ℕ) (it : Item) (r : ℕ) (q : Request)
      → IsStocked s
      → laws.At s.table k it (some r)
      → IsCached s k r q
      → IsStocked (dropped s it r) × Updates laws.value s.table (dropped s it r).table k none
  dropped-IsStocked s k it r q is at c =
      let (valid, at', first) = laws.assign s.table k it (some r) none is.valid at in
      let (valid', second) = laws.remove (set_val s.table it none) k it none valid at' in
      let others : (k' : List ℕ)
          → k' ≢ k
          → laws.value (hfree (set_val s.table it none) it) k' ≡ laws.value s.table k' =
        λ k' ne. second.others k' ne ∙ first.others k' ne in
      (
        keeps_stock s (dropped s it r) k r r is valid' others
            (λ j ne _. place-other s.requests r j none ne)
            (λ k' r' q' ne c'. let far = IsCached-elsewhere s k k' r r' q q' ne c c' in (far, far))
            (λ w e. absurd (ground (arith, sym second.here ∙ e))),
        record { here = second.here; others = others },
      )
