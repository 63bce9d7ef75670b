-- ===== src/Server/Store/Answered.antt =====
-- A connection with a complete request, and answers to it, on the cache.
use lightcache.Base.{
  ℕ, u32, ◌≡◌, ◌≢◌, ◌∙◌, ap, sym, true, List, none, some, some-injective, arith, ◌==◌,
}
use lightcache.Protocol.{Request, Conn, code_value, Payload, Code}
use lightcache.Protocol.Bytes.{write_resp_header}
use lightcache.Hashtab.Keys.{NoZero}
use lightcache.Server.State.{Env, Server, Holds}
use lightcache.Server.Answer.{responded, IsAnswered}
use lightcache.Server.Store.{TableLaws, IsCached, IsStocked, dropped, place-other}

-- The connection has a complete request with the key `k`, which is not in the cache.
pub record HasKey {Table : Type 0} (s : Server Table) (c r : ℕ) (q : Request) (k : List ℕ)
    : Type 0 where
  pub holds : Holds s c r q
  pub key : q.rkey ≡ some k
  pub plain : NoZero k
  pub own : q.can_free ≡ true

-- `t` differs from `s` in the connection `c`, in the request at `r` and in requests of the cache alone.
pub record Leaves {Table : Type 0} (s t : Server Table) (c r : ℕ) : Type 0 where
  pub conns : (d : ℕ) → d ≢ c → t.conns d ≡ s.conns d
  pub requests :
      (j : ℕ) (p : Request)
      → j ≢ r
      → s.requests j ≡ some p
      → p.can_free ≡ true
      → t.requests j ≡ some p

module _ (env : Env) (laws : TableLaws env) where
  open env use {Table, Item, hfree, set_val, hget}

  -- A response leaves the cache as it is.
  pub responded-IsStocked :
      (s : Server Table) (c : ℕ) (q : Request) (p : Payload) (n : ℕ) (code : Code)
      → IsStocked env laws s
      → IsStocked env laws (responded env s c q p n code)
  responded-IsStocked s c q p n code is = record {
    valid = is.valid;
    stock = λ k w e.
        let (r, q', at, c') = is.stock k w e in
        (r, q', at, record { stored = c'.stored; key = c'.key; kept = c'.kept; extra = c'.extra });
  }

  pub responded-IsAnswered :
      (s s' : Server Table) (c : ℕ) (q : Request) (p : Payload) (n : ℕ) (code : Code)
      → s'.conns c ≡ s.conns c
      → IsAnswered env s (responded env s' c q p n code) c q.header.opcode code (u32 n) p
  responded-IsAnswered s s' c q p n code same =
      let self : c == c ≡ true = ground arith in
      let out = ap (λ (x : Conn). x.out.resp_header) same in
      record {
        state = ground arith;
        watch = ground arith;
        header =
            rw self (ap (λ h. write_resp_header h q.header.opcode (code_value code) (u32 n)) out);
        payload = ground arith;
      }

  -- A request in the cache is not the one that a connection has.
  pub IsCached-HasKey :
      (s : Server Table) (c r r' : ℕ) (q q' : Request) (k k' : List ℕ)
      → HasKey s c r q k
      → IsCached env laws s k' r' q'
      → r ≢ r'
  IsCached-HasKey s c r r' q q' k k' has is same =
      let e : q ≡ q' = some-injective (sym has.holds.stored ∙ ap s.requests same ∙ is.stored) in
      absurd (ground (arith, sym has.own ∙ ap (λ (x : Request). x.can_free) e ∙ is.kept))

  pub dropped-HasKey :
      (s : Server Table) (c r r' : ℕ) (q q' : Request) (k : List ℕ) (it : Item)
      → HasKey s c r q k
      → IsCached env laws s k r' q'
      → HasKey (dropped env laws s it r') c r q k
  dropped-HasKey s c r r' q q' k it has is = record {
    holds = record {
      owner = has.holds.owner;
      stored =
          place-other env laws s.requests r' r none (IsCached-HasKey s c r r' q q' k k has is)
          ∙ has.holds.stored;
    };
    key = has.key;
    plain = has.plain;
    own = has.own;
  }
