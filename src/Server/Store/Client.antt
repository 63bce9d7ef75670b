-- ===== src/Server/Store/Client.antt =====
-- What clients see of the cache: a GET of what another connection SET.
use lightcache.Base.{u32, ℕ, ◌≡◌, ◌≢◌, ◌∙◌, ap, sym, true, false, List, some, some-injective, ltb}
use mathlib.Core.Path.{subst}
use lightcache.Base.Run.{◌>>=◌, Returns}
use lightcache.Protocol.{Request, Conn, cached, success, code_value}
use lightcache.Protocol.Bytes.{write_resp_header}
use lightcache.Server.State.{Env, Server}
use lightcache.Server.Answer.{IsAnswered}
use lightcache.Server.Commands.{atoull, age, execute_get, execute_set}
use lightcache.Server.Store.{TableLaws, IsStocked}
use lightcache.Server.Store.Answered.{HasKey, Leaves}
use lightcache.Server.Store.Set.{as_kept}
use lightcache.Server.Store.Change.{execute_set-IsStored}
use lightcache.Server.Store.Get.{IsServed, IsFetched, execute_get-IsFetched}

module _ (env : Env) (laws : TableLaws env) where
  open env use {Table}

  Leaves-HasKey :
      (s t : Server Table) (c r d j : ℕ) (p : Request) (k : List ℕ)
      → Leaves s t c r
      → d ≢ c
      → j ≢ r
      → HasKey s d j p k
      → HasKey t d j p k
  Leaves-HasKey s t c r d j p k leaves ne ne' has = record {
    holds = record {
      owner = ap (λ (x : Conn). x.request) (leaves.conns d ne) ∙ has.holds.owner;
      stored = leaves.requests j p ne' has.holds.stored has.own;
    };
    key = has.key;
    plain = has.plain;
    own = has.own;
  }

  -- A connection `d` is answered with the data of the request `q` at `r`, which is in the store.
  pub record IsHanded (s t : Server Table) (d op r : ℕ) (q : Request) : Type 0 where
    pub stocked : IsStocked env laws t
    pub stored : t.requests r ≡ some (as_kept env laws q)
    pub answered : IsAnswered env s t d op success (u32 q.header.data_length) (cached r)
    pub kept : (t.conns d).out.can_free ≡ false

  module _ (s t : Server Table) (d j : ℕ) (p : Request) (k : List ℕ) (is : IsStocked env laws t)
      (has : HasKey t d j p k) (same : t.conns d ≡ s.conns d) (r : ℕ) (q : Request)
      (stored : t.requests r ≡ some (as_kept env laws q)) (e : List ℕ) (n : ℕ)
      (extra : q.rextra ≡ some e) (number : atoull env e ≡ some n)
      (young : ltb n (age env p.received q.received) ≡ false) where
    handed :
        (u : Server Table)
        → IsFetched env laws t d j p k is has (some (some r)) u
        → IsHanded s u d p.header.opcode r q
    handed u (r', q', at, held, result) =
        let place : r ≡ r' = some-injective at in
        let one : q' ≡ as_kept env laws q =
          some-injective (sym held.stored ∙ ap t.requests (sym place) ∙ stored) in
        let (e', n', extra', number') = held.extra in
        let text : e' ≡ e =
          some-injective (sym extra' ∙ ap (λ (x : Request). x.rextra) one ∙ extra) in
        let num : n' ≡ n = some-injective (sym number' ∙ ap (atoull env) text ∙ number) in
        let young' : ltb n' (age env p.received q'.received) ≡ false =
          ap (λ m. ltb m (age env p.received q'.received)) num
          ∙ ap (λ (x : Request). ltb n (age env p.received x.received)) one
          ∙ young in
        let (stocked, _, requests, kept, answered) =
          subst (λ b. IsServed env laws t d j p k is has r' q' b u) young' result in
        record {
          stocked = stocked;
          stored = ap (λ f. f r) requests ∙ stored;
          answered = record {
            state = answered.state;
            watch = answered.watch;
            header =
                answered.header
                ∙ ap
                    (λ (x : Conn).
                      write_resp_header x.out.resp_header p.header.opcode (code_value success)
                        (u32 q'.header.data_length))
                    same
                ∙ ap
                    (λ (x : Request).
                      write_resp_header (s.conns d).out.resp_header p.header.opcode
                        (code_value success) (u32 x.header.data_length))
                    one;
            payload = answered.payload ∙ ap cached (sym place);
          };
          kept = kept;
        }

  -- On a well-formed cache with room and memory, when one connection SETs a key without a zero byte, with
  -- data and a timeout that reads as a nonzero number, and another then GETs the same key before the time
  -- is over, both return, and the second is answered with SUCCESS and the data of the request of the first,
  -- which is still in the store and which the response does not free.
  pub execute_get-execute_set :
      (s : Server Table) (c r d j : ℕ) (q p : Request) (k bytes e : List ℕ) (n : ℕ)
      → IsStocked env laws s
      → HasKey s c r q k
      → HasKey s d j p k
      → d ≢ c
      → j ≢ r
      → q.rdata ≡ some bytes
      → q.rextra ≡ some e
      → atoull env e ≡ some n
      → ltb n (age env p.received q.received) ≡ false
      → ((m : ℕ) → env.alloc_ok m ≡ true)
      → laws.Room s.table
      → Returns
          (execute_set env s c >>= λ t. execute_get env t d)
          λ u. IsHanded s u d p.header.opcode r q
  execute_get-execute_set s c r d j q p k bytes e n is has has' ne ne' sent extra number young
        always room =
      let (t, run, stored) =
        execute_set-IsStored env laws s c r q k is has bytes e n sent extra number always room in
      let asks = Leaves-HasKey s t c r d j p k stored.leaves ne ne' has' in
      let (u, ran, result) = execute_get-IsFetched env laws t d j p k stored.stocked asks in
      let result' =
        subst (λ w. IsFetched env laws t d j p k stored.stocked asks w u) stored.updates.here
          result in
      (
        u,
        rw run ran,
        handed s t d j p k stored.stocked asks (stored.leaves.conns d ne) r q stored.stored e n
            extra number young u result',
      )
