-- ===== src/Server/Store/Change.antt =====
-- `execute_set` as a whole on the cache.
use lightcache.Base.{u64, ℕ, ◌+◌, ◌≡◌, refl, true, List, some}
use lightcache.Base.Run.{Run, ◌>>=◌, Returns}
use lightcache.Protocol.{Request}
use lightcache.Server.State.{Env, Server, Stats, Holds, load_in-Holds}
use lightcache.Server.Commands.{atoull, bytes_at, count_stats, store_request, execute_set}
use lightcache.Server.Store.{TableLaws, IsStocked}
use lightcache.Server.Store.Answered.{HasKey}
use lightcache.Server.Store.Set.{IsStored, IsStored-at}

module _ (env : Env) (laws : TableLaws env) where
  open env use {Table, Item, hget}

  pub counted-IsStocked :
      (s : Server Table) (f : Stats → Stats)
      → IsStocked env laws s
      → IsStocked env laws (count_stats env s f)
  counted-IsStocked s f is = record {
    valid = is.valid;
    stock = λ k w e.
        let (r, q, at, c) = is.stock k w e in
        (r, q, at, record { stored = c.stored; key = c.key; kept = c.kept; extra = c.extra });
  }

  pub counted-HasKey :
      (s : Server Table) (f : Stats → Stats) (c r : ℕ) (q : Request) (k : List ℕ)
      → HasKey s c r q k
      → HasKey (count_stats env s f) c r q k
  counted-HasKey s f c r q k has = record {
    holds = record { owner = has.holds.owner; stored = has.holds.stored };
    key = has.key;
    plain = has.plain;
    own = has.own;
  }

  module _ (s : Server Table) (c r : ℕ) (q : Request) (k : List ℕ) (is : IsStocked env laws s)
      (has : HasKey s c r q k) where
    execute_set_run :
        (bytes e : List ℕ) (n : ℕ) (end : Run (Server Table))
        → q.rdata ≡ some bytes
        → q.rextra ≡ some e
        → atoull env e ≡ some n
        → store_request env (count_stats env s (λ t. record t { cmd_set = u64 (t.cmd_set + 1) })) c
          ≡ end
        → execute_set env s c ≡ end
    unfolding execute_set
    execute_set_run bytes e n end sent extra number rest =
        let s₁ = count_stats env s (λ t. record t { cmd_set = u64 (t.cmd_set + 1) }) in
        let h : Holds s₁ c r q = record { owner = has.holds.owner; stored = has.holds.stored } in
        rw (load_in-Holds s₁ c r q h, sent, extra, bytes_at, ◌>>=◌, number) rest

    -- SET of a key without a zero byte, on a well-formed cache with room and memory, with data and a
    -- timeout that reads as a nonzero number, returns: the key has the request for its value, all other
    -- keys keep theirs, the request is kept, the one that the key had before is freed, other connections
    -- and their requests stay as they are, and the answer is SUCCESS.
    pub execute_set-IsStored :
        (bytes e : List ℕ) (n : ℕ)
        → q.rdata ≡ some bytes
        → q.rextra ≡ some e
        → atoull env e ≡ some n
        → ((m : ℕ) → env.alloc_ok m ≡ true)
        → laws.Room s.table
        → Returns (execute_set env s c) (IsStored env laws s c r q k (laws.value s.table k))
    execute_set-IsStored bytes e n sent extra number always room =
        let f = λ (t : Stats). record t { cmd_set = u64 (t.cmd_set + 1) } in
        let s₁ = count_stats env s f in
        let (t, run, is') =
          IsStored-at env laws s₁ c r q k (counted-IsStocked s f is)
            (counted-HasKey s f c r q k has) e n extra number always room (laws.value s.table k)
            refl in
        (
          t,
          execute_set_run bytes e n _ sent extra number run,
          record {
            stocked = is'.stocked;
            updates = is'.updates;
            stored = is'.stored;
            replaced = is'.replaced;
            leaves = record { conns = is'.leaves.conns; requests = is'.leaves.requests };
            answered = record {
              state = is'.answered.state;
              watch = is'.answered.watch;
              header = is'.answered.header;
              payload = is'.answered.payload;
            };
          },
        )
