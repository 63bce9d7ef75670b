-- ===== src/Server/State.antt =====
-- The state of the server (the globals of src/lightcache.c, and the memory that they point to), and
-- what the server uses of its surroundings.
use lightcache.Base.{ℕ, Bool, List, Option, none, some, ◌==◌, if◌then◌else◌}
use lightcache.Base.{◌≡◌}
use lightcache.Base.Run.{Run, ok, fault, null_pointer, use_after_free}
use lightcache.Hashtab.{HResult}
use lightcache.Protocol.{Request, Response, Conn}

-- `struct stats` and the settings that commands and connections read
pub record Stats : Type 0 where
  pub start_time : ℕ
  pub curr_connections : ℕ
  pub cmd_get : ℕ
  pub cmd_set : ℕ
  pub get_hits : ℕ
  pub get_misses : ℕ
  pub bytes_read : ℕ
  pub bytes_written : ℕ

-- What `strtoull` gives: the number, and whether `errno` is ERANGE or EINVAL.
pub record Parsed : Type 0 where
  pub value : ℕ
  pub failed : Bool

-- The surroundings: the outcome of the n-th `li_malloc` and what its memory holds at the place of
-- `conn->out`, the C library, and the hash table of src/hashtab.h with its items as references into
-- a table. A value is a pointer to a request.
pub record Env : Type 1 where
  pub alloc_ok : ℕ → Bool
  pub stale_out : ℕ → Response
  pub strtoull : List ℕ → Parsed
  pub stats_page : Stats → ℕ → ℕ → List ℕ
  pub Table : Type 0
  pub Item : Type 0
  pub htcreate : ℕ → ℕ → Option Table × ℕ
  pub hget : Table → Option (List ℕ) → Run (Option Item)
  pub hset : Table → ℕ → Option (List ℕ) → ℕ → Run (Table × ℕ × HResult)
  pub hfree : Table → Item → Table
  pub item_val : Table → Item → Option ℕ
  pub set_val : Table → Item → Option ℕ → Table
  pub all_items : Table → Run (List Item)
  pub hcount : Table → ℕ

-- `requests` is the memory for requests, `none` where nothing lives; addresses from `next_request`
-- on were never used. `allocs` counts the calls of `li_malloc`, and `now` is `CURRENT_TIME`.
pub record Server (Table : Type 0) : Type 0 where
  pub requests : ℕ → Option Request
  pub next_request : ℕ
  pub table : Table
  pub conns : ℕ → Conn
  pub conn_list : List ℕ
  pub next_conn : ℕ
  pub stats : Stats
  pub idle_conn_timeout : ℕ
  pub now : ℕ
  pub allocs : ℕ

abbrev pub place {ℓ} : {A : Type ℓ} → (ℕ → A) → ℕ → A → ℕ → A
place f k v q = if q == k then v else f q

module _ {Table : Type 0} where
  abbrev pub set_conn : Server Table → ℕ → Conn → Server Table
  set_conn s c conn = record s { conns = place s.conns c conn }

  abbrev pub set_request : Server Table → ℕ → Option Request → Server Table
  set_request s r q = record s { requests = place s.requests r q }

  abbrev pub set_stats : Server Table → Stats → Server Table
  set_stats s stats = record s { stats = stats }

  -- `*req`
  abbrev pub load : Server Table → Option ℕ → Run Request
  load s none = fault null_pointer
  load s (some r) = elim (s.requests r) [ none ↦ fault use_after_free | some q ↦ ok q ]

  -- The request that a connection is reading or has read.
  abbrev pub load_in : Server Table → ℕ → Run Request
  load_in s c = load s (s.conns c).request

  -- `req->... = ...` on the request of a connection
  abbrev pub set_in : Server Table → ℕ → Request → Run (Server Table)
  set_in s c q = elim (s.conns c).request [
    | none ↦ fault null_pointer
    | some r ↦ ok (set_request s r (some q))
  ]

  -- Connection `c` holds the request `q`, at the address `r`.
  pub record Holds (s : Server Table) (c r : ℕ) (q : Request) : Type 0 where
    pub owner : (s.conns c).request ≡ some r
    pub stored : s.requests r ≡ some q

  pub load_in-Holds :
      (s : Server Table) (c r : ℕ) (q : Request) → Holds s c r q → load_in s c ≡ ok q
  load_in-Holds s c r q h = rw (h.owner, load, h.stored)

  pub set_in-Holds :
      (s : Server Table) (c r : ℕ) (q q' : Request)
      → Holds s c r q
      → set_in s c q' ≡ ok (set_request s r (some q'))
  set_in-Holds s c r q q' h = rw (set_in, h.owner)
