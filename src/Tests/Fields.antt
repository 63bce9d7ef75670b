-- ===== src/Tests/Fields.antt =====
-- The server at a concrete environment and state, and the theorems about it there.
use lightcache.Base.{
  ℕ, ◌+◌, ◌≡◌, refl, Option, none, some, List, [], ◌∷◌, arith, replicate, true, false, length, ◌==◌,
  if◌then◌else◌,
}
use lightcache.Base.Run.{After, ok, Returns}
use lightcache.Protocol.{
  Request, Response, Conn, read_key, nothing, watch_read, need_more, read_completed,
}
use lightcache.Protocol.Bytes.{list_eq}
use lightcache.Hashtab.{hsuccess}
use lightcache.Server.State.{Env, Server, Holds}
use lightcache.Server.Reading.{byte, key_field}
use lightcache.Server.Events.{readable, event_handler}
use lightcache.Server.Watch.{AllWatched}
use lightcache.Server.Loop.{Round, serve}
use lightcache.Server.Loop.Rounds.{serve-AllWatched}
use lightcache.Server.Watch.Handler.{event_handler-AllWatched}
use lightcache.Server.Transfer.Receive.{read_all, IsReceived, read_all-IsReceived}

-- The table of one entry: its key and its value.
abbrev pub Entry : Type 0
Entry = Option (List ℕ × Option ℕ)

abbrev find : Entry → Option (List ℕ) → Option (Unit {0})
find (some (k, v)) (some key) = if list_eq k key then some tt else none
find _ _ = none

abbrev value : Entry → Option ℕ
value none = none
value (some (k, v)) = v

abbrev assign : Entry → Option ℕ → Entry
assign none v = none
assign (some (k, w)) v = some (k, v)

abbrev insert : Entry → Option (List ℕ) → ℕ → Entry
insert t none r = t
insert t (some key) r = some (key, some r)

abbrev blank_out : Response
blank_out = record { resp_header = replicate 8 0; sdata = nothing; sbytes = 0; can_free = false }

abbrev pub one_entry : Env
one_entry = record {
  alloc_ok = λ n. true;
  stale_out = λ n. blank_out;
  strtoull = λ s. record { value = length s; failed = false };
  stats_page = λ t now n. replicate 512 0;
  Table = Entry;
  Item = Unit {0};
  htcreate = λ n logsize. (some none, n + 2);
  hget = λ t key. ok (find t key);
  hset = λ t n key r. ok (insert t key r, n + 2, hsuccess);
  hfree = λ t it. none;
  item_val = λ t it. value t;
  set_val = λ t it v. assign t v;
  all_items = λ t. ok [];
  hcount = λ t. 0;
}

abbrev pub reading : Request
reading = record {
  header_bytes = replicate 12 0;
  header = record { opcode = 0; key_length = 3; data_length = 0; extra_length = 0 };
  rdata = none;
  rkey = some (0 ∷ 0 ∷ 0 ∷ []);
  rextra = none;
  rbytes = 0;
  received = 0;
  can_free = true;
}

abbrev key_conn : Conn
key_conn = record {
  fd = 5;
  listening = false;
  free = false;
  last_heard = 0;
  state = read_key;
  request = some 7;
  out = blank_out;
  watch = watch_read;
  sent = [];
}

abbrev pub key_server : Server Entry
key_server = record {
  requests = λ r. if r == 7 then some reading else none;
  next_request = 8;
  table = none;
  conns = λ c. key_conn;
  conn_list = 0 ∷ [];
  next_conn = 1;
  stats = record {
    start_time = 0;
    curr_connections = 1;
    cmd_get = 0;
    cmd_set = 0;
    get_hits = 0;
    get_misses = 0;
    bytes_read = 12;
    bytes_written = 0;
  };
  idle_conn_timeout = 2;
  now = 100;
  allocs = 3;
}

key_server-Holds : Holds key_server 0 7 reading
key_server-Holds = record { owner = refl; stored = refl }

read_all-IsReceived_example :
    Returns
      (read_all one_entry key_server 0 key_field 3 need_more (97 ∷ 98 ∷ 99 ∷ []))
      λ t. (t.1 ≡ read_completed) × IsReceived one_entry key_field (97 ∷ 98 ∷ 99 ∷ []) t.0 0 7
read_all-IsReceived_example =
    read_all-IsReceived one_entry (97 ∷ 98 ∷ 99 ∷ []) (0 ∷ 0 ∷ 0 ∷ []) key_server 0 7 reading
      key_field key_server-Holds refl refl refl (omega arith) (omega arith)

key_server-AllWatched : AllWatched key_server.conns
key_server-AllWatched d = record { watch = refl; free = refl }

event_handler-AllWatched_example :
    After (event_handler one_entry key_server 0 (readable (byte 97) none)) λ s'. AllWatched s'.conns
event_handler-AllWatched_example =
    event_handler-AllWatched one_entry key_server 0 (readable (byte 97) none) key_server-AllWatched

-- The listening connection is ready for a client; then an event comes from the new connection.
abbrev two_rounds : List Round
two_rounds =
    record {
      ctime = 5;
      now = 5;
      events = some (record { conn = 1; input = some (byte 0, some 8); output = none } ∷ []);
      memused = 10;
    }
    ∷ record {
      ctime = 7;
      now = 7;
      events = some (record { conn = 2; input = some (byte 97, none); output = none } ∷ []);
      memused = 10;
    }
    ∷ []

abbrev first_server : Server Entry
first_server = record key_server { conn_list = [] }

serve-AllWatched_example :
    After (serve one_entry 1000 first_server (some 3) two_rounds) λ s'. AllWatched s'.conns
serve-AllWatched_example =
    serve-AllWatched one_entry 1000 first_server (some 3) two_rounds refl key_server-AllWatched
