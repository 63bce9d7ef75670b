-- ===== src/Tests/Store.antt =====
-- The theorems about the cache at a table with one key and two connections that ask for it.
use lightcache.Base.{
  ℕ, ◌+◌, ◌≡◌, ◌≢◌, ◌∙◌, ap, refl, sym, inl, inr, true, false, none, some, List, [], ◌∷◌, arith,
  some-injective, Bool-cases, ◌==◌, if◌then◌else◌,
}
use mathlib.Core.Path.{subst}
use lightcache.Base.Run.{◌>>=◌, Returns}
use lightcache.Protocol.{Request}
use lightcache.Protocol.Bytes.{list_eq}
use lightcache.Hashtab.{Htab}
use lightcache.Hashtab.Hash.{hash_of}
use lightcache.Hashtab.Keys.{home, list_eq_refl, list_eq_sound, list_eq-ne}
use lightcache.Hashtab.Chain.{find_val}
use lightcache.Hashtab.Valid.{lookup, Changes, with_chain-Changes, items_upto}
use lightcache.Server.State.{Env, Server}
use lightcache.Server.Commands.{atoull, execute_get, execute_set, execute_delete}
use lightcache.Server.Store.{TableLaws, IsStocked}
use lightcache.Server.Store.Answered.{HasKey}
use lightcache.Server.Store.Delete.{IsDeleted, execute_delete-IsDeleted}
use lightcache.Server.Store.Set.{IsStored}
use lightcache.Server.Store.Change.{execute_set-IsStored}
use lightcache.Server.Store.Get.{IsFetched, execute_get-IsFetched}
use lightcache.Server.Store.Client.{IsHanded, execute_get-execute_set}
use lightcache.Server.Store.Table.{table_env, table_laws, HasRoom}
use lightcache.Tests.Fields.{one_entry, reading, key_server}
use lightcache.Tests.Table.{always, key, key-NoZero, empty, held, one, one-IsTable, one-lookup}

abbrev env : Env
env = table_env always one_entry.stale_out one_entry.strtoull one_entry.stats_page

abbrev laws : TableLaws env
laws = table_laws always one_entry.stale_out one_entry.strtoull one_entry.stats_page

abbrev timeout : List ℕ
timeout = 57 ∷ 57 ∷ []

abbrev ask : Request
ask = record reading { rkey = some key; received = 3 }

abbrev change : Request
change = record reading {
  rkey = some key;
  rdata = some (120 ∷ []);
  rextra = some timeout;
  received = 2;
}

abbrev stored : Request
stored = record change { received = 1; can_free = false }

-- The key has the request at 7; connection 0 has the request at 8, and connection 1 the one at 9.
abbrev asked : Server Htab
asked = record {
  requests = λ r.
      if r == 7
      then some stored
      else if r == 8
      then some change
      else if r == 9
      then some ask
      else none;
  next_request = 10;
  table = one;
  conns = λ c. record (key_server.conns c) { request = some (c + 8) };
  conn_list = 0 ∷ 1 ∷ [];
  next_conn = 2;
  stats = key_server.stats;
  idle_conn_timeout = 2;
  now = 100;
  allocs = 3;
}

atoull-timeout : atoull env timeout ≡ some 2
unfolding atoull
atoull-timeout = refl

find_val-held : (q : List ℕ) → q ≢ key → find_val q (held ∷ []) ≡ none
unfolding find_val
find_val-held q ne = let e = list_eq-ne key q (λ s. ne (sym s)) in rw e

one-Changes : Changes empty one key (some (some 7))
unfolding find_val list_eq
one-Changes =
    with_chain-Changes empty key (some (some 7)) (held ∷ []) 1 0 refl (λ q ne. find_val-held q ne)

other_key : (q : List ℕ) → q ≢ key → lookup empty q ≡ none
unfolding lookup find_val
other_key q ne = refl

asked-IsStocked : IsStocked env laws asked
asked-IsStocked = record {
  valid = one-IsTable;
  stock = λ k w e. elim (Bool-cases (list_eq k key)) [
    | inl same ↦
        let name = list_eq_sound k key same in
        (
          7,
          stored,
          some-injective (sym e ∙ subst (λ l. lookup one l ≡ some (some 7)) (sym name) one-lookup),
          record {
            stored = refl;
            key = ap some (sym name);
            kept = refl;
            extra = (timeout, 2, refl, atoull-timeout);
          },
        )
    | inr other ↦
        let ne : k ≢ key = λ s.
          absurd
            (ground (arith, other, subst (λ l. list_eq l key ≡ true) (sym s) (list_eq_refl key))) in
        absurd (ground (arith, sym e ∙ one-Changes.others k ne ∙ other_key k ne))
  ];
}

change-HasKey : HasKey asked 0 8 change key
change-HasKey = record {
  holds = record { owner = refl; stored = refl };
  key = refl;
  plain = key-NoZero;
  own = refl;
}

ask-HasKey : HasKey asked 1 9 ask key
ask-HasKey = record {
  holds = record { owner = refl; stored = refl };
  key = refl;
  plain = key-NoZero;
  own = refl;
}

one-HasRoom : HasRoom always one_entry.stale_out one_entry.strtoull one_entry.stats_page one
unfolding items_upto home hash_of
one-HasRoom = (omega arith, omega arith)

execute_delete-IsDeleted_example :
    Returns (execute_delete env asked 1) (IsDeleted env laws asked 1 ask key (laws.value one key))
execute_delete-IsDeleted_example =
    execute_delete-IsDeleted env laws asked 1 9 ask key asked-IsStocked ask-HasKey

execute_set-IsStored_example :
    Returns (execute_set env asked 0) (IsStored env laws asked 0 8 change key (laws.value one key))
execute_set-IsStored_example =
    execute_set-IsStored env laws asked 0 8 change key asked-IsStocked change-HasKey (120 ∷ [])
      timeout 2 refl refl atoull-timeout (λ m. refl) one-HasRoom

execute_get-IsFetched_example :
    Returns
      (execute_get env asked 1)
      (IsFetched env laws asked 1 9 ask key asked-IsStocked ask-HasKey (laws.value one key))
execute_get-IsFetched_example =
    execute_get-IsFetched env laws asked 1 9 ask key asked-IsStocked ask-HasKey

execute_get-execute_set_example :
    Returns
      (execute_set env asked 0 >>= λ t. execute_get env t 1)
      λ u. IsHanded env laws asked u 1 ask.header.opcode 8 change
execute_get-execute_set_example =
    execute_get-execute_set env laws asked 0 8 1 9 change ask key (120 ∷ []) timeout 2
      asked-IsStocked change-HasKey ask-HasKey (ground arith) (ground arith) refl refl
      atoull-timeout refl (λ m. refl) one-HasRoom
