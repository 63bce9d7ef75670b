-- ===== src/Server/Start.antt =====
-- The start of main of src/lightcache.c: settings, statistics, arguments and the choice of the allocator.
pub mod Allocator
use lightcache.Base.{
  u64, ℕ, ◌*◌, ◌/◌, ◌%◌, ◌^◌, Bool, true, false, List, [], ◌∷◌, Option, none, some, ltb,
  if◌then◌else◌,
}
use lightcache.Base.Run.{Run, ok, ◌>>=◌}
use lightcache.Slab.Init.Setup.{Block, Setup, init_cache_manager}
use lightcache.Server.State.{Env, Stats}
use lightcache.Server.Commands.{atoull}

-- `struct settings`
pub record Settings : Type 0 where
  pub deamon_mode : ℕ
  pub mem_avail : ℕ
  pub idle_conn_timeout : ℕ
  pub socket_path : Option (List ℕ)
  pub use_sys_malloc : Bool
  pub fd_limit : ℕ

-- `init_settings` without DEBUG
abbrev pub init_settings : Settings
init_settings = record {
  deamon_mode = 1;
  mem_avail = 64 * 1024 * 1024;
  idle_conn_timeout = 2;
  socket_path = none;
  use_sys_malloc = false;
  fd_limit = 1024;
}

-- `init_stats`, at the time `now`
abbrev pub init_stats : ℕ → Stats
init_stats now = record {
  start_time = now;
  curr_connections = 0;
  cmd_get = 0;
  cmd_set = 0;
  get_hits = 0;
  get_misses = 0;
  bytes_read = 0;
  bytes_written = 0;
}

-- An option of the command line with its text, as `getopt` gives it.
pub data Argument : Type 0 where
  argument_m argument_d argument_s argument_l : List ℕ → Argument
  argument_unknown : Argument

module _ (env : Env) (atoi : List ℕ → ℕ) where
  -- The branches of the `switch`; `none` is `goto err`.
  unfoldable pub take_argument : Settings → Argument → Option Settings
  unfolding atoull
  take_argument st (argument_m optarg) = elim (atoull env optarg) [
    | none ↦ none
    | some param ↦ some (record st { mem_avail = u64 (u64 (param * 1024) * 1024) })
  ]
  take_argument st (argument_d optarg) = some (record st { deamon_mode = atoi optarg })
  take_argument st (argument_s optarg) = some (record st { socket_path = some optarg })
  take_argument st (argument_l optarg) = some (record st { fd_limit = atoi optarg })
  take_argument st argument_unknown = some st

  -- The loop over the arguments.
  unfoldable pub take_arguments : Settings → List Argument → Option Settings
  unfolding take_argument
  take_arguments st [] = some st
  take_arguments st (a ∷ rest) = elim (take_argument st a) [
    | none ↦ none
    | some st' ↦ take_arguments st' rest
  ]

-- The two tests after `init_cache_manager`.
abbrev pub allocator_settings : Settings → Setup × Bool → Settings
allocator_settings st (s, false) = record st { use_sys_malloc = true }
allocator_settings st (s, true) =
    let stats = s.slabs.slab_stats in
    if ltb stats.slab_count stats.cache_count then record st { use_sys_malloc = true } else st

-- The call of `init_cache_manager` and what follows it; see there for the parameters.
module _ (malloc : List Block → ℕ → Option ℕ) (scaled : ℕ → ℕ) (count : ℕ) where
  unfoldable pub choose_allocator : Setup → Settings → Run (Setup × Settings)
  unfolding init_cache_manager
  choose_allocator s st =
      init_cache_manager malloc scaled count s (st.mem_avail / 1024 / 1024) >>= λ r.
      ok (r.0, allocator_settings st r)
