-- ===== src/Server/Settings.antt =====
-- The setting that clients can change, `idle_conn_timeout`, through CHG_SETTING and GET_SETTING.
use lightcache.Base.{ℕ, ◌+◌, ◌≡◌, ◌≢◌, true, some, List, arith}
use lightcache.Base.Run.{ok, ◌>>=◌, Returns}
use lightcache.Protocol.{Request, nothing, success, own}
use lightcache.Protocol.Bytes.{be64, names_idle_timeout}
use lightcache.Server.State.{Env, Server, Holds, load_in-Holds}
use lightcache.Server.Answer.{responded, add_response_run, send_response_run, IsAnswered}
use lightcache.Server.Commands.{atoull, execute_chg_setting, execute_get_setting}

module _ (env : Env) where
  open env use {Table, alloc_ok}

  get_setting_run :
      (s : Server Table) (c r : ℕ) (q : Request) (key : List ℕ)
      → Holds s c r q
      → q.rkey ≡ some key
      → names_idle_timeout key ≡ true
      → alloc_ok s.allocs ≡ true
      → execute_get_setting env s c
        ≡ ok (
            responded env
              (record s { allocs = s.allocs + 1 })
              c
              q
              (own (be64 s.idle_conn_timeout))
              8
              success)
  unfolding execute_get_setting
  get_setting_run s c r q key h k names room =
      let s' = record s { allocs = s.allocs + 1 } in
      let h' : Holds s' c r q = record { owner = h.owner; stored = h.stored } in
      rw (load_in-Holds s c r q h, k, names, room)
        (add_response_run env s' c r q (own (be64 s.idle_conn_timeout)) 8 success h')

  chg_setting_run :
      (s : Server Table) (c r : ℕ) (q : Request) (key bytes : List ℕ) (v : ℕ)
      → Holds s c r q
      → q.rkey ≡ some key
      → names_idle_timeout key ≡ true
      → q.rdata ≡ some bytes
      → atoull env bytes ≡ some v
      → execute_chg_setting env s c
        ≡ ok (responded env (record s { idle_conn_timeout = v }) c q nothing 0 success)
  unfolding execute_chg_setting
  chg_setting_run s c r q key bytes v h k names d num =
      let s' = record s { idle_conn_timeout = v } in
      let h' : Holds s' c r q = record { owner = h.owner; stored = h.stored } in
      rw (load_in-Holds s c r q h, d, k, names, num) (send_response_run env s' c r q success h')

  -- A CHG_SETTING of the idle timeout on one connection and a GET_SETTING on another, whose
  -- requests are complete: if the data reads as the nonzero number `v` and there is memory for the
  -- reply, both are answered with success, the first without data and the second with the eight
  -- bytes of `v`, from the most significant on.
  pub execute_chg_setting-execute_get_setting :
      (s : Server Table) (c d r k v : ℕ) (change ask : Request) (key key' bytes : List ℕ)
      → d ≢ c
      → Holds s c r change
      → Holds s d k ask
      → change.rkey ≡ some key
      → names_idle_timeout key ≡ true
      → change.rdata ≡ some bytes
      → atoull env bytes ≡ some v
      → ask.rkey ≡ some key'
      → names_idle_timeout key' ≡ true
      → alloc_ok s.allocs ≡ true
      → Returns (execute_chg_setting env s c >>= λ s'. execute_get_setting env s' d) λ t.
        IsAnswered env s t c change.header.opcode success 0 nothing
        × IsAnswered env s t d ask.header.opcode success 8 (own (be64 v))
  execute_chg_setting-execute_get_setting s c d r k v change ask key key' bytes ne h g e names sent
        num e' names' room =
      let s₁ = responded env (record s { idle_conn_timeout = v }) c change nothing 0 success in
      let g₁ : Holds s₁ d k ask = record { owner = ground (arith, g.owner); stored = g.stored } in
      (
        responded env (record s₁ { allocs = s₁.allocs + 1 }) d ask (own (be64 v)) 8 success,
        rw (chg_setting_run s c r change key bytes v h e names sent num)
            (get_setting_run s₁ d k ask key' g₁ e' names' room),
        (
          record {
            state = ground arith;
            watch = ground arith;
            header = ground arith;
            payload = ground arith;
          },
          record {
            state = ground arith;
            watch = ground arith;
            header = ground arith;
            payload = ground arith;
          },
        ),
      )
