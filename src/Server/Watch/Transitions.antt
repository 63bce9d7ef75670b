-- ===== src/Server/Watch/Transitions.antt =====
-- `set_conn_state` on an open connection.
use lightcache.Base.{ℕ, ◌+◌, ◌≡◌, refl, false, Option, List, arith}
use lightcache.Base.Run.{
  null_pointer, After, after_bind, after_any, after_if, after_ok, after_fault, after_option,
}
use lightcache.Protocol.{
  ConnState, read_header, read_key, read_data, cmd_received, send_data, read_extra, cmd_sent, Watch,
  watch_read, watch_write, Request, out_of_memory,
}
use lightcache.Server.State.{Env, Server, place, load_in, set_in}
use lightcache.Server.Resources.{enter_read, set_conn_state}
use lightcache.Server.Watch.{
  AllWatched, IsOpen, others-place, all-place, expected, closed, init_resources-IsSteady,
  disconnect_conn-AllWatched, send_response-AllWatched, enter-IsOpen, enter-AllWatched,
}

module _ (env : Env) (c : ℕ) where
  open env use {Table, alloc_ok}

  pub set_in-IsOpen :
      (w : Watch) (s : Server Table) (q : Request)
      → IsOpen s.conns c w
      → After (set_in s c q) λ s'. IsOpen s'.conns c w
  set_in-IsOpen w s q o =
      after_option (s.conns c).request _ _ (after_fault null_pointer) (λ r. after_ok _ o)

  pub read_header-AllWatched :
      (w : Watch) (s : Server Table)
      → IsOpen s.conns c w
      → After (set_conn_state env s c read_header) λ s'. AllWatched s'.conns
  unfolding set_conn_state
  read_header-AllWatched w s o = after_bind _ _ (init_resources-IsSteady env c w false s o) λ r o'.
      after_if r.1 _ _
        (after_ok _ (
          all-place (place r.0.conns c _) c _ (others-place r.0.conns c _ o'.others)
            (record { watch = ground arith; free = ground (arith, o'.in_use) })))
        (disconnect_conn-AllWatched env c w false r.0 o')

  enter_read-AllWatched :
      (s : Server Table) (st : ConnState) (n : ℕ) (assign : Option (List ℕ) → Request → Request)
      → IsOpen s.conns c watch_read
      → expected st ≡ watch_read
      → closed st ≡ false
      → After (enter_read env s c st n assign) λ s'. AllWatched s'.conns
  enter_read-AllWatched s st n assign o e f =
      let s₁ = record s { allocs = s.allocs + 1 } in
      after_any (load_in s c) _ λ q.
        after_if (alloc_ok s.allocs) _ _
          (after_bind _ _ (set_in-IsOpen watch_read s₁ _ o)
            λ s' o'. after_ok _ (enter-AllWatched env c watch_read s' st o' e f))
          (after_bind _ _ (set_in-IsOpen watch_read s₁ _ o)
            λ s' o'. send_response-AllWatched env c watch_read s' out_of_memory o')

  pub read_key-AllWatched :
      (s : Server Table)
      → IsOpen s.conns c watch_read
      → After (set_conn_state env s c read_key) λ s'. AllWatched s'.conns
  unfolding set_conn_state
  read_key-AllWatched s o = after_any (load_in s c) _ λ q.
      enter_read-AllWatched s read_key q.header.key_length (λ b r. record r { rkey = b }) o refl
        refl

  pub read_data-AllWatched :
      (s : Server Table)
      → IsOpen s.conns c watch_read
      → After (set_conn_state env s c read_data) λ s'. AllWatched s'.conns
  unfolding set_conn_state
  read_data-AllWatched s o = after_any (load_in s c) _ λ q.
      enter_read-AllWatched s read_data q.header.data_length (λ b r. record r { rdata = b }) o refl
        refl

  pub read_extra-AllWatched :
      (s : Server Table)
      → IsOpen s.conns c watch_read
      → After (set_conn_state env s c read_extra) λ s'. AllWatched s'.conns
  unfolding set_conn_state
  read_extra-AllWatched s o = after_any (load_in s c) _ λ q.
      enter_read-AllWatched s read_extra q.header.extra_length (λ b r. record r { rextra = b }) o
        refl refl

  pub cmd_received-IsOpen :
      (w : Watch) (s : Server Table)
      → IsOpen s.conns c w
      → After (set_conn_state env s c cmd_received) λ s'. IsOpen s'.conns c w
  unfolding set_conn_state
  cmd_received-IsOpen w s o = after_ok _ (enter-IsOpen env c w s cmd_received o)

  pub cmd_sent-IsOpen :
      (w : Watch) (s : Server Table)
      → IsOpen s.conns c w
      → After (set_conn_state env s c cmd_sent) λ s'. IsOpen s'.conns c w
  unfolding set_conn_state
  cmd_sent-IsOpen w s o = after_ok _ (enter-IsOpen env c w s cmd_sent o)

  pub send_data-AllWatched :
      (s : Server Table)
      → IsOpen s.conns c watch_write
      → After (set_conn_state env s c send_data) λ s'. AllWatched s'.conns
  unfolding set_conn_state
  send_data-AllWatched s o = after_ok _ (enter-AllWatched env c watch_write s send_data o refl refl)
