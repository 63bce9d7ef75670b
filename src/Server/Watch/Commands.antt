-- ===== src/Server/Watch/Commands.antt =====
-- `execute_cmd` on a connection that is in use, and what the connections wait for after it.
use lightcache.Base.{u64, ℕ, ◌+◌, Option, some, List, [], ◌∷◌, ltb}
use lightcache.Base.Run.{
  null_pointer, assert_failed, assert, ◌>>=◌, After, after_bind, after_any, after_if, after_ok,
  after_fault, after_option,
}
use lightcache.Protocol.{
  Watch, Command, cmd_get, cmd_set, cmd_chg_setting, cmd_get_setting, cmd_get_stats, cmd_delete,
  cmd_flush_all, unrecognized, key_notexists, invalid_param, success, out_of_memory,
  invalid_command, own, cached,
}
use lightcache.Protocol.Bytes.{be64, command_of, names_idle_timeout}
use lightcache.Hashtab.{HResult, hsuccess, herror, hexists}
use lightcache.Server.State.{Env, Server, load, load_in}
use lightcache.Server.Commands.{
  is_cmd_received, bytes_at, atoull, del_cached_req, drop_item, count_stats, get_notexists, age,
  get_found, execute_get, replace_value, keep_request, store_request, execute_set, execute_delete,
  flush_items, execute_flush_all, execute_chg_setting, execute_get_setting, execute_get_stats,
  dispatch, execute_cmd,
}
use lightcache.Server.Resources.{send_response}
use lightcache.Server.Watch.{
  AllWatched, IsOpen, all-place, add_response-AllWatched, send_response-AllWatched,
}
use lightcache.Server.Watch.Transitions.{set_in-IsOpen}

module _ (env : Env) (c : ℕ) (w : Watch) where
  open env use {Table, Item, item_val, hget, hset, alloc_ok, all_items, stats_page, hcount, set_val}

  abbrev Open : Server Table → Type 0
  Open s = IsOpen s.conns c w

  abbrev Answered : Server Table → Type 0
  Answered s = AllWatched s.conns

  del_cached_req-IsOpen :
      (s : Server Table) (it : Item) → Open s → After (del_cached_req env s it) Open
  unfolding del_cached_req
  del_cached_req-IsOpen s it o =
      after_option (item_val s.table it) _ _ (after_ok _ o)
        (λ r. after_any (load s (some r)) _ λ q. after_ok _ o)

  drop_item-IsOpen : (s : Server Table) (it : Item) → Open s → After (drop_item env s it) Open
  unfolding drop_item
  drop_item-IsOpen s it o = after_bind _ _ (del_cached_req-IsOpen s it o) λ s' o'. after_ok _ o'

  get_notexists-AllWatched : (s : Server Table) → Open s → After (get_notexists env s c) Answered
  unfolding get_notexists
  get_notexists-AllWatched s o = send_response-AllWatched env c w _ key_notexists o

  get_found-AllWatched :
      (s : Server Table) (it : Item) → Open s → After (get_found env s c it) Answered
  unfolding get_found
  get_found-AllWatched s it o = after_any (load_in s c) _ λ req.
      after_any (load s (item_val s.table it)) _ λ cached_req.
        after_any (bytes_at cached_req.rextra) _ λ extra.
          after_option (atoull env extra) _ _ (after_fault assert_failed) λ timeout.
            after_if (ltb timeout (age env req.received cached_req.received)) _ _
              (after_bind _ _ (drop_item-IsOpen s it o) get_notexists-AllWatched)
              (after_option (item_val s.table it) _ _ (after_fault null_pointer) λ r.
                after_bind _ _
                  (add_response-AllWatched env c w _ (cached r) cached_req.header.data_length
                    success o)
                  λ s' a. after_ok _ (
                    all-place s'.conns c _ (λ d ne. a d)
                      (record { watch = (a c).watch; free = (a c).free })))

  execute_get-AllWatched : (s : Server Table) → Open s → After (execute_get env s c) Answered
  unfolding execute_get
  execute_get-AllWatched s o =
      let s₁ = count_stats env s (λ t. record t { cmd_get = u64 (t.cmd_get + 1) }) in
      after_any (load_in s₁ c) _ λ req. after_any (hget s₁.table req.rkey) _ λ found.
        after_option found _ _ (get_notexists-AllWatched s₁ o) λ it. get_found-AllWatched s₁ it o

  replace_value-IsOpen :
      (s : Server Table) (key : Option (List ℕ)) → Open s → After (replace_value env s c key) Open
  unfolding replace_value
  replace_value-IsOpen s key o = after_any (hget s.table key) _ λ found.
      after_option found _ _ (after_fault assert_failed)
        λ it. after_bind _ _ (del_cached_req-IsOpen s it o) λ s' o'. after_ok _ o'

  keep_request-AllWatched : (s : Server Table) → Open s → After (keep_request env s c) Answered
  unfolding keep_request
  keep_request-AllWatched s o = after_any (load_in s c) _ λ req.
      after_bind _ _ (set_in-IsOpen env c w s _ o)
        λ s' o'. send_response-AllWatched env c w s' success o'

  store_request-AllWatched : (s : Server Table) → Open s → After (store_request env s c) Answered
  unfolding store_request
  store_request-AllWatched s o = after_any (load_in s c) _ λ req.
      after_option (s.conns c).request _ _ (after_fault null_pointer)
        λ r. after_any (hset s.table s.allocs req.rkey r) _ λ t. stored req.rkey t.0 t.1 t.2
    where
      stored :
          (key : Option (List ℕ)) (table : Table) (allocs : ℕ) (ret : HResult)
          → let s' = record s { table = table; allocs = allocs } in
            After
              (elim ret [
                | herror ↦ send_response env s' c out_of_memory
                | hexists ↦ (replace_value env s' c key >>= λ s''. keep_request env s'' c)
                | hsuccess ↦ keep_request env s' c
              ])
              Answered
      stored key table allocs herror = send_response-AllWatched env c w _ out_of_memory o
      stored key table allocs hexists =
          after_bind _ _ (replace_value-IsOpen _ key o) keep_request-AllWatched
      stored key table allocs hsuccess = keep_request-AllWatched _ o

  execute_set-AllWatched : (s : Server Table) → Open s → After (execute_set env s c) Answered
  unfolding execute_set
  execute_set-AllWatched s o =
      let s₁ = count_stats env s (λ t. record t { cmd_set = u64 (t.cmd_set + 1) }) in
      after_any (load_in s₁ c) _ λ req.
        after_option req.rdata _ _ (send_response-AllWatched env c w s₁ invalid_param o) λ bytes.
          after_any (bytes_at req.rextra) _ λ extra.
            after_option (atoull env extra) _ _
              (send_response-AllWatched env c w s₁ invalid_param o)
              λ timeout. store_request-AllWatched s₁ o

  execute_delete-AllWatched : (s : Server Table) → Open s → After (execute_delete env s c) Answered
  unfolding execute_delete
  execute_delete-AllWatched s o = after_any (load_in s c) _ λ req.
      after_any (hget s.table req.rkey) _ λ found.
        after_option found _ _ (send_response-AllWatched env c w s key_notexists o) λ it.
          after_bind _ _ (drop_item-IsOpen s it o)
            λ s' o'. send_response-AllWatched env c w s' success o'

  flush_items-IsOpen :
      (its : List Item) (s : Server Table) → Open s → After (flush_items env its s) Open
  unfolding flush_items
  flush_items-IsOpen [] s o = after_ok s o
  flush_items-IsOpen (it ∷ its) s o =
      after_bind _ _ (drop_item-IsOpen s it o) λ s' o'. flush_items-IsOpen its s' o'

  execute_flush_all-AllWatched :
      (s : Server Table) → Open s → After (execute_flush_all env s c) Answered
  unfolding execute_flush_all
  execute_flush_all-AllWatched s o = after_any (all_items s.table) _ λ its.
      after_bind _ _ (flush_items-IsOpen its s o)
        λ s' o'. send_response-AllWatched env c w s' success o'

  execute_chg_setting-AllWatched :
      (s : Server Table) → Open s → After (execute_chg_setting env s c) Answered
  unfolding execute_chg_setting
  execute_chg_setting-AllWatched s o =
      let invalid = send_response-AllWatched env c w s invalid_param o in
      after_any (load_in s c) _ λ req. after_option req.rdata _ _ invalid λ bytes.
        after_any (bytes_at req.rkey) _ λ key.
          after_if (names_idle_timeout key) _ _
            (after_option (atoull env bytes) _ _ invalid
              λ val. send_response-AllWatched env c w _ success o)
            invalid

  execute_get_setting-AllWatched :
      (s : Server Table) → Open s → After (execute_get_setting env s c) Answered
  unfolding execute_get_setting
  execute_get_setting-AllWatched s o = after_any (load_in s c) _ λ req.
      after_any (bytes_at req.rkey) _ λ key.
        after_if (names_idle_timeout key) _ _
          (after_if (alloc_ok s.allocs) _ _
            (add_response-AllWatched env c w _ (own (be64 s.idle_conn_timeout)) 8 success o)
            (send_response-AllWatched env c w _ out_of_memory o))
          (send_response-AllWatched env c w s invalid_param o)

  execute_get_stats-AllWatched :
      (s : Server Table) → Open s → After (execute_get_stats env s c) Answered
  unfolding execute_get_stats
  execute_get_stats-AllWatched s o =
      after_if (alloc_ok s.allocs) _ _ (add_response-AllWatched env c w _ _ 512 success o)
        (send_response-AllWatched env c w _ out_of_memory o)

  dispatch-AllWatched :
      (cmd : Command) (s : Server Table) → Open s → After (dispatch env cmd s c) Answered
  unfolding dispatch
  dispatch-AllWatched cmd_get s o = execute_get-AllWatched s o
  dispatch-AllWatched cmd_set s o = execute_set-AllWatched s o
  dispatch-AllWatched cmd_chg_setting s o = execute_chg_setting-AllWatched s o
  dispatch-AllWatched cmd_get_setting s o = execute_get_setting-AllWatched s o
  dispatch-AllWatched cmd_get_stats s o = execute_get_stats-AllWatched s o
  dispatch-AllWatched cmd_delete s o = execute_delete-AllWatched s o
  dispatch-AllWatched cmd_flush_all s o = execute_flush_all-AllWatched s o
  dispatch-AllWatched unrecognized s o = send_response-AllWatched env c w s invalid_command o

  pub execute_cmd-AllWatched : (s : Server Table) → Open s → After (execute_cmd env s c) Answered
  unfolding execute_cmd
  execute_cmd-AllWatched s o = after_any (assert (is_cmd_received (s.conns c).state)) _ λ _.
      after_any (load_in s c) _ λ req.
        after_bind _ _ (set_in-IsOpen env c w s _ o)
          λ s' o'. dispatch-AllWatched (command_of req.header.opcode) s' o'
