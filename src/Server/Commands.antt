-- ===== src/Server/Commands.antt =====
-- `execute_cmd` of src/lightcache.c, one function for each command, with `atoull` of src/util.c.
use lightcache.Base.{
  u32, u64, ℕ, ◌+◌, ◌-◌, ◌^◌, Bool, true, false, List, [], ◌∷◌, Option, none, some, ltb, ◌==◌,
  if◌then◌else◌,
}
use lightcache.Base.Run.{Run, ok, fault, assert, null_pointer, assert_failed, ◌>>=◌, ◌>>◌}
use lightcache.Protocol.{
  ConnState, cmd_received, key_notexists, invalid_param, success, invalid_command, out_of_memory,
  own, cached, Command, cmd_get, cmd_set, cmd_chg_setting, cmd_get_setting, cmd_get_stats,
  cmd_delete, cmd_flush_all, unrecognized,
}
use lightcache.Protocol.Bytes.{be64, command_of, names_idle_timeout}
use lightcache.Hashtab.{hsuccess, herror, hexists}
use lightcache.Server.State.{
  Env, Server, Stats, set_conn, set_request, set_stats, load, load_in, set_in,
}
use lightcache.Server.Resources.{add_response, send_response}

abbrev pub is_cmd_received : ConnState → Bool
is_cmd_received cmd_received = true
is_cmd_received _ = false

-- A pointer that is read through.
abbrev pub bytes_at : Option (List ℕ) → Run (List ℕ)
bytes_at none = fault null_pointer
bytes_at (some bs) = ok bs

module _ (env : Env) where
  open env use {
    alloc_ok, strtoull, stats_page, Table, Item, hget, hset, hfree, item_val, set_val, all_items,
    hcount,
  }

  -- `atoull`: the number, or `none` for the result 0
  unfoldable pub atoull : List ℕ → Option ℕ
  atoull s =
      let parsed = strtoull s in
      if parsed.failed then none else if parsed.value == 0 then none else some parsed.value

  -- The request of an item is freed, and the item's value cleared.
  unfoldable pub del_cached_req : Server Table → Item → Run (Server Table)
  del_cached_req s it = elim (item_val s.table it) [
    | none ↦ ok (record s { table = set_val s.table it none })
    | some r ↦
        (load s (some r) >>= λ q.
        ok (record (set_request s r none) { table = set_val s.table it none }))
  ]

  -- `del_cached_req(it); hfree(cache, it);`
  unfoldable pub drop_item : Server Table → Item → Run (Server Table)
  unfolding del_cached_req
  drop_item s it = do s' ← del_cached_req s it; ok (record s' { table = hfree s'.table it })

  abbrev pub count_stats : Server Table → (Stats → Stats) → Server Table
  count_stats s f = set_stats s (f s.stats)

  -- GET_KEY_NOTEXISTS
  unfoldable pub get_notexists : Server Table → ℕ → Run (Server Table)
  get_notexists s c =
      send_response env (count_stats s (λ t. record t { get_misses = u64 (t.get_misses + 1) })) c
        key_notexists

  -- `(unsigned int)(received - stored)`
  abbrev pub age : ℕ → ℕ → ℕ
  age received stored = u32 (u64 (received + 2 ^ 64 - stored))

  unfoldable pub get_found : Server Table → ℕ → Item → Run (Server Table)
  unfolding atoull drop_item get_notexists
  get_found s c it = do
    req ← load_in s c
    cached_req ← load s (item_val s.table it)
    extra ← bytes_at cached_req.rextra
    let hit = count_stats s (λ t. record t { get_hits = u64 (t.get_hits + 1) })
    elim (atoull extra) [
      | none ↦ fault assert_failed
      | some timeout ↦
          if ltb timeout (age req.received cached_req.received)
          then (drop_item s it >>= λ s'. get_notexists s' c)
          else (elim (item_val s.table it) [
            | none ↦ fault null_pointer
            | some r ↦
                (add_response env hit c (cached r) cached_req.header.data_length success >>= λ s'.
                let conn = s'.conns c in
                ok (set_conn s' c (record conn { out = record conn.out { can_free = false } })))
          ])
    ]

  unfoldable pub execute_get : Server Table → ℕ → Run (Server Table)
  unfolding get_found
  execute_get s c = do
    let s₁ = count_stats s (λ t. record t { cmd_get = u64 (t.cmd_get + 1) })
    req ← load_in s₁ c
    found ← hget s₁.table req.rkey
    elim found [ none ↦ get_notexists s₁ c | some it ↦ get_found s₁ c it ]

  -- An existing key gets the new request for its value, and the old one is freed.
  unfoldable pub replace_value : Server Table → ℕ → Option (List ℕ) → Run (Server Table)
  unfolding del_cached_req
  replace_value s c key = do
    found ← hget s.table key
    elim found [
      | none ↦ fault assert_failed
      | some it ↦
          (del_cached_req s it >>= λ s'.
          ok (record s' { table = set_val s'.table it (s'.conns c).request }))
    ]

  -- `conn->in->can_free = 0; send_response(conn, SUCCESS);`
  unfoldable pub keep_request : Server Table → ℕ → Run (Server Table)
  keep_request s c = do
    req ← load_in s c
    s' ← set_in s c (record req { can_free = false })
    send_response env s' c success

  unfoldable pub store_request : Server Table → ℕ → Run (Server Table)
  unfolding replace_value keep_request
  store_request s c = do
    req ← load_in s c
    elim (s.conns c).request [
      | none ↦ fault null_pointer
      | some r ↦
          (hset s.table s.allocs req.rkey r >>= λ (table, allocs, ret).
          let s' = record s { table = table; allocs = allocs } in
          elim ret [
            | herror ↦ send_response env s' c out_of_memory
            | hexists ↦ (replace_value s' c req.rkey >>= λ s''. keep_request s'' c)
            | hsuccess ↦ keep_request s' c
          ])
    ]

  unfoldable pub execute_set : Server Table → ℕ → Run (Server Table)
  unfolding atoull store_request
  execute_set s c = do
    let s₁ = count_stats s (λ t. record t { cmd_set = u64 (t.cmd_set + 1) })
    req ← load_in s₁ c
    elim req.rdata [
      | none ↦ send_response env s₁ c invalid_param
      | some bytes ↦
          (bytes_at req.rextra >>= λ extra. elim (atoull extra) [
            | none ↦ send_response env s₁ c invalid_param
            | some timeout ↦ store_request s₁ c
          ])
    ]

  unfoldable pub execute_delete : Server Table → ℕ → Run (Server Table)
  unfolding drop_item
  execute_delete s c = do
    req ← load_in s c
    found ← hget s.table req.rkey
    elim found [
      | none ↦ send_response env s c key_notexists
      | some it ↦ (drop_item s it >>= λ s'. send_response env s' c success)
    ]

  -- `flush_item_enum` on the items of `henum(cache, flush_item_enum, NULL, 1)`, free ones included; it
  -- always returns 0.
  unfoldable pub flush_items : List Item → Server Table → Run (Server Table)
  unfolding drop_item
  flush_items [] s = ok s
  flush_items (it ∷ its) s = drop_item s it >>= flush_items its

  unfoldable pub execute_flush_all : Server Table → ℕ → Run (Server Table)
  unfolding flush_items
  execute_flush_all s c = do
    items ← all_items s.table
    s' ← flush_items items s
    send_response env s' c success

  unfoldable pub execute_chg_setting : Server Table → ℕ → Run (Server Table)
  unfolding atoull names_idle_timeout
  execute_chg_setting s c = do
    req ← load_in s c
    elim req.rdata [
      | none ↦ send_response env s c invalid_param
      | some bytes ↦
          (bytes_at req.rkey >>= λ key.
          if names_idle_timeout key
          then (elim (atoull bytes) [
            | none ↦ send_response env s c invalid_param
            | some val ↦ send_response env (record s { idle_conn_timeout = val }) c success
          ])
          else send_response env s c invalid_param)
    ]

  unfoldable pub execute_get_setting : Server Table → ℕ → Run (Server Table)
  unfolding names_idle_timeout be64
  execute_get_setting s c = do
    req ← load_in s c
    key ← bytes_at req.rkey
    let s' = record s { allocs = s.allocs + 1 }
    if names_idle_timeout key
        then (if alloc_ok s.allocs
            then add_response env s' c (own (be64 s.idle_conn_timeout)) 8 success
            else send_response env s' c out_of_memory)
        else send_response env s c invalid_param

  unfoldable pub execute_get_stats : Server Table → ℕ → Run (Server Table)
  execute_get_stats s c =
      let s' = record s { allocs = s.allocs + 1 } in
      if alloc_ok s.allocs
      then add_response env s' c (own (stats_page s.stats s.now (hcount s.table))) 512 success
      else send_response env s' c out_of_memory

  unfoldable pub dispatch : Command → Server Table → ℕ → Run (Server Table)
  unfolding execute_get execute_set execute_chg_setting execute_get_setting execute_get_stats
      execute_delete execute_flush_all
  dispatch cmd_get s c = execute_get s c
  dispatch cmd_set s c = execute_set s c
  dispatch cmd_chg_setting s c = execute_chg_setting s c
  dispatch cmd_get_setting s c = execute_get_setting s c
  dispatch cmd_get_stats s c = execute_get_stats s c
  dispatch cmd_delete s c = execute_delete s c
  dispatch cmd_flush_all s c = execute_flush_all s c
  dispatch unrecognized s c = send_response env s c invalid_command

  unfoldable pub execute_cmd : Server Table → ℕ → Run (Server Table)
  unfolding dispatch command_of
  execute_cmd s c = do
    assert (is_cmd_received (s.conns c).state)
    req ← load_in s c
    s' ← set_in s c (record req { received = s.now })
    dispatch (command_of req.header.opcode) s' c
