-- ===== src/Tests/Settings.antt =====
-- The theorem about the idle timeout at two concrete connections.
use lightcache.Base.{◌+◌, ◌≡◌, refl, true, none, some, [], ◌∷◌, arith, ◌==◌, if◌then◌else◌}
use lightcache.Base.Run.{◌>>=◌, Returns}
use lightcache.Protocol.{success, Request, nothing, own}
use lightcache.Protocol.Bytes.{be64, names_idle_timeout, idle_conn_timeout_name}
use lightcache.Server.State.{Server}
use lightcache.Server.Commands.{atoull, execute_chg_setting, execute_get_setting}
use lightcache.Server.Answer.{IsAnswered}
use lightcache.Server.Settings.{execute_chg_setting-execute_get_setting}
use lightcache.Tests.Fields.{Entry, one_entry, reading, key_server}

abbrev ask : Request
ask = record reading { rkey = some idle_conn_timeout_name }

abbrev change : Request
change = record ask { rdata = some (51 ∷ 48 ∷ 48 ∷ []) }

-- Connection 0 has the request at 7, and connection 1 the request at 8.
abbrev two_clients : Server Entry
two_clients = record key_server {
  requests = λ r. if r == 7 then some change else if r == 8 then some ask else none;
  conns = λ c. record (key_server.conns c) { request = some (c + 7) };
}

names_idle : names_idle_timeout idle_conn_timeout_name ≡ true
unfolding names_idle_timeout
names_idle = refl

atoull_three : atoull one_entry (51 ∷ 48 ∷ 48 ∷ []) ≡ some 3
unfolding atoull
atoull_three = refl

execute_chg_setting-execute_get_setting_example :
    Returns
      (execute_chg_setting one_entry two_clients 0 >>= λ s'. execute_get_setting one_entry s' 1)
      λ t.
        IsAnswered one_entry two_clients t 0 change.header.opcode success 0 nothing
        × IsAnswered one_entry two_clients t 1 ask.header.opcode success 8 (own (be64 3))
execute_chg_setting-execute_get_setting_example =
    execute_chg_setting-execute_get_setting one_entry two_clients 0 1 7 8 3 change ask
      idle_conn_timeout_name idle_conn_timeout_name (51 ∷ 48 ∷ 48 ∷ []) (ground arith)
      (record { owner = refl; stored = refl }) (record { owner = refl; stored = refl }) refl
      names_idle refl atoull_three refl names_idle refl
