-- ===== src/Server/Sending.antt =====
-- `send_nbytes` and `try_send_response` of src/lightcache.c. Each call writes one byte.
use lightcache.Base.{
  u32, u64, ℕ, ◌+◌, List, [], ◌∷◌, ◌++◌, none, some, get_elem?, ◌==◌, if◌then◌else◌,
}
use lightcache.Base.Run.{Run, ok, fault, null_pointer, out_of_range, ◌>>=◌}
use lightcache.Protocol.{
  Conn, ConnState, read_header, send_header, send_data, cmd_sent, SocketState, need_more, send_err,
  send_completed, failed, invalid_state, Payload, nothing, own, cached,
}
use lightcache.Protocol.Bytes.{be32_at}
use lightcache.Server.State.{Env, Server, set_conn, set_stats, load}
use lightcache.Server.Resources.{send_response, set_conn_state}
use lightcache.Server.Commands.{bytes_at}

-- What `write(fd, p, 1)` gives: the number of bytes taken, 0 or 1, or -1 with its `errno`.
pub data WriteResult : Type 0 where
  wrote wrote_nothing write_would_block write_broken : WriteResult

-- `bytes[i]`
abbrev pub byte_at : List ℕ → ℕ → Run ℕ
byte_at bs i = elim (get_elem? bs i) [ none ↦ fault out_of_range | some b ↦ ok b ]

module _ (env : Env) where
  open env use {Table}

  -- `sdata`, read where it stands
  abbrev pub payload_bytes : Server Table → Payload → Run (List ℕ)
  payload_bytes s nothing = fault null_pointer
  payload_bytes s (own bs) = ok bs
  payload_bytes s (cached r) = load s (some r) >>= λ q. bytes_at q.rdata

  -- The counting after a write that took the bytes `taken`.
  unfoldable pub count_sent : Server Table → ℕ → List ℕ → ℕ → ℕ → Server Table × SocketState
  count_sent s c taken n total =
      let conn = s.conns c in
      let sbytes = u32 (conn.out.sbytes + n) in
      let s' = set_stats s (record s.stats { bytes_written = u64 (s.stats.bytes_written + n) }) in
      let at = λ (k : ℕ).
        set_conn s' c
          (record conn { out = record conn.out { sbytes = k }; sent = conn.sent ++ taken }) in
      if sbytes == total then (at 0, send_completed) else (at sbytes, need_more)

  unfoldable pub send_nbytes :
      Server Table → ℕ → List ℕ → ℕ → WriteResult → Run (Server Table × SocketState)
  unfolding count_sent
  send_nbytes s c bytes total wrote = do
    b ← byte_at bytes (s.conns c).out.sbytes
    ok (count_sent s c (b ∷ []) 1 total)
  send_nbytes s c bytes total wrote_nothing = ok (count_sent s c [] 0 total)
  send_nbytes s c bytes total write_would_block = ok (s, need_more)
  send_nbytes s c bytes total write_broken = ok (s, send_err)

  -- `set_conn_state(conn, CMD_SENT); set_conn_state(conn, READ_HEADER);`
  unfoldable pub finish_response : Server Table → ℕ → Run (Server Table)
  finish_response s c =
      set_conn_state env s c cmd_sent >>= λ s'. set_conn_state env s' c read_header

  -- `ntohl(conn->out.resp_header.response.data_length)`
  abbrev pub response_length : Conn → ℕ
  response_length conn = be32_at conn.out.resp_header 4

  abbrev pub header_sent : Server Table → ℕ → Run (Server Table)
  header_sent s c =
      if response_length (s.conns c) == 0
      then finish_response s c
      else set_conn_state env s c send_data

  abbrev pub after_send :
      Server Table × SocketState
      → (Server Table → Run (Server Table))
      → Run (Server Table × SocketState)
  after_send (s, send_completed) next = next s >>= λ s'. ok (s', send_completed)
  after_send (s, ret) next = ok (s, ret)

  unfoldable pub try_send_response :
      Server Table → ℕ → WriteResult → ConnState → Run (Server Table × SocketState)
  unfolding send_nbytes finish_response
  try_send_response s c outcome send_header = do
    r ← send_nbytes s c (s.conns c).out.resp_header 8 outcome
    after_send r (λ s'. header_sent s' c)
  try_send_response s c outcome send_data = do
    bytes ← payload_bytes s (s.conns c).out.sdata
    r ← send_nbytes s c bytes (response_length (s.conns c)) outcome
    after_send r (λ s'. finish_response s' c)
  try_send_response s c outcome st = do s' ← send_response env s c invalid_state; ok (s', failed)
