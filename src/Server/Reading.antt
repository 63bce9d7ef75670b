-- ===== src/Server/Reading.antt =====
-- `read_nbytes` and `try_read_request` of src/lightcache.c. Each call reads one byte.
use lightcache.Base.{
  u32, u64, ℕ, zero, suc, ◌+◌, ◌-◌, ◌^◌, Bool, true, false, ◌||◌, List, Option, none, some, length,
  set, ltb, leb, ◌==◌, if◌then◌else◌,
}
use lightcache.Base.Run.{Run, ok, fault, assert, out_of_range, ◌>>=◌, ◌>>◌}
use lightcache.Protocol.{
  Request, ConnState, read_header, read_key, read_data, read_extra, cmd_received, SocketState,
  need_more, read_completed, read_err, failed, invalid_param_size, invalid_state, max_data_size,
  max_key_size, max_extra_size, ReqHeader,
}
use lightcache.Protocol.Bytes.{decode_header}
use lightcache.Server.State.{Env, Server, set_stats, load_in, set_in}
use lightcache.Server.Resources.{send_response, set_conn_state}
use lightcache.Server.Commands.{execute_cmd, bytes_at}

-- What `read(fd, p, 1)` gives; `broken` is -1 with an `errno` other than EAGAIN.
pub data ReadResult : Type 0 where
  byte : ℕ → ReadResult
  end_of_stream would_block broken : ReadResult

-- The buffer that `read_nbytes` is given.
pub data Field : Type 0 where
  header_field key_field data_field extra_field : Field

abbrev pub buffer_of : Field → Request → Option (List ℕ)
buffer_of header_field q = some q.header_bytes
buffer_of key_field q = q.rkey
buffer_of data_field q = q.rdata
buffer_of extra_field q = q.rextra

abbrev pub with_buffer : Field → List ℕ → Request → Request
with_buffer header_field bs q = record q { header_bytes = bs }
with_buffer key_field bs q = record q { rkey = some bs }
with_buffer data_field bs q = record q { rdata = some bs }
with_buffer extra_field bs q = record q { rextra = some bs }

-- `bytes[rbytes] = b`
unfoldable pub write_byte : Field → ℕ → Request → Run Request
write_byte field b q = do
  bs ← bytes_at (buffer_of field q)
  if ltb q.rbytes (length bs)
      then ok (with_buffer field (set bs q.rbytes b) q)
      else fault out_of_range

module _ (env : Env) where
  open env use {Table}

  -- The counting after the read, with `n` for `nbytes` as an `unsigned int` and as a `uint64_t`.
  unfoldable pub count_read :
      Server Table → ℕ → Request → ℕ → ℕ → ℕ → Run (Server Table × SocketState)
  count_read s c q n32 n64 total =
      let s' = set_stats s (record s.stats { bytes_read = u64 (s.stats.bytes_read + n64) }) in
      let rbytes = u32 (q.rbytes + n32) in
      if rbytes == total
      then (set_in s' c (record q { rbytes = 0 }) >>= λ s''. ok (s'', read_completed))
      else (set_in s' c (record q { rbytes = rbytes }) >>= λ s''. ok (s'', need_more))

  unfoldable pub read_nbytes :
      Server Table → ℕ → Field → ℕ → ReadResult → Run (Server Table × SocketState)
  unfolding write_byte count_read
  read_nbytes s c field total (byte b) = do
    q ← load_in s c
    q' ← write_byte field b q
    count_read s c q' 1 1 total
  read_nbytes s c field total end_of_stream = ok (s, read_err)
  read_nbytes s c field total would_block = ok (s, need_more)
  read_nbytes s c field total broken = do
    q ← load_in s c
    count_read s c q (2 ^ 32 - 1) (2 ^ 64 - 1) total

  abbrev pub too_large : ReqHeader → Bool
  too_large h =
      leb max_data_size h.data_length
      || leb max_key_size h.key_length
      || leb max_extra_size h.extra_length

  -- `set_conn_state(conn, CMD_RECEIVED); execute_cmd(conn);`
  unfoldable pub receive_cmd : Server Table → ℕ → Run (Server Table)
  receive_cmd s c = set_conn_state env s c cmd_received >>= λ s'. execute_cmd env s' c

  abbrev pub completed :
      Server Table → SocketState → Run (Server Table) → Run (Server Table × SocketState)
  completed s read_completed next = next >>= λ s'. ok (s', read_completed)
  completed s ret next = ok (s, ret)

  -- What follows a complete header.
  unfoldable pub header_received : Server Table → ℕ → Run (Server Table × SocketState)
  unfolding receive_cmd decode_header
  header_received s c = do
    q ← load_in s c
    let h = decode_header q.header_bytes
    s' ← set_in s c (record q { header = h })
    if too_large h
        then (send_response env s' c invalid_param_size >>= λ s''. ok (s'', failed))
        else (completed s' read_completed
            (if h.key_length == 0 then receive_cmd s' c else set_conn_state env s' c read_key))

  unfoldable pub key_received : Server Table → ℕ → Run (Server Table)
  unfolding receive_cmd
  key_received s c = do
    q ← load_in s c
    if q.header.data_length == 0 then receive_cmd s c else set_conn_state env s c read_data

  unfoldable pub data_received : Server Table → ℕ → Run (Server Table)
  unfolding receive_cmd
  data_received s c = do
    q ← load_in s c
    if q.header.extra_length == 0 then receive_cmd s c else set_conn_state env s c read_extra

  abbrev pub present : Option (List ℕ) → Bool
  present none = false
  present (some bs) = true

  -- `read_nbytes` and, for a complete field, what follows it.
  abbrev pub read_field :
      Server Table
      → ℕ
      → Field
      → ℕ
      → ReadResult
      → (Server Table → Run (Server Table))
      → Run (Server Table × SocketState)
  read_field s c field total input next = do
    (s', ret) ← read_nbytes s c field total input
    completed s' ret (next s')

  abbrev pub nonzero : ℕ → Bool
  nonzero zero = false
  nonzero (suc n) = true

  unfoldable pub try_read_request :
      Server Table → ℕ → ReadResult → ConnState → Run (Server Table × SocketState)
  unfolding read_nbytes header_received key_received data_received receive_cmd
  try_read_request s c input read_header = do
    (s', ret) ← read_nbytes s c header_field 12 input
    elim ret [ read_completed ↦ header_received s' c | other ↦ ok (s', other) ]
  try_read_request s c input read_key = do
    q ← load_in s c
    assert (present q.rkey)
    assert (nonzero q.header.key_length)
    read_field s c key_field q.header.key_length input (λ s'. key_received s' c)
  try_read_request s c input read_data = do
    q ← load_in s c
    assert (present q.rdata)
    assert (nonzero q.header.data_length)
    read_field s c data_field q.header.data_length input (λ s'. data_received s' c)
  try_read_request s c input read_extra = do
    q ← load_in s c
    read_field s c extra_field q.header.extra_length input (λ s'. receive_cmd s' c)
  try_read_request s c input st = do s' ← send_response env s c invalid_state; ok (s', failed)
