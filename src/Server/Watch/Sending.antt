-- ===== src/Server/Watch/Sending.antt =====
-- `try_send_response`, and what the connections wait for after it.
use lightcache.Base.{u32, ℕ, ◌+◌, ◌≡◌, false, List, ◌==◌, Bool-cases, inl, inr}
use lightcache.Base.Run.{Run, After, after_bind, after_any, after_if, after_ok}
use lightcache.Protocol.{
  Response, ConnState, read_header, read_key, read_data, read_extra, conn_closed, cmd_received,
  cmd_sent, send_header, send_data, watch_write, SocketState, need_more, read_completed, read_err,
  send_err, send_completed, failed,
}
use lightcache.Server.State.{Env, Server, place}
use lightcache.Server.Sending.{
  WriteResult, wrote, wrote_nothing, write_would_block, write_broken, byte_at, payload_bytes,
  count_sent, send_nbytes, finish_response, response_length, header_sent, after_send,
  try_send_response,
}
use lightcache.Server.Watch.{AllWatched, IsOpen, all-place, place-IsSteady, closed, state-IsOpen}
use lightcache.Server.Watch.Transitions.{
  read_header-AllWatched, cmd_sent-IsOpen, send_data-AllWatched,
}
use lightcache.Server.Watch.Reading.{refused}

module _ (env : Env) (c : ℕ) where
  open env use {Table}

  abbrev Answered : Server Table → Type 0
  Answered s = AllWatched s.conns

  abbrev Settled : Server Table × SocketState → Type 0
  Settled r = AllWatched r.0.conns

  -- Every connection is settled, and `c` is open for writing.
  abbrev Writing : Server Table × SocketState → Type 0
  Writing r = AllWatched r.0.conns × IsOpen r.0.conns c watch_write

  finish_response-AllWatched :
      (s : Server Table) → IsOpen s.conns c watch_write → After (finish_response env s c) Answered
  unfolding finish_response
  finish_response-AllWatched s o =
      after_bind _ _ (cmd_sent-IsOpen env c watch_write s o)
        (read_header-AllWatched env c watch_write)

  header_sent-AllWatched :
      (s : Server Table) → IsOpen s.conns c watch_write → After (header_sent env s c) Answered
  header_sent-AllWatched s o =
      after_if (response_length env (s.conns c) == 0) _ _ (finish_response-AllWatched s o)
        (send_data-AllWatched env c s o)

  count_sent-Writing :
      (s : Server Table) (taken : List ℕ) (n total : ℕ)
      → Writing (s, need_more)
      → Writing (count_sent env s c taken n total)
  unfolding count_sent
  count_sent-Writing s taken n total (all, o) =
      elim (Bool-cases (u32 ((s.conns c).out.sbytes + n) == total)) [
        | inl e ↦ rw e (placed _ _)
        | inr e ↦ rw e (placed _ _)
      ]
    where
      placed :
          (out : Response) (sent : List ℕ)
          → let conns = place s.conns c (record (s.conns c) { out = out; sent = sent }) in
            AllWatched conns × IsOpen conns c watch_write
      placed out sent =
          let conn = record (s.conns c) { out = out; sent = sent } in
          (
            all-place s.conns c conn o.others
                (record { watch = (all c).watch; free = (all c).free }),
            place-IsSteady s.conns c watch_write false conn o.others o.in_use o.waits,
          )

  send_nbytes-Writing :
      (s : Server Table) (bytes : List ℕ) (total : ℕ) (outcome : WriteResult)
      → Writing (s, need_more)
      → After (send_nbytes env s c bytes total outcome) Writing
  unfolding send_nbytes
  send_nbytes-Writing s bytes total wrote k =
      after_any (byte_at bytes (s.conns c).out.sbytes) _
        λ b. after_ok _ (count_sent-Writing s _ 1 total k)
  send_nbytes-Writing s bytes total wrote_nothing k = after_ok _ (count_sent-Writing s _ 0 total k)
  send_nbytes-Writing s bytes total write_would_block k = after_ok _ k
  send_nbytes-Writing s bytes total write_broken k = after_ok _ k

  after_send-AllWatched :
      (r : Server Table × SocketState) (next : Server Table → Run (Server Table))
      → Writing r
      → ((s : Server Table) → IsOpen s.conns c watch_write → After (next s) Answered)
      → After (after_send env r next) Settled
  after_send-AllWatched (s, send_completed) next (all, o) k =
      after_bind _ _ (k s o) λ s' a. after_ok _ a
  after_send-AllWatched (s, need_more) next (all, o) k = after_ok _ all
  after_send-AllWatched (s, read_completed) next (all, o) k = after_ok _ all
  after_send-AllWatched (s, read_err) next (all, o) k = after_ok _ all
  after_send-AllWatched (s, send_err) next (all, o) k = after_ok _ all
  after_send-AllWatched (s, failed) next (all, o) k = after_ok _ all

  -- In every state, and for every result of `write`.
  pub try_send_response-AllWatched :
      (st : ConnState) (s : Server Table) (outcome : WriteResult)
      → AllWatched s.conns
      → (s.conns c).state ≡ st
      → closed st ≡ false
      → After (try_send_response env s c outcome st) Settled
  unfolding try_send_response
  try_send_response-AllWatched send_header s outcome all e f =
      after_bind _ _
        (send_nbytes-Writing s (s.conns c).out.resp_header 8 outcome
          (all, state-IsOpen s.conns c send_header all e f))
        λ r k. after_send-AllWatched r _ k header_sent-AllWatched
  try_send_response-AllWatched send_data s outcome all e f =
      after_any (payload_bytes env s (s.conns c).out.sdata) _ λ bytes.
        after_bind _ _
          (send_nbytes-Writing s bytes (response_length env (s.conns c)) outcome
            (all, state-IsOpen s.conns c send_data all e f))
          λ r k. after_send-AllWatched r _ k finish_response-AllWatched
  try_send_response-AllWatched read_header s outcome all e f = refused env c read_header s all e f
  try_send_response-AllWatched read_key s outcome all e f = refused env c read_key s all e f
  try_send_response-AllWatched read_data s outcome all e f = refused env c read_data s all e f
  try_send_response-AllWatched read_extra s outcome all e f = refused env c read_extra s all e f
  try_send_response-AllWatched conn_closed s outcome all e f = refused env c conn_closed s all e f
  try_send_response-AllWatched cmd_received s outcome all e f = refused env c cmd_received s all e f
  try_send_response-AllWatched cmd_sent s outcome all e f = refused env c cmd_sent s all e f
