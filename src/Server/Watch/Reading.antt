-- ===== src/Server/Watch/Reading.antt =====
-- `try_read_request`, and what the connections wait for after it.
use lightcache.Base.{u32, ℕ, ◌+◌, ◌≡◌, refl, sym, false, ◌==◌}
use mathlib.Core.Path.{subst}
use lightcache.Base.Run.{
  Run, ok, assert, ◌>>=◌, After, after_bind, after_any, after_if, after_ok, after_fault,
  after_option,
}
use lightcache.Protocol.{
  Request, ConnState, read_header, read_key, read_data, read_extra, conn_closed, cmd_received,
  cmd_sent, send_header, send_data, watch_read, SocketState, need_more, read_completed, read_err,
  send_err, send_completed, failed, invalid_param_size, invalid_state,
}
use lightcache.Protocol.Bytes.{decode_header}
use lightcache.Server.State.{Env, Server, load_in, set_in}
use lightcache.Server.Resources.{send_response}
use lightcache.Server.Reading.{
  ReadResult, byte, end_of_stream, would_block, broken, Field, header_field, key_field, data_field,
  extra_field, write_byte, count_read, read_nbytes, too_large, receive_cmd, completed,
  header_received, key_received, data_received, present, nonzero, read_field, try_read_request,
}
use lightcache.Server.Watch.{
  AllWatched, IsOpen, expected, closed, state-IsOpen, send_response-AllWatched,
}
use lightcache.Server.Watch.Transitions.{
  set_in-IsOpen, read_key-AllWatched, read_data-AllWatched, read_extra-AllWatched,
  cmd_received-IsOpen,
}
use lightcache.Server.Watch.Commands.{execute_cmd-AllWatched}

module _ (env : Env) (c : ℕ) where
  open env use {Table}

  abbrev Reading : Server Table → Type 0
  Reading s = IsOpen s.conns c watch_read

  abbrev Answered : Server Table → Type 0
  Answered s = AllWatched s.conns

  -- Reading a byte changes no connection.
  abbrev KeepsConns : Server Table → Server Table × SocketState → Type 0
  KeepsConns s r = r.0.conns ≡ s.conns

  set_in-conns : (s : Server Table) (q : Request) → After (set_in s c q) λ s'. s'.conns ≡ s.conns
  set_in-conns s q = after_option (s.conns c).request _ _ (after_fault _) (λ r. after_ok _ refl)

  count_read-conns :
      (s : Server Table) (q : Request) (n m total : ℕ)
      → After (count_read env s c q n m total) (KeepsConns s)
  unfolding count_read
  count_read-conns s q n m total =
      after_if (u32 (q.rbytes + n) == total) _ _
        (after_bind _ _ (set_in-conns _ _) λ s' e. after_ok _ e)
        (after_bind _ _ (set_in-conns _ _) λ s' e. after_ok _ e)

  read_nbytes-conns :
      (s : Server Table) (field : Field) (total : ℕ) (input : ReadResult)
      → After (read_nbytes env s c field total input) (KeepsConns s)
  unfolding read_nbytes
  read_nbytes-conns s field total (byte b) =
      after_any (load_in s c) _
        λ q. after_any (write_byte field b q) _ λ q'. count_read-conns s q' 1 1 total
  read_nbytes-conns s field total end_of_stream = after_ok _ refl
  read_nbytes-conns s field total would_block = after_ok _ refl
  read_nbytes-conns s field total broken =
      after_any (load_in s c) _ λ q. count_read-conns s q _ _ total

  receive_cmd-AllWatched : (s : Server Table) → Reading s → After (receive_cmd env s c) Answered
  unfolding receive_cmd
  receive_cmd-AllWatched s o =
      after_bind _ _ (cmd_received-IsOpen env c watch_read s o)
        (execute_cmd-AllWatched env c watch_read)

  key_received-AllWatched : (s : Server Table) → Reading s → After (key_received env s c) Answered
  unfolding key_received
  key_received-AllWatched s o = after_any (load_in s c) _ λ q.
      after_if (q.header.data_length == 0) _ _ (receive_cmd-AllWatched s o)
        (read_data-AllWatched env c s o)

  data_received-AllWatched : (s : Server Table) → Reading s → After (data_received env s c) Answered
  unfolding data_received
  data_received-AllWatched s o = after_any (load_in s c) _ λ q.
      after_if (q.header.extra_length == 0) _ _ (receive_cmd-AllWatched s o)
        (read_extra-AllWatched env c s o)

  header_received-AllWatched :
      (s : Server Table) → Reading s → After (header_received env s c) λ r. AllWatched r.0.conns
  unfolding header_received
  header_received-AllWatched s o = after_any (load_in s c) _ λ q.
      after_bind _ _ (set_in-IsOpen env c watch_read s _ o) λ s' o'.
        let h = decode_header q.header_bytes in
        after_if (too_large env h) _ _
          (after_bind _ _ (send_response-AllWatched env c watch_read s' invalid_param_size o')
            λ s'' a. after_ok _ a)
          (after_bind _ _
            (after_if (h.key_length == 0) _ _ (receive_cmd-AllWatched s' o')
              (read_key-AllWatched env c s' o'))
            λ s'' a. after_ok _ a)

  abbrev Settled : Server Table × SocketState → Type 0
  Settled r = AllWatched r.0.conns

  completed-AllWatched :
      (s : Server Table) (ret : SocketState) (next : Run (Server Table))
      → AllWatched s.conns
      → After next Answered
      → After (completed env s ret next) Settled
  completed-AllWatched s read_completed next all h = after_bind _ _ h λ s' a. after_ok _ a
  completed-AllWatched s need_more next all h = after_ok _ all
  completed-AllWatched s read_err next all h = after_ok _ all
  completed-AllWatched s send_err next all h = after_ok _ all
  completed-AllWatched s send_completed next all h = after_ok _ all
  completed-AllWatched s failed next all h = after_ok _ all

  read_field-AllWatched :
      (s : Server Table) (st : ConnState) (field : Field) (total : ℕ) (input : ReadResult)
      (next : Server Table → Run (Server Table))
      → AllWatched s.conns
      → (s.conns c).state ≡ st
      → closed st ≡ false
      → ((s' : Server Table) → IsOpen s'.conns c (expected st) → After (next s') Answered)
      → After (read_field env s c field total input next) Settled
  read_field-AllWatched s st field total input next all e f k =
      after_bind _ _ (read_nbytes-conns s field total input) λ r same.
        completed-AllWatched r.0 r.1 (next r.0) (subst AllWatched (sym same) all) (
          k r.0 (
            subst (λ conns. IsOpen conns c (expected st)) (sym same)
              (state-IsOpen s.conns c st all e f)))

  header_outcome :
      (s : Server Table) (ret : SocketState)
      → AllWatched s.conns
      → Reading s
      → After
          (elim ret [ read_completed ↦ header_received env s c | other ↦ ok (s, other) ])
          Settled
  header_outcome s read_completed all o = header_received-AllWatched s o
  header_outcome s need_more all o = after_ok _ all
  header_outcome s read_err all o = after_ok _ all
  header_outcome s send_err all o = after_ok _ all
  header_outcome s send_completed all o = after_ok _ all
  header_outcome s failed all o = after_ok _ all

  -- An event that the state does not handle is answered with an error.
  pub refused :
      (st : ConnState) (s : Server Table)
      → AllWatched s.conns
      → (s.conns c).state ≡ st
      → closed st ≡ false
      → After (send_response env s c invalid_state >>= λ s'. ok (s', failed)) Settled
  refused st s all e f =
      after_bind _ _
        (send_response-AllWatched env c (expected st) s invalid_state
          (state-IsOpen s.conns c st all e f))
        λ s' a. after_ok _ a

  -- In every state, and for every result of `read`.
  pub try_read_request-AllWatched :
      (st : ConnState) (s : Server Table) (input : ReadResult)
      → AllWatched s.conns
      → (s.conns c).state ≡ st
      → closed st ≡ false
      → After (try_read_request env s c input st) Settled
  unfolding try_read_request
  try_read_request-AllWatched read_header s input all e f =
      after_bind _ _ (read_nbytes-conns s header_field 12 input) λ r same.
        header_outcome r.0 r.1 (subst AllWatched (sym same) all) (
          subst (λ conns. IsOpen conns c watch_read) (sym same)
            (state-IsOpen s.conns c read_header all e f))
  try_read_request-AllWatched read_key s input all e f = after_any (load_in s c) _ λ q.
      after_any (assert (present env q.rkey)) _ λ _.
        after_any (assert (nonzero env q.header.key_length)) _ λ _.
          read_field-AllWatched s read_key key_field q.header.key_length input _ all e f
            key_received-AllWatched
  try_read_request-AllWatched read_data s input all e f = after_any (load_in s c) _ λ q.
      after_any (assert (present env q.rdata)) _ λ _.
        after_any (assert (nonzero env q.header.data_length)) _ λ _.
          read_field-AllWatched s read_data data_field q.header.data_length input _ all e f
            data_received-AllWatched
  try_read_request-AllWatched read_extra s input all e f = after_any (load_in s c) _ λ q.
      read_field-AllWatched s read_extra extra_field q.header.extra_length input _ all e f
        receive_cmd-AllWatched
  try_read_request-AllWatched conn_closed s input all e f = refused conn_closed s all e f
  try_read_request-AllWatched cmd_received s input all e f = refused cmd_received s all e f
  try_read_request-AllWatched send_header s input all e f = refused send_header s all e f
  try_read_request-AllWatched send_data s input all e f = refused send_data s all e f
  try_read_request-AllWatched cmd_sent s input all e f = refused cmd_sent s all e f
