-- ===== src/Protocol.antt =====
-- The wire protocol and the connection records of src/protocol.h, and the states of src/socket.h.
pub mod Bytes
pub mod Headers
use lightcache.Base.{ℕ, ◌+◌, Bool, Option, List}

pub data ConnState : Type 0 where
  read_header read_key read_data conn_closed cmd_received : ConnState
  send_header send_data read_extra cmd_sent : ConnState

-- `code_t`
pub data Code : Type 0 where
  key_notexists invalid_param invalid_state invalid_param_size : Code
  success invalid_command out_of_memory : Code

abbrev pub code_value : Code → ℕ
code_value key_notexists = 0
code_value invalid_param = 1
code_value invalid_state = 2
code_value invalid_param_size = 3
code_value success = 4
code_value invalid_command = 5
code_value out_of_memory = 6

pub data SocketState : Type 0 where
  need_more read_completed read_err send_err send_completed failed : SocketState

-- `protocol_commands`, read from the opcode byte
pub data Command : Type 0 where
  cmd_get cmd_set cmd_chg_setting cmd_get_setting cmd_get_stats cmd_delete cmd_flush_all : Command
  unrecognized : Command

abbrev pub max_extra_size : ℕ
max_extra_size = 250

abbrev pub max_key_size : ℕ
max_key_size = 250

abbrev pub max_data_size : ℕ
max_data_size = 1024 + 250

pub record ReqHeader : Type 0 where
  pub opcode : ℕ
  pub key_length : ℕ
  pub data_length : ℕ
  pub extra_length : ℕ

-- A buffer that was allocated with room for `n` bytes and a final 0 is the list of the `n` bytes.
-- `header_bytes` is the other view of the union, and `header` is read once all bytes are there.
pub record Request : Type 0 where
  pub header_bytes : List ℕ
  pub header : ReqHeader
  pub rdata : Option (List ℕ)
  pub rkey : Option (List ℕ)
  pub rextra : Option (List ℕ)
  pub rbytes : ℕ
  pub received : ℕ
  pub can_free : Bool

-- `sdata`: NULL, memory of its own, or the data of a request in the cache.
pub data Payload : Type 0 where
  nothing : Payload
  own : List ℕ → Payload
  cached : ℕ → Payload

pub record Response : Type 0 where
  pub resp_header : List ℕ
  pub sdata : Payload
  pub sbytes : ℕ
  pub can_free : Bool

-- What epoll waits for on a connection.
pub data Watch : Type 0 where
  unwatched watch_read watch_write : Watch

-- `sent` is what the socket has accepted; `request` is the pointer `in`.
pub record Conn : Type 0 where
  pub fd : ℕ
  pub listening : Bool
  pub free : Bool
  pub last_heard : ℕ
  pub state : ConnState
  pub request : Option ℕ
  pub out : Response
  pub watch : Watch
  pub sent : List ℕ
