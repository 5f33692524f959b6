-- ===== src/Client/Command.antt =====
-- The commands of the client (include/command.hpp, client/command.cpp): an order is sent, and a
-- reply received and handled. A code that is returned is a 32-bit word, since the server's codes
-- are passed on. What goes to the screen is left out, but for the record that a query prints.
use edbc.Base.{
  ℕ, zero, suc, ◌-◌, Bool, true, false, not, Option, none, some, List, [], ◌∷◌, leb, ◌==◌,
  if◌then◌else◌,
}
use edbc.Base.Outcome.{Outcome, returns, throws, fault, starved, ◌>>=◌, Rc, is_ok, rc_word}
use edbc.Base.Outcome.Rc.{
  edb_ok, edb_invalid_argument, edb_invalid_record, edb_recv_data_length_error, edb_network_close,
  edb_sock_init_failed, edb_sock_connect_failed, edb_sock_not_connected,
}
use edbc.Base.Bytes.{Bytes}
use edbc.Base.Memory.{Memory, load32, store32, store_bytes, read_bytes, c_string}
use edbc.Base.Json.{JsonLib}
use edbc.Msg.Buffer.{Buffer, Allocator, slt}
use edbc.Msg.Build.{
  op_disconnect, op_snapshot, msg_header_size, build_insert_msg, build_delete_msg, build_query_msg,
}
use edbc.Oss.Socket.{Socket, recv, send, close, init_socket, connect}
use edbc.Pmd.Wire.{is_timeout}

-- RECV_BUF_SIZE and SEND_BUF_SIZE
abbrev pub client_buf_size : ℕ
client_buf_size = 4096

-- recvBuf_ and sendBuf_.
pub record Client : Type 0 where
  pub recv_buf : Memory
  pub send_buf : Memory

abbrev pub zeroed : Memory
zeroed i = 0

-- sendBuf_ as the builders get it: an array in the object, no block of the heap.
abbrev pub order_buffer : Buffer
order_buffer = record { bytes = zeroed; capacity = client_buf_size; heap = false }

abbrev pub is_close : Rc → Bool
is_close edb_network_close = true
is_close _ = false

-- The loops of recvReply: recv again after a time-out, as often as the fuel.
unfoldable pub recv_until : ℕ → Socket → ℕ → Outcome ((Rc × Bytes) × Socket)
recv_until zero s len = starved
recv_until (suc fuel) s len = do
  (r, s') ← recv s len false
  elim (is_timeout r.0) [ true ↦ recv_until fuel s' len | false ↦ returns (r, s') ]

-- recvReply. Without a connection it returns EDB_OK with nothing received. The code of the first
-- recv is looked at only for the two values; a length below 4 makes the second one ask for a
-- negative number of bytes.
unfoldable pub recv_reply : ℕ → Client → Socket → Outcome ((Rc × Client) × Socket)
recv_reply fuel c sock =
    let receive = (do
      ((rc, got), s₁) ← recv_until fuel sock 4
      let m₁ = store_bytes zeroed 0 got
      let len = load32 m₁ 0
      if is_close rc
          then returns ((rc, record c { recv_buf = m₁ }), s₁)
          else if slt client_buf_size len
          then returns ((edb_recv_data_length_error, record c { recv_buf = m₁ }), s₁)
          else if slt len 4
          then fault
          else (do
            ((rc', got'), s₂) ← recv_until fuel s₁ (len - 4)
            returns ((rc', record c { recv_buf = store_bytes m₁ 4 got' }), s₂))) in
    if sock.alive then receive else returns ((edb_ok, record c { recv_buf = zeroed }), sock)

-- The two sendOrder: with a record, and with an operation alone.
unfoldable pub send_order_code : ℕ → Client → Socket → Outcome ((Rc × Client) × Socket)
send_order_code op c sock = do
  let m = store32 (store32 zeroed 0 msg_header_size) 4 op
  (rc, s) ← send sock (read_bytes (load32 m 0) m 0)
  returns ((rc, record c { send_buf = m }), s)

module _ (lib : JsonLib) (alloc : Allocator) where
  open lib use {Json, parse}

  abbrev pub Builder : Type 0
  Builder = Buffer → ℕ → Json → Outcome (Rc × Buffer × ℕ)

  unfoldable pub send_order : Builder → Bytes → Client → Socket → Outcome ((Rc × Client) × Socket)
  send_order build json_str c sock = elim (parse json_str) [
    | none ↦ returns ((edb_invalid_record, c), sock)
    | some j ↦ do
      (rc, b, size) ← build order_buffer client_buf_size j
      let c' = record c { send_buf = b.bytes }
      if not (is_ok rc)
          then returns ((rc, c'), sock)
          else if leb (load32 b.bytes 0) b.capacity
          then (do
            (rc', s) ← send sock (read_bytes (load32 b.bytes 0) b.bytes 0)
            returns ((rc', c'), s))
          else fault
  ]

  -- handleReply of the commands: the code, and what a query prints.
  abbrev pub Handler : Type 0
  Handler = Memory → Outcome (ℕ × Option Json)

  -- The object behind the reply's fields, a text up to its NUL.
  unfoldable pub reply_json : Handler
  reply_json m = elim (c_string (client_buf_size - 16) m 16) [
    | none ↦ fault
    | some text ↦ elim (parse text) [ none ↦ throws | some j ↦ returns (0, some j) ]
  ]

  unfoldable pub handle_query_reply : Handler
  handle_query_reply m =
      if not (load32 m 8 == 0)
      then returns (load32 m 8, none)
      else if load32 m 12 == 0
      then returns (0, none)
      else reply_json m

  unfoldable pub handle_delete_reply : Handler
  handle_delete_reply m = returns (load32 m 8, none)

  -- Whatever the reply says.
  unfoldable pub handle_insert_reply : Handler
  handle_insert_reply m = returns (0, none)

  unfoldable pub handle_snapshot_reply : Handler
  handle_snapshot_reply m =
      if not (load32 m 8 == 0) then returns (load32 m 8, none) else reply_json m

  -- The part of every execute after the order is sent.
  unfoldable pub finish_order :
      ℕ → Handler → (Rc × Client) × Socket → Outcome ((ℕ × Option Json) × Client × Socket)
  finish_order fuel handle ((rc, c), sock) =
      if not (is_ok rc) then returns ((rc_word rc, none), c, sock) else (do
        ((rc', c'), s) ← recv_reply fuel c sock
        if not (is_ok rc')
            then returns ((rc_word rc', none), c', s)
            else (do r ← handle c'.recv_buf; returns (r, c', s)))

  -- execute of the query, delete and insert commands, by their builder and handler.
  unfoldable pub execute :
      Builder
      → Handler
      → ℕ
      → List Bytes
      → Client
      → Socket
      → Outcome ((ℕ × Option Json) × Client × Socket)
  execute build handle fuel [] c sock = returns ((rc_word edb_invalid_argument, none), c, sock)
  execute build handle fuel (json_str ∷ args) c sock =
      if sock.alive
      then send_order build json_str c sock >>= finish_order fuel handle
      else returns ((rc_word edb_sock_not_connected, none), c, sock)

  abbrev pub query_command :
      ℕ → List Bytes → Client → Socket → Outcome ((ℕ × Option Json) × Client × Socket)
  query_command = execute (build_query_msg lib alloc) handle_query_reply

  abbrev pub delete_command :
      ℕ → List Bytes → Client → Socket → Outcome ((ℕ × Option Json) × Client × Socket)
  delete_command = execute (build_delete_msg lib alloc) handle_delete_reply

  abbrev pub insert_command :
      ℕ → List Bytes → Client → Socket → Outcome ((ℕ × Option Json) × Client × Socket)
  insert_command = execute (build_insert_msg lib alloc) handle_insert_reply

  unfoldable pub snapshot_command :
      ℕ → Client → Socket → Outcome ((ℕ × Option Json) × Client × Socket)
  snapshot_command fuel c sock =
      if sock.alive
      then send_order_code op_snapshot c sock >>= finish_order fuel handle_snapshot_reply
      else returns ((rc_word edb_sock_not_connected, none), c, sock)

-- The code of the order is written over.
unfoldable pub quit_command : Client → Socket → Outcome (ℕ × Client × Socket)
quit_command c sock =
    let go = (do ((_, c'), s) ← send_order_code op_disconnect c sock; returns (0, c', s)) in
    if sock.alive then go else returns (rc_word edb_sock_not_connected, c, sock)

-- ConnectCommand::execute, by what the system calls answer. The socket is closed first.
unfoldable pub connect_command : Bool → Bool → Bool → Bool → Socket → ℕ × Socket
connect_command made connected named peer_named sock =
    let (rc, s) = init_socket made (close sock) in
    if not (is_ok rc)
    then (rc_word edb_sock_init_failed, s)
    else if not (is_ok (connect connected named peer_named))
    then (rc_word edb_sock_connect_failed, s)
    else (0, s)
