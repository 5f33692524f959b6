-- ===== src/Client/Order.antt =====
-- execute of a command with a record (client/command.cpp): the order goes out, and the answer that
-- comes back is handled.
use edbc.Base.{
  ℕ, suc, ◌≤◌, ◌<◌, ◌≡◌, refl, true, Option, some, List, ◌∷◌, ◌++◌, ◌∙◌, length, le→leb, arith,
}
use edbc.Base.Outcome.{returns}
use edbc.Base.Outcome.Rc.{edb_ok}
use edbc.Base.Bytes.{Bytes}
use edbc.Base.Memory.{Memory, load32, read_bytes, length-read_bytes}
use edbc.Base.Json.{JsonLib}
use edbc.Msg.Buffer.{Allocator}
use edbc.Oss.Socket.{Poll, Socket}
use edbc.Oss.Recv.{settle, stream}
use edbc.Oss.Send.{Accepts, send-delivers}
use edbc.Client.Command.{
  Client, order_buffer, client_buf_size, Builder, Handler, send_order, finish_order, execute,
}
use edbc.Client.Receive.{IsReply, chosen, reply_memory, recv_reply-whole}

as_long : (xs : Bytes) (n : ℕ) → length xs ≡ n → 0 < n → 0 < length xs
as_long xs n h long = omega arith

module _ (lib : JsonLib) (alloc : Allocator) where
  open lib use {Json, parse}

  -- A builder that puts a message into the client's array.
  module _ (build : Builder lib alloc) (key : Json) (msg : Memory) (n : ℕ)
      (made : build order_buffer client_buf_size key
        ≡ returns (edb_ok, record order_buffer { bytes = msg }, client_buf_size))
      (starts : load32 msg 0 ≡ n) (long : 0 < n) (fits : n ≤ client_buf_size) where
    -- sendOrder gives the peer the message.
    pub order-sent :
        (json_str : Bytes) (c : Client) (s : Socket) (ps : List Poll)
        → parse json_str ≡ some key
        → settle s.polls ≡ some ps
        → Accepts n s.acceptances
        → (ts : List _) × (send_order lib alloc build json_str c s
            ≡ returns (
              (edb_ok, record c { send_buf = msg }),
              record s { polls = ps; acceptances = ts; sent = s.sent ++ read_bytes n msg 0 },
            ))
    unfolding send_order
    order-sent json_str c s ps parsed calm accepted =
        let order = read_bytes n msg 0 in
        let size : length order ≡ n = length-read_bytes n msg 0 in
        let (ts, sent) =
          send-delivers s order ps (as_long order n size long) calm (rw size accepted) in
        (ts, rw (send_order, parsed, made, starts, le→leb n client_buf_size fits, sent) refl)

    -- The command on a connection, with an answer that comes in pieces of any size.
    pub execute-handles :
        (handle : Handler lib alloc) (out : ℕ × Option Json) (json_str : Bytes) (args : List Bytes)
        (c : Client) (s : Socket) (r : Memory) (total : ℕ) (later : Bytes) (ps₀ ps₁ ps₂ : List Poll)
        (fuel : ℕ)
        → s.alive ≡ true
        → parse json_str ≡ some key
        → settle s.polls ≡ some ps₀
        → settle ps₀ ≡ some ps₁
        → settle ps₁ ≡ some ps₂
        → Accepts n s.acceptances
        → IsReply r total s.arrivals later
        → handle (reply_memory r total) ≡ returns out
        → (c' : Client) × (s' : Socket) × (execute lib alloc build handle
              (suc fuel)
              (json_str ∷ args)
              c
              s
            ≡ returns (out, c', s'))
          × (s'.sent ≡ s.sent ++ read_bytes n msg 0)
          × (stream s'.arrivals ≡ later)
    unfolding execute finish_order
    execute-handles handle out json_str args c s r total later ps₀ ps₁ ps₂ fuel alive parsed calm
          calm' calm'' accepted reply handled =
        let (ts, sent) = order-sent json_str c s ps₀ parsed calm accepted in
        let s₁ : Socket = record s {
          polls = ps₀;
          acceptances = ts;
          sent = s.sent ++ read_bytes n msg 0;
        } in
        let (qs, received, left, _) =
          recv_reply-whole r total s₁ later alive reply ps₁ ps₂ calm' calm'' fuel
            (record c { send_buf = msg }) in
        (
          record { recv_buf = reply_memory r total; send_buf = msg },
          record s₁ { polls = ps₂; arrivals = qs },
          chosen s.alive alive _ _ ∙ rw (sent, received, handled) refl,
          refl,
          left,
        )
