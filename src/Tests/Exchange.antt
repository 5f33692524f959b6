-- ===== src/Tests/Exchange.antt =====
-- A query of a client that the agent answers, at concrete bytes.
use edbc.Base.{ℕ, ◌<◌, ◌≡◌, refl, true, false, some, [], ◌∷◌, ◌++◌, List, ltb, arith}
use edbc.Base.Outcome.{returns}
use edbc.Base.Outcome.Rc.{edb_ok}
use edbc.Base.Latch.{reading}
use edbc.Base.Assoc.{lookup, put}
use edbc.Base.Memory.{Memory, store32, store_bytes, read_bytes}
use edbc.Msg.Buffer.{Buffer, Allocator, check_buffer, receive}
use edbc.Msg.Build.{op_query, op_reply, build_reply_msg}
use edbc.Msg.RoundTrip.{IsReady, query-extracted}
use edbc.Oss.Socket.{Arrival, arrives, ready, failed, elapsed, takes, Socket}
use edbc.Oss.Recv.{stream, Flows}
use edbc.Pmd.Edu.{agent, waiting, EduCb}
use edbc.Pmd.Manager.{EduMgr, new_mgr, set_run}
use edbc.Pmd.Invariant.{IsManaged, new_mgr-IsManaged, set_run-IsManaged}
use edbc.Rtn.Methods.{Rtn}
use edbc.Agent.Request.{Context, process_request}
use edbc.Agent.Loop.{Agent, agent_with, again, turn}
use edbc.Agent.Room.{rounded_up}
use edbc.Agent.Query.{query-processed}
use edbc.Agent.Incoming.{IsIncoming}
use edbc.Agent.Serve.{turn-serves}
use edbc.Client.Command.{Client, order_buffer, query_command}
use edbc.Client.Query.{query_order}
use edbc.Client.Exchange.{key-IsIncoming, query-exchanged}
use edbc.Tests.Fixtures.{numbers, hash_length, no_rid, willing, zeros, plain}
use edbc.Tests.Records.{db_two, db_two-IsDb, with_two, has_two}

abbrev pub generous : Allocator
generous = record { grants = λ n. ltb n 100000; fresh = zeros }

abbrev served_two : Rtn
served_two = record db_two {
  file = record (db_two.file) { rw_mutex = reading db_two.file.rw_mutex };
}

abbrev pub settings : Context numbers
settings = record { os = willing; fuel = 1; null_json = 0; snapshot = 5; rid = no_rid }

-- The query for 2, of 11 bytes, and its reply, of 19 bytes, in a buffer of 64.
abbrev asked : Memory
asked = query_order numbers 2

abbrev asked_buffer : Buffer
asked_buffer = record order_buffer { bytes = asked }

abbrev answer : Buffer
answer = record plain {
  bytes =
      store_bytes (store32 (store32 (store32 (store32 zeros 4 op_reply) 0 19) 12 1) 8 0) 16
        (34 ∷ 49 ∷ 49 ∷ []);
}

answer-made : build_reply_msg numbers generous plain 64 0 (some 2) ≡ returns (edb_ok, answer, 64)
unfolding build_reply_msg check_buffer
answer-made = refl

plain-IsReady : IsReady generous plain 64 19
plain-IsReady = record {
  heap = refl;
  sized = refl;
  small = omega arith;
  total_small = omega arith;
  granted = refl;
}

granted_page : generous.grants (rounded_up 12 4096) ≡ true
unfolding rounded_up
granted_page = refl

-- The agent's socket: the query comes in two pieces, and the reply is taken in two.
abbrev request : List Arrival
request = arrives (read_bytes 5 asked 0) ∷ arrives (read_bytes 6 asked 5) ∷ []

request-stream : stream request ≡ read_bytes 11 asked 0 ++ []
unfolding read_bytes
request-stream = refl

request-Flows : Flows 0 request
unfolding read_bytes
request-Flows = (omega arith, (omega arith, tt))

abbrev server_end : Socket
server_end = record {
  init = true;
  timeout = 0;
  alive = true;
  polls = failed 4 ∷ ready ∷ elapsed ∷ ready ∷ ready ∷ [];
  arrivals = request;
  acceptances = takes 60 ∷ takes 60 ∷ [];
  sent = [];
}

abbrev pub thread : EduCb
thread = record {
  type_ = agent;
  status = waiting;
  id = 1;
  is_forced = false;
  is_disconnected = false;
  queue = [];
}

abbrev pub threads : EduMgr
threads = set_run 1 thread new_mgr

pub threads-IsManaged : IsManaged threads
threads-IsManaged =
    set_run-IsManaged new_mgr 1 thread new_mgr-IsManaged
      (record { own_id = refl; alive = omega arith })

pub thread_there : lookup 1 threads.run_queue ≡ some thread
unfolding lookup put
thread_there = refl

asked-IsIncoming : IsIncoming asked 11 request []
asked-IsIncoming =
    key-IsIncoming numbers op_query 2 request [] (omega arith) request-Flows request-stream

answers :
    (rest : Memory) (room : ℕ)
    → 11 < room
    → process_request numbers hash_length settings generous
        (receive asked_buffer 11 rest room)
        plain
        64
        db_two
      ≡ returns (edb_ok, (answer, 64), served_two)
answers rest room fits =
    query-processed numbers hash_length generous settings db_two with_two db_two-IsDb 2 2 2 refl
      has_two (receive asked_buffer 11 rest room) plain answer 64 64
      (query-extracted numbers 2 asked_buffer zeros rest room 0 (omega arith) refl fits) answer-made

turn-serves_example :
    (a : Agent) × (turn numbers hash_length settings generous 1
        (agent_with plain plain server_end (false ∷ false ∷ false ∷ false ∷ []) threads db_two)
      ≡ returns (again, a))
    × (a.rtn ≡ served_two)
    × (a.sock.sent ≡ [] ++ read_bytes 64 answer.bytes 0)
    × (stream a.sock.arrivals ≡ [])
    × IsManaged a.mgr
    × (lookup 1 a.mgr.run_queue ≡ some thread)
turn-serves_example =
    turn-serves asked_buffer 11 request [] asked-IsIncoming generous plain plain server_end
      (false ∷ false ∷ false ∷ []) threads db_two refl (omega arith) refl numbers hash_length
      settings 1 thread threads-IsManaged thread_there refl (false ∷ false ∷ []) []
      (elapsed ∷ ready ∷ ready ∷ []) (ready ∷ []) [] edb_ok answer 64 served_two refl refl refl
      granted_page answers (omega arith) (omega arith)

-- The client's socket: the server's bytes come in two pieces.
abbrev reply : List Arrival
reply = arrives (read_bytes 3 answer.bytes 0) ∷ arrives (read_bytes 61 answer.bytes 3) ∷ []

reply-stream : stream reply ≡ read_bytes 64 answer.bytes 0 ++ []
unfolding read_bytes
reply-stream = refl

reply-Flows : Flows 0 reply
unfolding read_bytes
reply-Flows = (omega arith, (omega arith, tt))

abbrev pub client_end : Socket
client_end = record {
  init = true;
  timeout = 0;
  alive = true;
  polls = ready ∷ failed 4 ∷ ready ∷ ready ∷ [];
  arrivals = reply;
  acceptances = takes 3 ∷ takes 60 ∷ [];
  sent = [];
}

abbrev pub fresh_client : Client
fresh_client = record { recv_buf = zeros; send_buf = zeros }

query-exchanged_example :
    (g : Agent) × (c' : Client) × (s' : Socket) × (turn numbers hash_length settings generous 1
        (agent_with plain plain server_end (false ∷ false ∷ false ∷ false ∷ []) threads db_two)
      ≡ returns (again, g))
    × (query_command numbers generous 1 ((34 ∷ 49 ∷ 49 ∷ []) ∷ []) fresh_client client_end
        ≡ returns ((0, some 2), c', s'))
    × (g.sock.sent ≡ [] ++ read_bytes 64 answer.bytes 0)
    × (s'.sent ≡ [] ++ read_bytes 11 asked 0)
query-exchanged_example =
    query-exchanged numbers hash_length generous settings db_two with_two db_two-IsDb 2 2 2 refl
      has_two plain plain answer server_end (false ∷ false ∷ false ∷ []) (false ∷ false ∷ []) []
      (elapsed ∷ ready ∷ ready ∷ []) (ready ∷ []) [] threads 1 thread [] fresh_client client_end
      (34 ∷ 49 ∷ 49 ∷ []) [] (failed 4 ∷ ready ∷ ready ∷ []) (ready ∷ []) [] [] 0 refl (omega arith)
      threads-IsManaged thread_there refl refl refl refl granted_page plain-IsReady answer-made
      (omega arith) request-Flows request-stream refl refl (omega arith) (omega arith) refl refl
      refl (omega arith) reply-Flows reply-stream
