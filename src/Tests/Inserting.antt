-- ===== src/Tests/Inserting.antt =====
-- An insert and a delete of a client that the agent answers, at concrete bytes.
use edbc.Base.{◌≡◌, refl, true, false, none, some, [], ◌∷◌, ◌++◌, List, if◌then◌else◌, arith}
use edbc.Base.Outcome.{returns}
use edbc.Base.Outcome.Rc.{edb_ok}
use edbc.Base.Bytes.{Bytes, bytes_eq}
use edbc.Base.Memory.{Memory, store32, store_bytes, read_bytes}
use edbc.Msg.Buffer.{Buffer, check_buffer}
use edbc.Msg.Build.{op_reply, build_reply_msg}
use edbc.Msg.RoundTrip.{IsReady}
use edbc.Oss.Socket.{Arrival, arrives, ready, failed, elapsed, takes, Socket}
use edbc.Oss.Recv.{stream, Flows}
use edbc.Dms.Page.{fresh_page}
use edbc.Dms.Store.{Contents}
use edbc.Rtn.Database.{IsDb, db_at}
use edbc.Agent.Room.{rounded_up}
use edbc.Agent.Loop.{Agent, agent_with, again, turn}
use edbc.Client.Command.{delete_command, Client, insert_command}
use edbc.Client.Inserted.{insert_order, insert-exchanged}
use edbc.Tests.Fixtures.{
  numbers, hash_length, blank_pages, first_page, page_zero, fresh_gap, zeros, plain,
}
use edbc.Client.Deleted.{delete_order, delete-exchanged}
use edbc.Tests.Records.{
  db_two, db_two-IsDb, with_two, two_at, two, index_blank, empty_db, empty_db-IsDb,
}
use edbc.Tests.Exchange.{
  generous, settings, thread, threads, threads-IsManaged, thread_there, fresh_client,
}

-- The insert of 2, of 15 bytes, and its reply, of 16 bytes, in a buffer of 64.
abbrev given : Memory
given = insert_order numbers 2

abbrev done : Buffer
done = record plain { bytes = store32 (store32 (store32 (store32 zeros 4 op_reply) 0 16) 12 0) 8 0 }

done-made : build_reply_msg numbers generous plain 64 0 none ≡ returns (edb_ok, done, 64)
unfolding build_reply_msg check_buffer store32 store_bytes
done-made = refl

reply-IsReady : IsReady generous plain 64 16
reply-IsReady = record {
  heap = refl;
  sized = refl;
  small = omega arith;
  total_small = omega arith;
  granted = refl;
}

granted_page : generous.grants (rounded_up 16 4096) ≡ true
unfolding rounded_up
granted_page = refl

-- The insert comes in two pieces, and so does the reply.
abbrev request : List Arrival
request = arrives (read_bytes 5 given 0) ∷ arrives (read_bytes 10 given 5) ∷ []

request-stream : stream request ≡ read_bytes 15 given 0 ++ []
unfolding read_bytes
request-stream = refl

request-Flows : Flows 0 request
unfolding read_bytes
request-Flows = (omega arith, (omega arith, tt))

abbrev reply : List Arrival
reply = arrives (read_bytes 3 done.bytes 0) ∷ arrives (read_bytes 61 done.bytes 3) ∷ []

reply-stream : stream reply ≡ read_bytes 64 done.bytes 0 ++ []
unfolding read_bytes
reply-stream = refl

reply-Flows : Flows 0 reply
unfolding read_bytes
reply-Flows = (omega arith, (omega arith, tt))

abbrev server_end : Socket
server_end = record {
  init = true;
  timeout = 0;
  alive = true;
  polls = failed 4 ∷ ready ∷ elapsed ∷ ready ∷ ready ∷ [];
  arrivals = request;
  acceptances = takes 60 ∷ takes 60 ∷ [];
  sent = [];
}

abbrev client_end : Socket
client_end = record server_end {
  polls = ready ∷ failed 4 ∷ ready ∷ ready ∷ [];
  arrivals = reply;
  acceptances = takes 3 ∷ takes 60 ∷ [];
}

insert-exchanged_example :
    (g : Agent) × (c' : Client) × (s' : Socket) × (f' : Contents) × (turn numbers hash_length
        settings generous 1
        (agent_with plain plain server_end (false ∷ false ∷ false ∷ false ∷ []) threads empty_db)
      ≡ returns (again, g))
    × (insert_command numbers generous 1 ((34 ∷ 49 ∷ 49 ∷ []) ∷ []) fresh_client client_end
        ≡ returns ((0, none), c', s'))
    × IsDb numbers hash_length g.rtn f'
    × ((q : Bytes)
        → db_at numbers hash_length g.rtn f' q ≡ (
            if bytes_eq (34 ∷ 49 ∷ 49 ∷ []) q
            then some (34 ∷ 49 ∷ 49 ∷ [])
            else db_at numbers hash_length empty_db blank_pages q))
    × (g.sock.sent ≡ [] ++ read_bytes 64 done.bytes 0)
    × (s'.sent ≡ [] ++ read_bytes 15 given 0)
insert-exchanged_example =
    insert-exchanged numbers hash_length generous settings empty_db blank_pages empty_db-IsDb 2 2
      refl 0 4194276 0 fresh_page [] first_page refl page_zero (omega (arith, fresh_gap))
      (index_blank two) refl plain plain done server_end (false ∷ false ∷ false ∷ [])
      (false ∷ false ∷ []) [] (elapsed ∷ ready ∷ ready ∷ []) (ready ∷ []) [] threads 1 thread []
      fresh_client client_end (34 ∷ 49 ∷ 49 ∷ []) [] (failed 4 ∷ ready ∷ ready ∷ []) (ready ∷ []) []
      [] 0 refl (omega arith) threads-IsManaged thread_there refl refl refl refl granted_page
      reply-IsReady done-made (omega arith) request-Flows request-stream refl refl (omega arith)
      refl refl refl (omega arith) reply-Flows reply-stream

-- The delete of 2, of 11 bytes, with the same reply.
abbrev key : Memory
key = delete_order numbers 2

abbrev order : List Arrival
order = arrives (read_bytes 5 key 0) ∷ arrives (read_bytes 6 key 5) ∷ []

order-stream : stream order ≡ read_bytes 11 key 0 ++ []
unfolding read_bytes
order-stream = refl

order-Flows : Flows 0 order
unfolding read_bytes
order-Flows = (omega arith, (omega arith, tt))

granted_short : generous.grants (rounded_up 12 4096) ≡ true
unfolding rounded_up
granted_short = refl

delete-exchanged_example :
    (g : Agent) × (c' : Client) × (s' : Socket) × (f' : Contents) × (turn numbers hash_length
        settings generous 1
        (agent_with plain plain
          (record server_end { arrivals = order })
          (false ∷ false ∷ false ∷ false ∷ [])
          threads
          db_two)
      ≡ returns (again, g))
    × (delete_command numbers generous 1 ((34 ∷ 49 ∷ 49 ∷ []) ∷ []) fresh_client client_end
        ≡ returns ((0, none), c', s'))
    × IsDb numbers hash_length g.rtn f'
    × ((q : Bytes)
        → db_at numbers hash_length g.rtn f' q ≡ (
            if bytes_eq (34 ∷ 49 ∷ 49 ∷ []) q
            then none
            else db_at numbers hash_length db_two with_two q))
    × (g.sock.sent ≡ [] ++ read_bytes 64 done.bytes 0)
    × (s'.sent ≡ [] ++ read_bytes 11 key 0)
delete-exchanged_example =
    delete-exchanged numbers hash_length generous settings db_two with_two db_two-IsDb 2 2 refl
      (two_at.0) (two_at.1) plain plain done (record server_end { arrivals = order })
      (false ∷ false ∷ false ∷ []) (false ∷ false ∷ []) [] (elapsed ∷ ready ∷ ready ∷ [])
      (ready ∷ []) [] threads 1 thread [] fresh_client client_end (34 ∷ 49 ∷ 49 ∷ []) []
      (failed 4 ∷ ready ∷ ready ∷ []) (ready ∷ []) [] [] 0 refl (omega arith) threads-IsManaged
      thread_there refl refl refl refl granted_short reply-IsReady done-made (omega arith)
      order-Flows order-stream refl refl (omega arith) refl refl refl (omega arith) reply-Flows
      reply-stream
