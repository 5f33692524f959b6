-- ===== src/Lib.antt =====
-- Verification of the edb server, a small document store: a client sends records and keys in
-- binary messages, and the server keeps the records in the pages of a mapped file.
--
-- The parts and how they interact. A listener thread (pmd/pmdListener.cpp) accepts connections
-- and starts an agent thread for each. An agent (pmd/pmdAgent.cpp) receives a message from its
-- socket (oss/ossSocket.cpp), takes it apart (msg/msg.cpp), calls the run-time layer
-- (rtn/rtn.cpp) and sends a reply. The client (client/) reads lines, sends the messages and
-- prints the replies. The run-time layer asks the index (ixm/ixm.cpp), a hash map in memory from
-- the text of a record's `_id` to a position, and the data file (dms/dms.cpp), which keeps the
-- records in slotted pages. The thread manager (pmd/pmdEduMgr.cpp) keeps a control block for
-- every thread. Paths are below the directory src.
--
-- Which file models what:
--   Base: the codes of include/common.hpp (Outcome), ossRWLatch of include/ossLatch.hpp (Latch),
--     bytes, memory with little-endian words (Memory), std::multimap and std::map (Multimap,
--     Assoc), and what the code uses of the JSON library (Json).
--   Oss: Socket is oss/ossSocket.cpp, Recv and Send are about it; File is oss/ossFileOp.cpp.
--   Ixm: ixm/ixm.cpp. Bucket and Manager have one function for each method of ixmHashBucket and
--     ixmHashManager; Index has the index as a map, and Operations the methods against it.
--   Dms: dms/dms.cpp and include/dms.hpp. Page has the work on one page, byte by byte; File the
--     file with insert, remove, find, extendSegment, extendFile, updateFreeSpace and pageToOffset;
--     Load has initialize, initNew and loadData. Layout and Models say when a page holds a list of
--     slots, Store when a file holds pages; Stores, Insert, Drop, Read, Overlap and Rearrange are
--     about a page, Pages, Operations, Segment, Extend, Grow and Faults about the file, Loaded and
--     Twice about a file that is loaded.
--   Msg: msg/msg.cpp and include/msg.hpp. Buffer has checkBuffer, Build the builders, Extract the
--     extractors; Check, RoundTrip and Records are about them.
--   Pmd: Edu is the control block (include/pmdEdu.hpp); Manager, Start and Service are pmdEduMgr;
--     Invariant, Keeps, Steps, Life, Own, Cycle and Between are about its life as a sequence of
--     calls, and Stuck about forceUserEdu, which does not return. Wire has pmdRecv and pmdSend,
--     Proxy pmdEntryPointProxy (pmd/pmdEdu.cpp), and Waits and Proxied are about it; Shutdown is
--     destroyAllInternal (pmd/pmdEduMgr.cpp), and Drain and Drained are about it, with the rounds
--     of the threads it waits for; Listener is pmd/pmdListener.cpp, and Accepting is about it;
--     Kernel is pmd/pmd.cpp and pmd/pmdMain.cpp.
--   Rtn: Methods is rtn::insert, find and remove, Init is rtn::init; Cells, Database, Update and
--     Remove are about the former, Indexed, Loaded, Restore and Fresh about the latter.
--   Agent: Request is pmdProcessAgentRequest; Query and Change follow a message to its reply, where
--     the way of the message is `receive` of Msg/Buffer: the bytes sent, and a NUL behind them.
--     Loop is pmdAgentEntryPoint, and Room is about its receive buffer; Incoming and Serve follow
--     the bytes of a socket through a turn.
--   Client: Command is client/command.cpp; Receive, Order and Query are about it. Shell is
--     client/edb.cpp and client/commandFactory.cpp, and Words, Line and Prompt are about it.
--     Exchange, Inserted and Deleted join a client and an agent.
--   Tests: concrete data, and the theorems at it.
--
-- How the code is read. A call returns an Outcome: a result, an exception, a wait for a latch that
-- is not released, undefined behaviour, or the end of the fuel. Words of 32 bits wrap around; a
-- page is a function from offsets to bytes, and an access outside of it is a fault. A latch counts
-- its holders, so that a missing or a surplus unlock is seen. The calls of the threads on the
-- manager are a sequence of steps, since each runs under its latch; the start of a thread and what
-- the thread does are separate steps. What the system and the other threads give to a loop (the
-- answers of select, recv, send and accept, whether a thread is forced, the events that come, what
-- the others do while a shutdown sleeps) is a list, an entry for each time that the code asks;
-- where the list ends the code waits, or is out of fuel.
--
-- Fuel. `insert_retry` has one unit for each round of `retry:` in dmsFile::insert; one is enough
-- where a page is found. `re_arrange_space` has one for each slot. `open_loop` has one for each
-- round of the loop of dmsFile::initialize: two are enough for a new file, and one for another.
-- `recv_until` has one for each call of recv: one is enough where there is no time-out. `split` has
-- one for each word, `read_more` one for each line, `agent_loop` one for each message.
--
-- Parameters. JsonLib stands for nlohmann::json: a dump is parsed back, and is text without NUL.
-- hash_fn stands for std::hash, of which nothing is assumed. Os holds the answers of fstat, write
-- and mmap, Allocator those of realloc and new[], Host those of new and std::thread, EntryPoint the
-- function that a thread runs.
--
-- Not modelled: addresses, ports and options of a socket; the reading of the options, which is a
-- call of a library; the log; what goes to the screen, but for the record that a query prints.
-- The latch of an index bucket and the mutex around extendSegment are released on every path and
-- are left out. The variable `fd` of the listener's inner loop is taken to stand at one address
-- in all rounds, and when an agent reads it is left open.

pub mod Base
pub mod Oss
pub mod Ixm
pub mod Dms
pub mod Msg
pub mod Pmd
pub mod Rtn
pub mod Agent
pub mod Client
pub mod Tests
