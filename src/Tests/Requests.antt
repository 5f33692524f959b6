-- ===== src/Tests/Requests.antt =====
-- The agent's receive buffer at a concrete length.
use edbc.Base.{true, false, []}
use edbc.Oss.Socket.{Socket}
use edbc.Pmd.Manager.{new_mgr}
use edbc.Agent.Loop.{Agent, agent_with}
use edbc.Tests.Fixtures.{plain}
use edbc.Tests.Records.{empty_db}

abbrev closed : Socket
closed = record {
  init = true;
  timeout = 0;
  alive = false;
  polls = [];
  arrivals = [];
  acceptances = [];
  sent = [];
}

-- Buffers of 64 bytes.
abbrev small : Agent
small = agent_with plain plain closed [] new_mgr empty_db
