-- ===== src/Server/AtMostOnce.antt =====
-- Over any events of a serving leader, a request of a client is written to the log at most once
-- (lib/server/raft_server.js).
use node_zmq_raft.Prelude.JsMap
use node_zmq_raft.Prelude.JsMap.{JsMap, same, Distinct}
