-- ===== src/Lib.antt =====
-- Verification of cppsim, a poker server: clients connect by WebSocket, greet, act, reload their
-- stack and disconnect, in JSON messages.
--
-- The parts and their files, with the code that they model:
-- - Json: what the program uses of nlohmann::json and of double, as records of operations that the
--   other files take as a parameter, and the documented laws of the values that the program
--   builds. A thrown exception is `none`.
-- - Protocol: src/common/protocol.hpp, protocol.cpp and protocol_validation.cpp. Messages has the
--   structs, Codec to_json and from_json (x_to_json and x_from_json for the message x),
--   StateUpdate those of state_update_message, Parse the parse_..., validate_... and serialize_...
--   functions, SessionId the format of ids, Validation the validators under their own names.
--   Parse.Enveloped and Parse.Answers follow a message through its text. ErrorLog has
--   set_error_logger and log_protocol_error.
-- - Server.SessionIds, Server.SessionMap and Server.Manager: src/server/connection_manager.hpp and
--   connection_manager.cpp. The std::map is a list in the order of its keys; the methods keep
--   their names, and take and return the registry. register_loop is the loop of register_session.
--   Manager.Refinement has the registry as an abstract store.
-- - Server.RuntimeConfig: src/server/runtime_config_manager.hpp and runtime_config_manager.cpp,
--   under the names of the methods; the text of the file, the time and dump(2) are arguments.
--   config_json builds the object that export_to_json writes.
-- - Server.Config: the constants of src/server/config.hpp.
-- - Server.SessionMetrics: src/server/session_metrics.hpp. The functions that record a duration
--   are run by several threads, one access to an atomic at a time (Races); a schedule says whose
--   step is next, and which exchange fails spuriously.
-- - Server.Session: src/server/websocket_session.hpp and websocket_session.cpp. State has the
--   fields, Output the queue, the writes and the close, Traffic the rate limit and the burst
--   check, Handlers the messages by their type (on_x is handle_x from its parsed message on),
--   Events the handlers that Asio calls. on_deadline is the function that check_deadline waits
--   with; request_close and close_on_strand are the two halves of close() when another thread
--   calls it, and close is both at once, as on the strand. destroy is the destructor. Admission
--   and Arrival follow a handshake, and the other messages, from the client's text to the handler.
--   Footprint says what each handler does to the registry that all sessions share.
-- - Server.Clients: all sessions of a server with their one registry. A turn is a step of one
--   session, a session that comes or goes, the stop_all of the server, or the end of the registry.
--   stop_clients is stop_all with the sessions that it asks to close.
-- - Server.WebsocketServer: src/server/websocket_server.hpp and websocket_server.cpp, the accept
--   loop with its backoff and its stop. The handler of the backoff timer is on_timer. Races has
--   the sections of stop and on_accept as steps of their own, Construction the constructor and
--   what is recorded in the metrics, Pending the accepts and timers that have not ended.
-- - Server.MetricsCollector: src/server/metrics_collector.hpp and metrics_collector.cpp, under the
--   names of the methods. An unordered_map is a list of names and values. Percentile has
--   calculate_percentile and the sort, Export has export_metrics, in which metrics_to_json builds
--   the object.
-- - Server.Logger: src/server/logger.hpp, logger.cpp and sanitize.hpp.
-- - Server.Main: src/server/main.cpp: load_config is the choice of the configuration,
--   metrics_thread the loop of the thread, with sleep_while for its short sleeps, and on_signal
--   the signal handler. Program has main as a whole; what ioc.run() does is its argument.
-- - Examples: the theorems at concrete inputs, and two instances of Json's interface, of which one
--   writes and reads texts.
-- - Prelude: tests, lists, signed and unsigned machine integers and texts, for all of these.
--
-- How they interact. on_read counts a message, checks its rate, and hands it to a handler by the
-- session's state. A handshake registers the session in the connection manager; closing and a
-- failed read call its unregister_session. The handlers of one session run on its strand, so each
-- is a function from a World (the session, the registry that its weak pointer finds, and the
-- effects so far) to the next one. Server.Session.Steps is the relation of these steps: the
-- pending accept or read ends, a posted write runs or ends, the timer ends a wait, the close frame
-- is sent, another thread sends or closes, and other sessions use the registry between two steps.
-- Server.Clients puts many such sessions together, around one registry that they change. Calls of
-- Asio and Beast are recorded as effects, and their completions are steps that may come at any
-- time, which is more than Asio does.
--
-- Numbers. Unsigned 64-bit counters wrap around. int64_t amounts and sequence numbers are
-- integers, with their bounds as hypotheses where it matters; the casts to uint64_t and int are
-- residues. An id has 16 hexadecimal digits, which hold the 64 bits of its number; the decimal
-- digits of the fallback have the fuel 20, and a 64-bit number has 20 digits at most.
-- register_loop recurs on the attempts that are left, of 3. The steps of the threads that record
-- durations follow a schedule, which is a list, and Races.Ends bounds its length. The loop of the
-- metrics thread has one unit of fuel for each 30 seconds until the signal, and one more.
-- finish_writes has one unit for each write that may end: one per message of the queue, and one
-- for the write in progress.
--
-- Not modelled. Failed allocations, but that of a new session, and the lines that the parts log,
-- except those of main and of the server's constructor; the network, the timer and the event loop,
-- which are steps, effects and arguments; interleavings inside a section that holds a mutex; the
-- calls of the collector by the accept handlers; the client, which is a stub.
pub mod Prelude
pub mod Json
pub mod Protocol
pub mod Server
pub mod Examples
