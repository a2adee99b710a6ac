-- ===== src/Server/SessionMetrics/Getters.antt =====
-- The getters of src/server/session_metrics.hpp that load one counter.
use cppsim.Prelude.{ℕ}
use cppsim.Server.SessionMetrics.{Metrics}

abbrev pub get_messages_sent : Metrics → ℕ
get_messages_sent m = m.messages_sent

abbrev pub get_messages_received : Metrics → ℕ
get_messages_received m = m.messages_received

abbrev pub get_errors : Metrics → ℕ
get_errors m = m.errors

abbrev pub get_rate_limit_exceeded_count : Metrics → ℕ
get_rate_limit_exceeded_count m = m.rate_limit_exceeded

abbrev pub get_bytes_sent : Metrics → ℕ
get_bytes_sent m = m.bytes_sent

abbrev pub get_bytes_received : Metrics → ℕ
get_bytes_received m = m.bytes_received
