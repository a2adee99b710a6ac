-- ===== src/Server/RuntimeConfig/Getters.antt =====
-- The accessors of src/server/runtime_config_manager.hpp: each reads one member under the mutex.
use cppsim.Prelude.{ℕ, ℤ, Bool, Text}
use cppsim.Server.RuntimeConfig.{RuntimeConfig}

abbrev pub get_max_connections : RuntimeConfig → ℤ
get_max_connections c = c.limits.max_connections

abbrev pub get_handshake_timeout : RuntimeConfig → ℤ
get_handshake_timeout c = c.limits.handshake_timeout

abbrev pub get_max_message_size : RuntimeConfig → ℕ
get_max_message_size c = c.limits.max_message_size

abbrev pub get_max_write_queue_size : RuntimeConfig → ℕ
get_max_write_queue_size c = c.limits.max_write_queue_size

abbrev pub get_max_messages_per_window : RuntimeConfig → ℕ
get_max_messages_per_window c = c.limits.max_messages_per_window

abbrev pub get_rate_limit_window : RuntimeConfig → ℤ
get_rate_limit_window c = c.limits.rate_limit_window

abbrev pub get_max_backoff : RuntimeConfig → ℤ
get_max_backoff c = c.limits.max_backoff

abbrev pub get_ws_idle_timeout : RuntimeConfig → ℤ
get_ws_idle_timeout c = c.limits.ws_idle_timeout

abbrev pub get_max_amount : RuntimeConfig → ℤ
get_max_amount c = c.limits.max_amount

abbrev pub get_max_sequence_gap : RuntimeConfig → ℤ
get_max_sequence_gap c = c.limits.max_sequence_gap

abbrev pub is_security_enabled : RuntimeConfig → Bool
is_security_enabled c = c.limits.security_enabled

abbrev pub is_metrics_enabled : RuntimeConfig → Bool
is_metrics_enabled c = c.limits.metrics_enabled

abbrev pub get_config_path : RuntimeConfig → Text
get_config_path c = c.config_path
