-- ===== src/Server/Config.antt =====
-- src/server/config.hpp: the constants that are compiled into the server.
use cppsim.Prelude.{ℕ, ◌*◌, ℤ, pos, negsuc}

-- Times are nanoseconds, the tick of the steady clock.
abbrev pub second : ℕ
second = 1000000000

-- In seconds.
abbrev pub handshake_timeout : ℤ
handshake_timeout = pos 10

abbrev pub max_message_size : ℕ
max_message_size = 64 * 1024

abbrev pub default_port : ℕ
default_port = 8080

-- The port of the tests.
abbrev pub default_test_port : ℕ
default_test_port = 18080

abbrev pub max_messages_per_window : ℕ
max_messages_per_window = 10

-- In seconds.
abbrev pub rate_limit_window : ℤ
rate_limit_window = pos 1

-- In seconds.
abbrev pub ws_idle_timeout : ℤ
ws_idle_timeout = pos (24 * 3600)

-- In seconds.
abbrev pub ws_read_timeout : ℤ
ws_read_timeout = pos (24 * 3600)

abbrev pub max_sequence_gap : ℤ
max_sequence_gap = pos 10000

abbrev pub max_connections : ℕ
max_connections = 1000

abbrev pub max_write_queue_size : ℕ
max_write_queue_size = 100

abbrev pub placeholder_seat : ℤ
placeholder_seat = negsuc 0

abbrev pub placeholder_stack : ℤ
placeholder_stack = pos 0

-- In seconds.
abbrev pub max_backoff : ℕ
max_backoff = 30
