-- ===== src/Server/SessionMetrics.antt =====
-- src/server/session_metrics.hpp: the counters of a session. Each member function is one atomic
-- step, except the two that record a duration: SessionMetrics/Races has their steps.
pub mod Races
pub mod Averages
pub mod Getters
use cppsim.Prelude.{ℕ, ◌==◌, add_u64, if◌then◌else◌}

-- The three atomics of a duration: the total, the number of measurements and the maximum.
pub record Tally : Type 0 where
  pub total : ℕ
  pub count : ℕ
  pub max : ℕ

pub record Metrics : Type 0 where
  pub messages_sent : ℕ
  pub messages_received : ℕ
  pub errors : ℕ
  -- in microseconds
  pub processing_time : Tally
  -- in seconds
  pub connection_time : Tally
  pub rate_limit_exceeded : ℕ
  pub bytes_sent : ℕ
  pub bytes_received : ℕ

abbrev pub no_tally : Tally
no_tally = record { total = 0; count = 0; max = 0 }

abbrev pub no_metrics : Metrics
no_metrics = record {
  messages_sent = 0;
  messages_received = 0;
  errors = 0;
  processing_time = no_tally;
  connection_time = no_tally;
  rate_limit_exceeded = 0;
  bytes_sent = 0;
  bytes_received = 0;
}

abbrev pub increment_messages_sent : ℕ → Metrics → Metrics
increment_messages_sent n m = record m { messages_sent = add_u64 m.messages_sent n }

abbrev pub increment_messages_received : ℕ → Metrics → Metrics
increment_messages_received n m = record m { messages_received = add_u64 m.messages_received n }

abbrev pub increment_errors : ℕ → Metrics → Metrics
increment_errors n m = record m { errors = add_u64 m.errors n }

unfoldable pub record_rate_limit_exceeded : Metrics → Metrics
record_rate_limit_exceeded m = record m { rate_limit_exceeded = add_u64 m.rate_limit_exceeded 1 }

abbrev pub increment_bytes_sent : ℕ → Metrics → Metrics
increment_bytes_sent n m = record m { bytes_sent = add_u64 m.bytes_sent n }

abbrev pub increment_bytes_received : ℕ → Metrics → Metrics
increment_bytes_received n m = record m { bytes_received = add_u64 m.bytes_received n }

unfoldable pub reset : Metrics → Metrics
reset m = record m {
  messages_sent = 0;
  messages_received = 0;
  errors = 0;
  processing_time = record { total = 0; count = 0; max = 0 };
  connection_time = record { total = 0; count = 0; max = 0 };
  rate_limit_exceeded = 0;
  bytes_sent = 0;
  bytes_received = 0;
}

-- `D` is double, with the cast of a uint64_t and the division.
module _ {D : Type 0} (of_u64 : ℕ → D) (divide : D → D → D) where
  -- total / count, and 0.0 without a measurement.
  unfoldable pub get_average_processing_time_ms : Metrics → D
  get_average_processing_time_ms m =
      if m.processing_time.count == 0
      then of_u64 0
      else divide (divide (of_u64 m.processing_time.total) (of_u64 m.processing_time.count))
          (of_u64 1000)

  unfoldable pub get_max_processing_time_ms : Metrics → D
  get_max_processing_time_ms m = divide (of_u64 m.processing_time.max) (of_u64 1000)

  unfoldable pub get_average_connection_duration_s : Metrics → D
  get_average_connection_duration_s m =
      if m.connection_time.count == 0
      then of_u64 0
      else divide (of_u64 m.connection_time.total) (of_u64 m.connection_time.count)

  unfoldable pub get_max_connection_duration_s : Metrics → D
  get_max_connection_duration_s m = of_u64 m.connection_time.max
