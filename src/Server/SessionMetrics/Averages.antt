-- ===== src/Server/SessionMetrics/Averages.antt =====
-- What the getters give when every thread has recorded its duration.
use cppsim.Prelude.{ℕ, ◌^◌, ◌≡◌, ◌<◌, refl, List, Bool, length, if◌then◌else◌, ◌==◌, arith}
use cppsim.Server.SessionMetrics.{
  Metrics, reset, get_average_processing_time_ms, get_max_processing_time_ms,
  get_average_connection_duration_s, get_max_connection_duration_s,
}
use cppsim.Server.SessionMetrics.Races.{
  run, start, AllFinished, update_processing_times, update_connection_durations,
}
use cppsim.Server.SessionMetrics.Races.Runs.{sum, maximum, run-AllFinished}

module _ {D : Type 0} (of_u64 : ℕ → D) (divide : D → D → D) where
  -- The average of some durations, 0 without one.
  abbrev pub average : List ℕ → D
  average ds = if length ds == 0 then of_u64 0 else divide (of_u64 (sum ds)) (of_u64 (length ds))

  abbrev pub average_ms : List ℕ → D
  average_ms ds =
      if length ds == 0
      then of_u64 0
      else divide (divide (of_u64 (sum ds)) (of_u64 (length ds))) (of_u64 1000)

  -- After a reset, threads record processing times and then threads record connection durations, each
  -- group in any order of its steps and with any spurious failures, until all are finished; neither
  -- the sums nor the numbers overflow 64 bits. Then the average processing time is the sum of the times over
  -- their number, in milliseconds, or 0.0 without a time, and the maximum is the largest time, in
  -- milliseconds; and likewise for the durations, in seconds.
  pub get_average-reset :
      (m : Metrics) (s r : List (ℕ × Bool)) (ts ds : List ℕ)
      → sum ts < 2 ^ 64
      → length ts < 2 ^ 64
      → sum ds < 2 ^ 64
      → length ds < 2 ^ 64
      → AllFinished (run s (start ts) (reset m).processing_time).0
      → AllFinished (run r (start ds) (reset m).connection_time).0
      → let n = update_connection_durations r ds (update_processing_times s ts (reset m)) in
        (get_average_processing_time_ms of_u64 divide n ≡ average_ms ts)
        × (get_max_processing_time_ms of_u64 divide n
            ≡ divide (of_u64 (maximum 0 ts)) (of_u64 1000))
        × (get_average_connection_duration_s of_u64 divide n ≡ average ds)
        × (get_max_connection_duration_s of_u64 divide n ≡ of_u64 (maximum 0 ds))
  unfolding get_average_processing_time_ms get_max_processing_time_ms
      get_average_connection_duration_s get_max_connection_duration_s reset update_processing_times
      update_connection_durations
  get_average-reset m s r ts ds hs hn ks kn f g =
      let e = run-AllFinished s ts (reset m).processing_time (omega arith) (omega arith) f in
      let o = run-AllFinished r ds (reset m).connection_time (omega arith) (omega arith) g in
      let total : (run s (start ts) (reset m).processing_time).1.total ≡ sum ts =
        omega (arith, e.0) in
      let count : (run s (start ts) (reset m).processing_time).1.count ≡ length ts =
        omega (arith, e.1) in
      let total' : (run r (start ds) (reset m).connection_time).1.total ≡ sum ds =
        omega (arith, o.0) in
      let count' : (run r (start ds) (reset m).connection_time).1.count ≡ length ds =
        omega (arith, o.1) in
      (rw (total, count) refl, rw e.2 refl, rw (total', count') refl, rw o.2 refl)
