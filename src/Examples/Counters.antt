-- ===== src/Examples/Counters.antt =====
-- The theorems on the counters of a session at concrete threads.
use cppsim.Prelude.{
  ℕ, ◌+◌, ◌*◌, ◌/◌, ◌%◌, ◌^◌, ◌≡◌, ◌≤◌, refl, Bool, true, false, List, [], ◌∷◌, length, arith,
}
use cppsim.Server.SessionMetrics.{
  no_tally, no_metrics, reset, get_average_processing_time_ms, get_max_processing_time_ms,
  get_average_connection_duration_s, get_max_connection_duration_s,
}
use cppsim.Server.SessionMetrics.Races.{
  run, start, step, AllFinished, update_processing_times, update_connection_durations,
}
use cppsim.Server.SessionMetrics.Races.Runs.{sum, maximum, run-AllFinished}
use cppsim.Server.SessionMetrics.Races.Ends.{AllRunning, spurious_failures, run_ends}
use cppsim.Server.SessionMetrics.Averages.{average, average_ms, get_average-reset}

-- In microseconds.
abbrev times : List ℕ
times = 5 ∷ 3 ∷ []

-- Two threads, the second of which raises the maximum between the load and the exchange of the first.
abbrev race : List (ℕ × Bool)
race =
    (0, false)
    ∷ (1, false)
    ∷ (0, false)
    ∷ (0, false)
    ∷ (1, false)
    ∷ (1, false)
    ∷ (1, true)
    ∷ (1, false)
    ∷ (0, false)
    ∷ (0, false)
    ∷ []

race_finished : AllFinished (run race (start times) no_tally).0
unfolding run start
race_finished = (refl, (refl, tt))

run-AllFinished_example :
    let u = (run race (start times) no_tally).1 in
    (u.total ≡ (sum times + 0) % 2 ^ 64)
    × (u.count ≡ (length times + 0) % 2 ^ 64)
    × (u.max ≡ maximum 0 times)
run-AllFinished_example =
    run-AllFinished race times no_tally (omega arith) (omega arith) race_finished

race_running : AllRunning race (start times) no_tally
unfolding start step
race_running = (refl, (refl, (refl, (refl, (refl, (refl, (refl, (refl, (refl, (refl, tt))))))))))

run_ends_example : length race ≤ length times * (length times + 4) + spurious_failures race
run_ends_example = run_ends race times no_tally race_running

get_average-reset_example :
    let n =
      update_connection_durations race times
        (update_processing_times race times (reset no_metrics)) in
    (get_average_processing_time_ms (λ (k : ℕ). k) ◌/◌ n ≡ average_ms (λ (k : ℕ). k) ◌/◌ times)
    × (get_max_processing_time_ms (λ (k : ℕ). k) ◌/◌ n ≡ maximum 0 times / 1000)
    × (get_average_connection_duration_s (λ (k : ℕ). k) ◌/◌ n ≡ average (λ (k : ℕ). k) ◌/◌ times)
    × (get_max_connection_duration_s (λ (k : ℕ). k) ◌/◌ n ≡ maximum 0 times)
unfolding reset
get_average-reset_example =
    get_average-reset (λ (k : ℕ). k) ◌/◌ no_metrics race race times times (omega arith)
      (omega arith) (omega arith) (omega arith) race_finished race_finished
