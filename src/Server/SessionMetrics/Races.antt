-- ===== src/Server/SessionMetrics/Races.antt =====
-- update_processing_time and update_connection_duration of src/server/session_metrics.hpp, run by
-- several threads at once: each access to an atomic is a step of its own, in any order.
pub mod Totals
pub mod Runs
pub mod Ends
use cppsim.Prelude.{
  ℕ, zero, suc, ◌+◌, ◌*◌, ◌-◌, ◌%◌, ◌^◌, ◌≤◌, ◌<◌, ◌≡◌, ◌⊎◌, inl, inr, refl, sym, ap, ◌∙◌, Bool,
  true, false, not, ◌&&◌, List, [], ◌∷◌, ltb, ◌==◌, add_u64, length, if◌then◌else◌, arith,
  Bool-cases, if_intro,
}
use cppsim.Server.SessionMetrics.{Tally, Metrics}

-- Where a thread stands that records a duration. `compare` holds its current_max.
pub data Phase : Type 0 where
  add_total add_count load_max finished : Phase
  compare_max : ℕ → Phase

pub record Recorder : Type 0 where
  pub time : ℕ
  pub phase : Phase

-- The loop's test and its compare_exchange_weak, which fails if the maximum is another one, or
-- spuriously, and then loads it.
unfoldable pub exchange_max : Bool → ℕ → ℕ → Tally → Phase × Tally
exchange_max spurious time current t =
    if ltb current time
    then if t.max == current && not spurious
      then (finished, record t { max = time })
      else (compare_max t.max, t)
    else (finished, t)

-- The next step of a thread. `spurious` is whether a compare_exchange_weak fails on its own.
unfoldable pub advance : Bool → ℕ → Phase → Tally → Phase × Tally
unfolding exchange_max
advance spurious time add_total t = (add_count, record t { total = add_u64 t.total time })
advance spurious time add_count t = (load_max, record t { count = add_u64 t.count 1 })
advance spurious time load_max t = (compare_max t.max, t)
advance spurious time (compare_max current) t = exchange_max spurious time current t
advance spurious time finished t = (finished, t)

-- The i-th thread makes its step.
unfoldable pub step : ℕ → Bool → List Recorder → Tally → List Recorder × Tally
unfolding advance
step i spurious [] t = ([], t)
step zero spurious (r ∷ rs) t =
    let next = advance spurious r.time r.phase t in (record r { phase = next.0 } ∷ rs, next.1)
step (suc i) spurious (r ∷ rs) t = let next = step i spurious rs t in (r ∷ next.0, next.1)

-- A schedule says which thread is next and whether its exchange fails spuriously.
unfoldable pub run : List (ℕ × Bool) → List Recorder → Tally → List Recorder × Tally
unfolding step
run [] rs t = (rs, t)
run ((i, spurious) ∷ s) rs t = let next = step i spurious rs t in run s next.0 next.1

unfoldable pub start : List ℕ → List Recorder
start [] = []
start (d ∷ ds) = record { time = d; phase = add_total } ∷ start ds

abbrev pub is_finished : Phase → Bool
is_finished finished = true
is_finished add_total = false
is_finished add_count = false
is_finished load_max = false
is_finished (compare_max c) = false

abbrev pub AllFinished : List Recorder → Type 0
AllFinished [] = Unit
AllFinished (r ∷ rs) = (is_finished r.phase ≡ true) × AllFinished rs

-- Threads that call update_processing_time, each once with its time, by a schedule.
unfoldable pub update_processing_times : List (ℕ × Bool) → List ℕ → Metrics → Metrics
update_processing_times s ds m = record m {
  processing_time = (run s (start ds) m.processing_time).1;
}

-- Threads that call update_connection_duration.
unfoldable pub update_connection_durations : List (ℕ × Bool) → List ℕ → Metrics → Metrics
update_connection_durations s ds m = record m {
  connection_time = (run s (start ds) m.connection_time).1;
}
