-- ===== src/Server/MetricsCollector/Export.antt =====
-- export_metrics of src/server/metrics_collector.cpp. Each section takes its own lock, so it may find
-- another state of the collector: the five states are arguments, as are the readings of the clocks.
-- `none` is an exception or a read outside of the samples.
pub mod Contents
use cppsim.Prelude.{
  ℕ, zero, suc, ◌+◌, ◌*◌, ◌/◌, ◌<◌, ◌^◌, ◌≡◌, refl, ap, ◌∙◌, Bool, true, false, List, [], ◌∷◌, ◌++◌,
  Option, none, some, Text, codes, ℤ, pos, negsuc, ◌+ℤ◌, sub_ℕ, ltb_ℤ, map, length, ◌>>=◌,
  if◌then◌else◌, text_eq, is_empty, arith,
}
use cppsim.Json.{Floats, JsonLib, JsonLaws, member}
use cppsim.Protocol.StateUpdate.{read_all}
use cppsim.Server.SessionIds.{decimal}
use cppsim.Server.MetricsCollector.{lookup, TimingData, EventData, ErrorData, Collector}
use cppsim.Server.MetricsCollector.Percentile.{
  Arithmetic, sort, insert, calculate_percentile, calculate_percentile_total,
}

-- Division of a signed number, toward zero.
unfoldable pub quotient : ℤ → ℕ → ℤ
quotient (pos n) d = pos (n / d)
quotient (negsuc n) d = sub_ℕ 0 (suc n / d)

-- std::to_string of a signed 64-bit number.
unfoldable pub decimal_ℤ : ℤ → Text
decimal_ℤ (pos n) = decimal 20 n
decimal_ℤ (negsuc n) = codes "-" ++ decimal 20 (suc n)

-- The system clock and the steady clock, in nanoseconds, at the start of the events and at the end.
pub record Clocks : Type 0 where
  pub system_start : ℕ
  pub steady_start : ℕ
  pub system_end : ℕ
  pub steady_end : ℕ

-- The time of a record, in seconds of the system clock, from its whole milliseconds since the start.
unfoldable pub time_text : Clocks → ℕ → ℕ → Text
unfolding quotient decimal_ℤ
time_text clocks start timestamp =
    let offset = quotient (sub_ℕ timestamp start) 1000000 in
    let system = sub_ℕ (clocks.system_start + start) clocks.steady_start in
    let nanoseconds : ℤ = elim offset [
      | pos n ↦ pos (n * 1000000)
      | negsuc n ↦ sub_ℕ 0 (suc n * 1000000)
    ] in
    decimal_ℤ (quotient (system +ℤ nanoseconds) 1000000000)

module _ {F : Floats} (L : JsonLib F) (A : Arithmetic F) (number : F.Double → L.Json) where
  open L use {Json}
  open F use {Double, of_int}

  unfoldable pub object_of : {V : Type 0} → (V → Json) → List (Text × V) → Json
  object_of put m = L.object (map (λ e. (e.0, put e.1)) m)

  unfoldable pub percentiles : List ℤ → Option (List (Text × Json))
  percentiles [] = some []
  percentiles (s ∷ rest) = do
    let sorted = sort (s ∷ rest)
    p50 ← calculate_percentile A sorted 50
    p95 ← calculate_percentile A sorted 95
    p99 ← calculate_percentile A sorted 99
    some (
        (codes "p50_ms", number p50)
        ∷ (codes "p95_ms", number p95)
        ∷ (codes "p99_ms", number p99)
        ∷ [])

  unfoldable pub timing_to_json : TimingData → Option Json
  unfolding percentiles
  timing_to_json t = do
    ps ← percentiles t.samples
    some (
        L.object (
          (codes "count", L.integer t.count)
          ∷ (codes "sum_ms", L.integer t.sum)
          ∷ (codes "min_ms", L.integer t.min)
          ∷ (codes "max_ms", L.integer t.max)
          ∷ (
            codes "avg_ms",
            number (
                if ltb_ℤ (pos 0) t.count
                then A.divide (of_int t.sum) (of_int t.count)
                else of_int (pos 0)),
          )
          ∷ ps))

  unfoldable pub entry_to_json : Text × TimingData → Option (Text × Json)
  unfolding timing_to_json
  entry_to_json (name, t) = do j ← timing_to_json t; some (name, j)

  unfoldable pub event_to_json : Clocks → ℕ → EventData → Json
  event_to_json clocks start e = L.object (
      (codes "timestamp", L.string (time_text clocks start e.timestamp))
      ∷ (codes "name", L.string e.name)
      ∷ (codes "tags", L.array (map L.string e.tags))
      ∷ [])

  unfoldable pub error_to_json : Clocks → ℕ → ErrorData → Json
  error_to_json clocks start e = L.object (
      (codes "timestamp", L.string (time_text clocks start e.timestamp))
      ∷ (codes "type", L.string e.type)
      ∷ (codes "details", L.string e.details)
      ∷ [])

  unfoldable pub system_to_json : Clocks → ℕ → Json
  system_to_json clocks start = L.object (
      (codes "export_timestamp", L.integer (pos (clocks.system_end / 1000000000)))
      ∷ (codes "uptime_seconds", L.integer (quotient (sub_ℕ clocks.steady_end start) 1000000000))
      ∷ [])

  -- The states that the sections find, in their order; export_mutex_ guards the start time.
  pub record Views : Type 0 where
    pub counting : Collector Double
    pub gauging : Collector Double
    pub timing : Collector Double
    pub happening : Collector Double
    pub failing : Collector Double
    pub start_time : ℕ

  unfoldable pub metrics_to_json : Clocks → Views → Option Json
  metrics_to_json clocks v = do
    timings ← read_all entry_to_json v.timing.timings
    some (
        L.object (
          (codes "counters", object_of L.integer v.counting.counters)
          ∷ (codes "gauges", object_of number v.gauging.gauges)
          ∷ (codes "timings", L.object timings)
          ∷ (codes "events", L.array (map (event_to_json clocks v.start_time) v.happening.events))
          ∷ (codes "errors", L.array (map (error_to_json clocks v.start_time) v.failing.errors))
          ∷ (codes "system", system_to_json clocks v.start_time)
          ∷ []))

  -- dump(2) is an argument; an exception gives the empty object.
  unfoldable pub export_metrics : (Json → Option Text) → Clocks → Views → Text
  export_metrics dump_indented clocks v = elim (metrics_to_json clocks v >>= dump_indented) [
    | none ↦ codes "{}"
    | some t ↦ t
  ]
