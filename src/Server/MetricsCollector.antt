-- ===== src/Server/MetricsCollector.antt =====
-- src/server/metrics_collector.hpp and metrics_collector.cpp: what is recorded, and what is kept of
-- it. `D` is double. Each locked section is one step. Export has the export.
pub mod Retention
pub mod Percentile
pub mod Export
use cppsim.Prelude.{
  ℕ, suc, ◌+◌, Bool, true, false, List, [], ◌∷◌, ◌++◌, Option, none, some, Text, codes, ℤ, pos,
  ◌+ℤ◌, ltb_ℤ, min_ℤ, ltb, length, drop, text_eq, is_some, if◌then◌else◌, ◌^◌, ◌-◌,
}

-- The value of a name in an unordered_map.
unfoldable pub lookup : {A : Type 0} → Text → List (Text × A) → Option A
lookup k [] = none
lookup k ((j, a) ∷ m) = if text_eq j k then some a else lookup k m

-- A found value, or the default.
abbrev pub value_or : {A : Type 0} → A → Option A → A
value_or default none = default
value_or default (some a) = a

-- m[k] = f(m[k]), where a missing value is the default.
unfoldable pub update : {A : Type 0} → Text → A → (A → A) → List (Text × A) → List (Text × A)
update k default f [] = (k, f default) ∷ []
update k default f ((j, a) ∷ m) =
    let rest = update k default f m in if text_eq j k then (j, f a) ∷ m else (j, a) ∷ rest

pub record TimingData : Type 0 where
  pub count : ℤ
  pub sum : ℤ
  pub min : ℤ
  pub max : ℤ
  pub samples : List ℤ

unfoldable pub no_timing : TimingData
no_timing = record { count = pos 0; sum = pos 0; min = pos (2 ^ 63 - 1); max = pos 0; samples = [] }

pub record EventData : Type 0 where
  pub timestamp : ℕ
  pub name : Text
  pub tags : List Text

pub record ErrorData : Type 0 where
  pub timestamp : ℕ
  pub type : Text
  pub details : Text

pub record Collector (D : Type 0) : Type 0 where
  pub counters : List (Text × ℤ)
  pub gauges : List (Text × D)
  pub timings : List (Text × TimingData)
  pub events : List EventData
  pub errors : List ErrorData
  pub start_time : ℕ

abbrev max_ℤ : ℤ → ℤ → ℤ
max_ℤ a b = if ltb_ℤ a b then b else a

-- One sample: the oldest one goes first if more than 1000 are kept.
unfoldable pub add_timing : ℤ → TimingData → TimingData
add_timing d t = record {
  count = t.count +ℤ pos 1;
  sum = t.sum +ℤ d;
  min = min_ℤ t.min d;
  max = max_ℤ t.max d;
  samples = (if ltb 1000 (length t.samples) then drop 1 t.samples else t.samples) ++ d ∷ [];
}

-- The newest is added, and the oldest goes if that is more than the limit.
unfoldable pub push_capped : {A : Type 0} → ℕ → A → List A → List A
push_capped limit a xs = let ys = xs ++ a ∷ [] in if ltb limit (length ys) then drop 1 ys else ys

module _ {D : Type 0} where
  unfoldable pub increment_counter : Text → ℤ → Collector D → Collector D
  increment_counter name value c = record c {
    counters = update name (pos 0) (λ n. n +ℤ value) c.counters;
  }

  unfoldable pub set_gauge : Text → D → Collector D → Collector D
  set_gauge name value c = record c { gauges = update name value (λ _. value) c.gauges }

  unfoldable pub record_timing : Text → ℤ → Collector D → Collector D
  record_timing name duration c = record c {
    timings = update name no_timing (add_timing duration) c.timings;
  }

  unfoldable pub record_event : ℕ → Text → List Text → Collector D → Collector D
  record_event now name tags c = record c {
    events = push_capped 1000 (record { timestamp = now; name = name; tags = tags }) c.events;
  }

  unfoldable pub record_error : ℕ → Text → Text → Collector D → Collector D
  unfolding increment_counter
  record_error now type details c = increment_counter (codes "errors." ++ type) (pos 1) (
      increment_counter (codes "errors.total") (pos 1) (record c {
        errors =
            push_capped 500 (record { timestamp = now; type = type; details = details }) c.errors;
      }))

  unfoldable pub get_counter : Text → Collector D → ℤ
  get_counter name c = value_or (pos 0) (lookup name c.counters)

  -- `nothing` is 0.0.
  unfoldable pub get_gauge : D → Text → Collector D → D
  get_gauge nothing name c = value_or nothing (lookup name c.gauges)

  unfoldable pub get_start_time : Collector D → ℕ
  get_start_time c = c.start_time

  unfoldable pub reset : ℕ → Collector D → Collector D
  reset now c = record {
    counters = [];
    gauges = [];
    timings = [];
    events = [];
    errors = [];
    start_time = now;
  }
