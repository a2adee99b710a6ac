-- ===== src/Server/Main.antt =====
-- src/server/main.cpp: the start, the thread that exports the metrics, and the signal handler. The
-- thread sleeps a second at a time, so its time is a number of seconds; an export takes none.
pub mod Thread
pub mod Start
pub mod Program
use cppsim.Prelude.{
  ℕ, zero, suc, ◌+◌, ◌-◌, ◌/◌, Bool, true, false, List, [], ◌∷◌, Option, none, some, Text, codes,
  ltb, if◌then◌else◌,
}
use cppsim.Json.{Floats, JsonLib}
use cppsim.Server.Config.{second}
use cppsim.Server.RuntimeConfig.{RuntimeConfig, load_from_file}
use cppsim.Server.RuntimeConfig.Getters.{is_metrics_enabled}
use cppsim.Server.MetricsCollector.{Collector, record_event, set_gauge, get_start_time}

abbrev pub config_path : Text
config_path = codes "config/default_config.json"

-- `exists` is what the file system says, and `file` what the file then holds, if it opens.
unfoldable pub load_config :
    {F : Floats} → JsonLib F → Bool → Option Text → ℕ → RuntimeConfig → RuntimeConfig
load_config L exists file now c = if exists then (load_from_file L config_path file now c).0 else c

-- The short sleeps: at most n more, while `running` says so at the current second.
unfoldable pub sleep_while : (ℕ → Bool) → ℕ → ℕ → ℕ
sleep_while running zero t = t
sleep_while running (suc n) t =
    let later = sleep_while running n (suc t) in if running t then later else t

-- The loop of the thread: the second at which it ends, and the seconds of its exports, the latest
-- first. `none` is a run that is not over after so many rounds.
unfoldable pub metrics_thread : ℕ → (ℕ → Bool) → ℕ → List ℕ → Option (ℕ × List ℕ)
metrics_thread zero running t exports = none
metrics_thread (suc fuel) running t exports =
    let woken = sleep_while running 30 t in
    let again = metrics_thread fuel running woken (woken ∷ exports) in
    if running t
    then (if running woken then again else some (woken, exports))
    else some (t, exports)

-- The thread is started if the configuration says so.
unfoldable pub starts_metrics_thread : RuntimeConfig → Bool
starts_metrics_thread c = is_metrics_enabled c

-- What the signal handler does to `running` and to the collector: `to_double` is the cast.
unfoldable pub on_signal : {D : Type 0} → (ℕ → D) → ℕ → Bool × Collector D → Bool × Collector D
unfolding get_start_time record_event set_gauge
on_signal to_double now (running, c) =
    let uptime = (now - get_start_time c) / second in
    (
      false,
      set_gauge (codes "server_uptime_seconds") (to_double uptime)
          (record_event now (codes "server_shutdown") [] c),
    )
