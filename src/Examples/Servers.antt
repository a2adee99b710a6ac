-- ===== src/Examples/Servers.antt =====
-- The server's theorems at concrete states.
use cppsim.Server.MetricsCollector.{Collector, EventData, reset, no_timing}
use cppsim.Server.MetricsCollector.Retention.{
  record_all, time_all, latest, record_event_lem, add_timing_lem,
}
use cppsim.Prelude.{
  suc, some, arith, ◌/◌, ◌-◌, ◌≤◌, ◌+◌, ℕ, pos, ◌∷◌, [], List, codes, ◌≡◌, refl, true, false,
}
use cppsim.Examples.Library.{trees}
use cppsim.Server.Logger.{
  sanitize_session_id, log_message, log, write, get_timestamp, three_digits, log_level_to_string,
}
use cppsim.Server.RuntimeConfig.{RuntimeConfig, default_limits}
use cppsim.Server.RuntimeConfig.Ranges.{InRange}
use cppsim.Server.Main.{load_config, metrics_thread, sleep_while}
use cppsim.Server.Main.Start.{Reload, reload_all, limits_stay-InRange}
use cppsim.Server.Main.Thread.{running_until, rounds, metrics_thread_ends}
use cppsim.Server.WebsocketServer.{
  Server, transient, connected, on_accept, run, stop, new_server, ran, accepted, timed, Reach, here,
  after, on_timer,
}
use cppsim.Server.WebsocketServer.Races.{
  Race, RaceReach, served, silenced, listener_closed, serve, close_listener, silence, committed,
  races_bounded,
}
use cppsim.Server.WebsocketServer.{request, do_accept}
use cppsim.Server.WebsocketServer.Shutdown.{started, stop_final}

-- One client was accepted, then an accept failed.
abbrev serving : Server
serving = on_accept transient (on_accept connected (run new_server))

history : Reach new_server serving
history = after (after (after here (ran new_server)) (accepted connected _)) (accepted transient _)

-- An accept that was pending, and the timer of the backoff, come after the stop.
abbrev late : Server
late = on_timer false 0 (on_accept connected (stop serving))

late_history : Reach (stop serving) late
late_history = after (after here (accepted connected (stop serving))) (timed false 0 _)

stop_final_example :
    (started late.requests ≡ started serving.requests)
    × (late.stopped ≡ true)
    × (late.is_open ≡ false)
stop_final_example = stop_final history late_history

abbrev collector : Collector ℕ
collector = record {
  counters = (codes "server_started", pos 1) ∷ [];
  gauges = [];
  timings = [];
  events = [];
  errors = [];
  start_time = 0;
}

abbrev seen : List EventData
seen =
    (record { timestamp = 1; name = codes "server_created"; tags = [] })
    ∷ (record { timestamp = 9; name = codes "server_stop"; tags = [] })
    ∷ []

record_event_lem_example : (record_all seen (reset 0 collector)).events ≡ latest 1000 seen
record_event_lem_example = record_event_lem seen 0 collector

add_timing_lem_example :
    ((time_all (pos 3 ∷ pos 5 ∷ []) no_timing).count ≡ pos 2)
    × ((time_all (pos 3 ∷ pos 5 ∷ []) no_timing).samples ≡ latest 1001 (pos 3 ∷ pos 5 ∷ []))
add_timing_lem_example = add_timing_lem (pos 3 ∷ pos 5 ∷ [])

-- A signal in the second minute.
metrics_thread_70 : metrics_thread 3 (running_until 70) 0 [] ≡ some (70, 60 ∷ 30 ∷ [])
unfolding metrics_thread sleep_while
metrics_thread_70 = refl

metrics_thread_ends_example :
    metrics_thread (suc (70 / 30)) (running_until 70) 0 [] ≡ some (70, rounds ((70 - 1) / 30) 0 [])
metrics_thread_ends_example = metrics_thread_ends 70

abbrev defaults : RuntimeConfig
defaults = record { limits = default_limits; config_path = []; last_reload_time = 0 }

defaults-InRange : InRange default_limits
defaults-InRange = omega arith

abbrev one_reload : List Reload
one_reload = record { file = some (codes "tuned"); now = 9000000000; loaded = 9000000001 } ∷ []

limits_stay-InRange_example :
    InRange
      (reload_all trees one_reload
        (load_config trees true (some (codes "tuned")) 7 defaults)).limits
limits_stay-InRange_example =
    limits_stay-InRange trees true (some (codes "tuned")) 7 defaults one_reload defaults-InRange

sanitized : sanitize_session_id (codes "sess_0000000100000007") ≡ codes "sess_00000001..."
unfolding sanitize_session_id
sanitized = refl

shutdown_line :
    log_message (codes "2026-01-02 03:04:05") 7 (codes "stop") (record { out = []; err = [] })
    ≡ record { out = codes "2026-01-02 03:04:05.007 [INFO] stop\n"; err = [] }
unfolding log_message log write get_timestamp three_digits log_level_to_string
shutdown_line = refl

-- A handler has passed the guard when stop begins: its session is started nevertheless, and one at
-- most is.
abbrev raced : Race
raced = record {
  server = record new_server { stopped = true };
  guarding = 1;
  checking = 0;
  serving = 1;
}

raced_history :
    RaceReach raced
      (record raced { server = close_listener (silence (serve (raced.server))); serving = 0 })
unfolding new_server
raced_history =
    RaceReach.after
      (RaceReach.after (RaceReach.after RaceReach.here (served raced 0 refl)) (silenced _))
      (listener_closed _)

races_bounded_example :
    let s = close_listener (silence (serve (raced.server))) in
    (s.stopped ≡ true) × (started s.requests ≤ started raced.server.requests + committed raced)
unfolding new_server
races_bounded_example = races_bounded {r = raced} refl raced_history

raced_session : started (close_listener (silence (serve (raced.server)))).requests ≡ 1
unfolding new_server serve close_listener silence started request do_accept
raced_session = refl
