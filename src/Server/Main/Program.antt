-- ===== src/Server/Main/Program.antt =====
-- main() of src/server/main.cpp as a whole: its calls in their order, what it logs, and how the
-- process ends. What the event loop does until it ends is an argument; so are the answers of the
-- system.
pub mod Endings
use cppsim.Prelude.{
  ℕ, suc, ◌+◌, Bool, true, false, ◌&&◌, List, [], ◌∷◌, ◌++◌, Option, none, some, Text, codes, ℤ,
  pos, negsuc, if◌then◌else◌,
}
use cppsim.Json.{Floats, JsonLib}
use cppsim.Protocol.ErrorLog.{Logger}
use cppsim.Server.Config.{default_port}
use cppsim.Server.SessionIds.{decimal}
use cppsim.Server.Logger.{LogLevel, info, error}
use cppsim.Server.RuntimeConfig.{RuntimeConfig, load_from_file}
use cppsim.Server.RuntimeConfig.Getters.{
  get_max_connections, get_handshake_timeout, get_max_message_size, is_security_enabled,
  is_metrics_enabled,
}
use cppsim.Server.MetricsCollector.{Collector, record_event, record_error}
use cppsim.Server.WebsocketServer.{Server}
use cppsim.Server.WebsocketServer.Construction.{
  PortErrors, Construction, Constructed, built, thrown, construct, record_created, run_counted,
  stop_recorded,
}
use cppsim.Server.Main.{config_path, starts_metrics_thread}

-- What the process has: the collector, the configuration, the lines of the log, the latest first,
-- and the flag of the metrics thread.
pub record Process (D : Type 0) : Type 0 where
  pub collector : Collector D
  pub config : RuntimeConfig
  pub log : List (LogLevel × Text)
  pub running : Bool

-- `exit_success` and `exit_failure` are the two returns. `terminated` is std::terminate, and
-- `blocked` a join that waits for ever.
pub data Outcome : Type 0 where
  exit_success exit_failure terminated blocked : Outcome

-- How ioc.run() ends: it returns, or lets an exception through, a std::exception or another.
pub data Ending : Type 0 where
  returned : Ending
  threw : Text → Ending
  threw_unknown : Ending

-- What the system answers: the time, one for all readings of the clock; whether the file of the
-- configuration exists and what it holds; the errors of the port; the error of starting a thread;
-- and that of closing the acceptor at the end.
pub record Answers : Type 0 where
  pub now : ℕ
  pub exists : Bool
  pub file : Option Text
  pub port : PortErrors
  pub thread : Option Text
  pub shutting : Option Text

unfoldable pub to_string : ℤ → Text
to_string (pos n) = decimal 20 n
to_string (negsuc n) = b'-' ∷ decimal 20 (suc n)

abbrev pub yes_no : Bool → Text
yes_no true = codes "true"
yes_no false = codes "false"

unfoldable pub lines : LogLevel → List Text → List (LogLevel × Text) → List (LogLevel × Text)
lines level [] rest = rest
lines level (l ∷ ls) rest = (level, l) ∷ lines level ls rest

module _ {D : Type 0} where
  unfoldable pub say : Text → Process D → Process D
  say line p = record p { log = (info, line) ∷ p.log }

  unfoldable pub complain : Text → Process D → Process D
  complain line p = record p { log = (error, line) ∷ p.log }

  -- The function that main gives to set_error_logger; neither of its calls lets an exception out.
  unfoldable pub error_logger : ℕ → Logger (Process D)
  unfolding complain record_error
  error_logger now msg p = some (
      complain msg
        (record p { collector = record_error now (codes "protocol_error") msg p.collector }))

  -- The five lines on the configuration, after a heading.
  unfoldable pub log_summary : Process D → Process D
  unfolding say to_string
  log_summary p =
      let c = p.config in
      say (codes "  - Metrics enabled: " ++ yes_no (is_metrics_enabled c)) (
        say (codes "  - Security enabled: " ++ yes_no (is_security_enabled c)) (
          say (codes "  - Max message size: " ++ decimal 20 (get_max_message_size c)) (
            say
              (codes "  - Handshake timeout: "
                ++ (to_string (get_handshake_timeout c) ++ codes "s"))
              (say (codes "  - Max connections: " ++ to_string (get_max_connections c))
                (say (codes "[Main] Server configuration:") p)))))

  -- The two catch blocks.
  unfoldable pub caught : ℕ → Text → Process D → Process D
  unfolding complain record_error
  caught now what p =
      let p' = complain (codes "[Main] Exception: " ++ what) p in
      record p' { collector = record_error now (codes "startup_error") what p'.collector }

  unfoldable pub caught_unknown : ℕ → Process D → Process D
  unfolding complain record_error
  caught_unknown now p =
      let p' = complain (codes "[Main] Unknown exception occurred") p in
      record p' {
        collector =
            record_error now (codes "startup_error") (codes "Unknown exception") p'.collector;
      }

module _ {F : Floats} (L : JsonLib F) {D : Type 0} (to_double : ℕ → D) where
  unfoldable pub configure : Answers → Process D → Process D
  unfolding say
  configure a p =
      let loaded = load_from_file L config_path a.file a.now p.config in
      if a.exists
      then (if loaded.1
          then say (codes "[Main] Configuration loaded successfully")
              (record p { config = loaded.0 })
          else say (codes "[Main] Failed to load config, using defaults")
              (record p { config = loaded.0 }))
      else say (codes "[Main] Config file not found, using defaults") p

  unfoldable pub close_lines : Option Text → Process D → Process D
  unfolding say complain
  close_lines none p = say (codes "[WebSocketServer] Stopped accepting connections") p
  close_lines (some e) p =
      say (codes "[WebSocketServer] Stopped accepting connections")
        (complain (codes "[WebSocketServer] Error closing acceptor: " ++ e) p)

  -- The destructor of the server: stop(), which does nothing the second time.
  unfoldable pub destroy_server : Answers → Server → Process D → Process D
  unfolding stop_recorded close_lines
  destroy_server a s p =
      if s.stopped
      then p
      else close_lines a.shutting
          (record p { collector = (stop_recorded to_double a.now s p.collector).1 })

  unfoldable pub stopped_well : Answers → Server → Process D → Process D × Outcome
  unfolding say destroy_server
  stopped_well a s p = (destroy_server a s (say (codes "[Main] Server stopped.") p), exit_success)

  -- After ioc.run(). An exception that leaves it destroys first the thread, if there is one, and then
  -- the server, before a catch block runs; a thread that is joinable ends the process. A join ends
  -- only if the flag has been cleared.
  unfoldable pub finish : Answers → Bool → Server × Process D × Ending → Process D × Outcome
  unfolding stopped_well caught caught_unknown destroy_server
  finish a has_thread (s, p, returned) =
      if has_thread && p.running then (p, blocked) else stopped_well a s p
  finish a has_thread (s, p, threw what) =
      if has_thread
      then (p, terminated)
      else (caught a.now what (destroy_server a s p), exit_failure)
  finish a has_thread (s, p, threw_unknown) =
      if has_thread
      then (p, terminated)
      else (caught_unknown a.now (destroy_server a s p), exit_failure)

  -- server->run() and ioc.run(): `drive` is the loop with all handlers that it calls.
  unfoldable pub drive_server :
      (Server → Process D → Server × Process D × Ending)
      → Server
      → Process D
      → Server × Process D × Ending
  unfolding run_counted
  drive_server drive s p =
      let r = run_counted to_double s p.collector in drive r.0 (record p { collector = r.1 })

  -- The thread, if the configuration asks for it; starting one may throw.
  unfoldable pub start_thread :
      (Server → Process D → Server × Process D × Ending)
      → Answers
      → Option Text
      → Server
      → Process D
      → Process D × Outcome
  unfolding caught finish drive_server destroy_server
  start_thread drive a none s p = finish a (starts_metrics_thread p.config) (drive_server drive s p)
  start_thread drive a (some e) s p =
      if starts_metrics_thread p.config
      then (caught a.now e (destroy_server a s p), exit_failure)
      else finish a false (drive_server drive s p)

  unfoldable pub built_or_thrown :
      (Server → Process D → Server × Process D × Ending)
      → Answers
      → Constructed
      → Process D
      → Process D × Outcome
  unfolding caught say start_thread
  built_or_thrown drive a (thrown what) p = (caught a.now what p, exit_failure)
  built_or_thrown drive a (built s) p =
      start_thread drive a a.thread s (say (codes "[Main] Server running. Press Ctrl+C to stop.") p)

  -- Until the server's constructor has ended, with the lines that it logs.
  unfoldable pub prepare : Answers → Construction → Process D → Process D
  unfolding configure log_summary record_event record_created
  prepare a built_server p =
      let p' = log_summary (
        configure a
          (record p { collector = record_event a.now (codes "server_start") [] p.collector })) in
      record p' {
        collector = record_created to_double a.now default_port p'.collector;
        log = lines error built_server.errors (lines info built_server.messages p'.log);
        running = true;
      }

  unfoldable pub main :
      (Server → Process D → Server × Process D × Ending) → Answers → Process D → Process D × Outcome
  unfolding prepare built_or_thrown construct
  main drive a p =
      let c = construct default_port a.port in built_or_thrown drive a c.end (prepare a c p)
