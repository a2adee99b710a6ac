-- ===== src/Examples/Process.antt =====
-- A whole run of the server program, and a history of its accept loop.
use cppsim.Prelude.{ℕ, ◌+◌, ◌≡◌, ◌≤◌, refl, arith, true, false, [], none, codes}
use cppsim.Examples.Library.{trees}
use cppsim.Server.RuntimeConfig.{default_limits}
use cppsim.Server.WebsocketServer.{
  Server, new_server, transient, connected, on_accept, run, on_timer, do_accept, request, back_off,
  cancel,
}
use cppsim.Server.WebsocketServer.Construction.{first_error}
use cppsim.Server.WebsocketServer.Pending.{
  Loop, started_loop, LoopReach, here, after, accepted, timed, asked, waiting, mark_fired,
}
use cppsim.Server.WebsocketServer.Pending.Single.{accept_loop_single}
use cppsim.Server.Main.{on_signal, starts_metrics_thread}
use cppsim.Server.Main.Program.{
  Process, Ending, returned, threw, Answers, main, drive_server, terminated,
}
use cppsim.Server.Main.Program.Endings.{IsExplained, ready, main_ends}

abbrev fresh : Process ℕ
fresh = record {
  collector = record {
    counters = [];
    gauges = [];
    timings = [];
    events = [];
    errors = [];
    start_time = 0;
  };
  config = record { limits = default_limits; config_path = []; last_reload_time = 0 };
  log = [];
  running = true;
}

abbrev answers : Answers
answers = record {
  now = 5;
  exists = false;
  file = none;
  port = record { opening = none; option = none; binding = none; listening = none; closing = none };
  thread = none;
  shutting = none;
}

-- The loop runs until a signal comes.
abbrev until_signal : Server → Process ℕ → Server × Process ℕ × Ending
until_signal s p =
    let (b, c) = on_signal (λ n. n) 9 (p.running, p.collector) in
    (s, record p { running = b; collector = c }, returned)

main_ends_example :
    let q = ready trees (λ n. n) until_signal answers fresh in
    let d = drive_server trees (λ n. n) until_signal new_server q in
    IsExplained answers.now
      (first_error answers.port)
      (starts_metrics_thread q.config)
      answers.thread
      d.2
      d.1.running
      (main trees (λ n. n) until_signal answers fresh)
main_ends_example = main_ends trees (λ n. n) until_signal answers fresh

-- An exception leaves the loop while the metrics thread runs.
abbrev until_exception : Server → Process ℕ → Server × Process ℕ × Ending
until_exception s p = (s, p, threw (codes "bad_alloc"))

exception_terminates : (main trees (λ n. n) until_exception answers fresh).1 ≡ terminated
unfolding main starts_metrics_thread
exception_terminates = refl

-- One client was accepted, the next accept failed, and the timer of the backoff has fired.
abbrev looped : Loop
looped = record {
  server = on_timer false 0 (on_accept transient (on_accept connected (run new_server)));
  ended = 2;
  fired = mark_fired 0 (λ t. false);
  broken = false;
}

looped_history : LoopReach started_loop looped
unfolding on_accept run new_server do_accept request back_off cancel asked
looped_history =
    after
      (after (after here (accepted connected _ (omega arith))) (accepted transient _ (omega arith)))
      (timed false 0 _ (omega arith) refl)

accept_loop_single_example :
    (asked looped.server.requests + waiting looped.server.backoff_timer looped.fired ≤ 3)
    × (looped.broken ≡ false
        → asked looped.server.requests + waiting looped.server.backoff_timer looped.fired ≡ 3)
accept_loop_single_example = accept_loop_single looped_history
