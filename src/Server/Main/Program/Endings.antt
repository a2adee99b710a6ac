-- ===== src/Server/Main/Program/Endings.antt =====
-- How main ends, and what it leaves in the log and in the collector.
use cppsim.Prelude.{
  ℕ, ◌≡◌, ◌≢◌, ◌↔◌, refl, Bool, true, false, ◌&&◌, List, ◌∷◌, Option, none, some, Text, codes,
  arith, if_intro, if◌then◌else◌,
}
use cppsim.Json.{Floats, JsonLib}
use cppsim.Server.Config.{default_port}
use cppsim.Server.Logger.{LogLevel, error}
use cppsim.Server.MetricsCollector.{Collector, record_error}
use cppsim.Server.WebsocketServer.{Server, new_server}
use cppsim.Server.WebsocketServer.Construction.{
  PortErrors, Constructed, built, thrown, construct, open_port, set_option, bind, listen,
  fail_closing, first_error,
}
use cppsim.Server.Main.{starts_metrics_thread}
use cppsim.Server.Main.Program.{
  Process, Outcome, exit_success, exit_failure, terminated, Ending, returned, threw, threw_unknown,
  Answers, say, complain, caught, caught_unknown, stopped_well, destroy_server, finish,
  drive_server, start_thread, built_or_thrown, prepare, main,
}

-- The constructor ends with a server exactly if no call failed.
abbrev Opens : Option Text → Constructed → Type 0
Opens none c = c ≡ built new_server
Opens (some e) c = (what : Text) × (c ≡ thrown what)

thrown_end : (c : Option Text) (what : Text) → (fail_closing c what).end ≡ thrown what
unfolding fail_closing
thrown_end none what = refl
thrown_end (some e) what = refl

construct-Opens : (port : ℕ) (p : PortErrors) → Opens (first_error p) (construct port p).end
unfolding construct open_port set_option bind listen
construct-Opens port p = go p.opening p.option p.binding p.listening
  where
    go :
        (o t b l : Option Text)
        → Opens
            (first_error (record p { opening = o; option = t; binding = b; listening = l }))
            (construct port (record p { opening = o; option = t; binding = b; listening = l })).end
    go (some e) t b l = (_, refl)
    go none (some e) b l = (_, thrown_end p.closing _)
    go none none (some e) l = (_, thrown_end p.closing _)
    go none none none (some e) = (_, thrown_end p.closing _)
    go none none none none = refl

-- The error is the latest line of the log, and the latest error of the collector.
abbrev pub IsReported : {D : Type 0} → ℕ → Process D → Type 0
IsReported {D} now q =
    ((what : Text) × (c : Collector D) × (q.collector
        ≡ record_error now (codes "startup_error") what c))
    × ((line : Text) × (rest : List (LogLevel × Text)) × (q.log ≡ (error, line) ∷ rest))

-- What each ending of main means: `open` says that the port was opened, `wanted` that the
-- configuration asks for the metrics thread.
pub record IsExplained {D : Type 0} (now : ℕ) (failed : Option Text) (wanted : Bool)
    (thread : Option Text) (e : Ending) (running : Bool) (r : Process D × Outcome) : Type 0 where
  pub succeeds :
      (r.1 ≡ exit_success)
      ↔ ((failed ≡ none) × (e ≡ returned) × (wanted ≡ true → (thread ≡ none) × (running ≡ false)))
  pub terminates :
      (r.1 ≡ terminated) ↔ ((failed ≡ none) × (wanted ≡ true) × (thread ≡ none) × (e ≢ returned))
  pub reports : r.1 ≡ exit_failure → IsReported now r.0

module _ {F : Floats} (L : JsonLib F) {D : Type 0} (to_double : ℕ → D) where
  caught-IsReported : (now : ℕ) (what : Text) (p : Process D) → IsReported now (caught now what p)
  unfolding caught complain
  caught-IsReported now what p = ((what, p.collector, refl), (_, _, refl))

  unknown-IsReported : (now : ℕ) (p : Process D) → IsReported now (caught_unknown now p)
  unfolding caught_unknown complain
  unknown-IsReported now p = ((_, p.collector, refl), (_, _, refl))

  finish-IsExplained :
      (a : Answers) (wanted : Bool) (s : Server) (p : Process D) (e : Ending)
      → IsExplained a.now none wanted none e p.running (finish L to_double a wanted (s, p, e))
  unfolding finish stopped_well
  finish-IsExplained a wanted s p returned =
      if_intro (IsExplained a.now none wanted none returned p.running) (wanted && p.running)
        (λ b. record {
          succeeds = (λ h. cc, λ h. ground arith);
          terminates = (λ h. cc, λ h. absurd (h.3 refl));
          reports = λ h. cc;
        })
        (λ b. record {
          succeeds = (λ h. (refl, refl, λ w. (refl, ground arith)), λ h. refl);
          terminates = (λ h. cc, λ h. absurd (h.3 refl));
          reports = λ h. cc;
        })
  finish-IsExplained a true s p (threw what) = record {
    succeeds = (λ h. cc, λ h. cc (h.1));
    terminates = (λ h. (refl, refl, refl, λ q. cc), λ h. refl);
    reports = λ h. cc;
  }
  finish-IsExplained a true s p threw_unknown = record {
    succeeds = (λ h. cc, λ h. cc (h.1));
    terminates = (λ h. (refl, refl, refl, λ q. cc), λ h. refl);
    reports = λ h. cc;
  }
  finish-IsExplained a false s p (threw what) = record {
    succeeds = (λ h. cc, λ h. cc (h.1));
    terminates = (λ h. cc, λ h. cc (h.1));
    reports = λ h. caught-IsReported a.now what (destroy_server L to_double a s p);
  }
  finish-IsExplained a false s p threw_unknown = record {
    succeeds = (λ h. cc, λ h. cc (h.1));
    terminates = (λ h. cc, λ h. cc (h.1));
    reports = λ h. unknown-IsReported a.now (destroy_server L to_double a s p);
  }

  -- An exception before the loop.
  caught-IsExplained :
      (now : ℕ) (failed : Option Text) (wanted : Bool) (thread : Option Text) (e : Ending)
      (b : Bool) (what : Text) (p : Process D)
      → ((failed ≡ none) → (wanted ≡ true) × (thread ≢ none))
      → IsExplained now failed wanted thread e b (caught now what p, exit_failure)
  caught-IsExplained now failed wanted thread e b what p h = record {
    succeeds = (λ q. cc, λ q. let (w, t) = h q.0 in absurd (t (q.2 w).0));
    terminates = (λ q. cc, λ q. absurd ((h q.0).1 q.2));
    reports = λ q. caught-IsReported now what p;
  }

  module _ (drive : Server → Process D → Server × Process D × Ending) (a : Answers) where
    -- Without the thread its error does not matter.
    unstarted-IsExplained :
        (e : Text) (d : Server × Process D × Ending)
        → IsExplained a.now none false none d.2 d.1.running (finish L to_double a false d)
        → IsExplained a.now none false (some e) d.2 d.1.running (finish L to_double a false d)
    unstarted-IsExplained e d k = record {
      succeeds = (λ h. (refl, (k.succeeds.0 h).1, λ w. cc), λ h. k.succeeds.1 (refl, h.1, λ w. cc));
      terminates = (λ h. cc ((k.terminates.0 h).1), λ h. cc (h.1));
      reports = k.reports;
    }

    start_thread-IsExplained :
        (o : Option Text) (s : Server) (p : Process D)
        → let d = drive_server L to_double drive s p in
          IsExplained a.now none
            (starts_metrics_thread p.config)
            o
            d.2
            d.1.running
            (start_thread L to_double drive a o s p)
    unfolding start_thread
    start_thread-IsExplained none s p =
        let (t, q, e) = drive_server L to_double drive s p in
        finish-IsExplained a (starts_metrics_thread p.config) t q e
    start_thread-IsExplained (some x) s p = wants (starts_metrics_thread p.config)
      where
        wants :
            (b : Bool)
            → IsExplained a.now none b
                (some x)
                (drive_server L to_double drive s p).2
                (drive_server L to_double drive s p).1.running
                (if b
                  then (caught a.now x (destroy_server L to_double a s p), exit_failure)
                  else finish L to_double a false (drive_server L to_double drive s p))
        wants true = caught-IsExplained a.now none true (some x) _ _ x _ (λ h. (refl, λ z. cc))
        wants false =
            unstarted-IsExplained x (drive_server L to_double drive s p) (
              let (t, q, e) = drive_server L to_double drive s p in
              finish-IsExplained a false t q e)

    -- The process that the loop is entered with.
    abbrev pub ready : Process D → Process D
    ready p =
        say (codes "[Main] Server running. Press Ctrl+C to stop.")
          (prepare L to_double a (construct default_port a.port) p)

    ended :
        (o : Option Text) (c : Constructed) (p : Process D)
        → Opens o c
        → let q = say (codes "[Main] Server running. Press Ctrl+C to stop.") p in
          let d = drive_server L to_double drive new_server q in
          IsExplained a.now o
            (starts_metrics_thread q.config)
            a.thread
            d.2
            d.1.running
            (built_or_thrown L to_double drive a c p)
    unfolding built_or_thrown
    ended none c p e = rw e (start_thread-IsExplained a.thread new_server _)
    ended (some x) c p (what, e) = rw e (caught-IsExplained a.now (some x) _ _ _ _ what _ (λ h. cc))

    -- main exits with success exactly if the port was opened, ioc.run() returned, and, where the
    -- configuration asks for the metrics thread, it could be started and its flag was cleared. An
    -- exception that leaves ioc.run() while the thread runs terminates the process, and nothing else
    -- does. An exit with a failure has its error as the latest line of the log and the latest error
    -- of the collector.
    pub main_ends :
        (p : Process D)
        → let q = ready p in
          let d = drive_server L to_double drive new_server q in
          IsExplained a.now
            (first_error a.port)
            (starts_metrics_thread q.config)
            a.thread
            d.2
            d.1.running
            (main L to_double drive a p)
    unfolding main
    main_ends p =
        ended (first_error a.port) (construct default_port a.port).end
          (prepare L to_double a (construct default_port a.port) p)
          (construct-Opens default_port a.port)
