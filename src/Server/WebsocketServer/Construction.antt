-- ===== src/Server/WebsocketServer/Construction.antt =====
-- The constructor of websocket_server, with what the system answers as arguments; and what the
-- constructor, run and stop record in the metrics.
use cppsim.Prelude.{
  ℕ, Bool, true, false, List, [], ◌∷◌, ◌++◌, Option, none, some, Text, codes, pos, if◌then◌else◌,
}
use cppsim.Server.SessionIds.{decimal}
use cppsim.Server.Manager.{session_count, stop_all}
use cppsim.Server.MetricsCollector.{Collector, record_event, set_gauge, increment_counter}
use cppsim.Server.WebsocketServer.{Server, new_server, run, stop}

-- The error of each system call, if it has one; `closing` is that of the close after a failure.
pub record PortErrors : Type 0 where
  pub opening : Option Text
  pub option : Option Text
  pub binding : Option Text
  pub listening : Option Text
  pub closing : Option Text

-- How the constructor ends: with a server, or by throwing a text.
pub data Constructed : Type 0 where
  built : Server → Constructed
  thrown : Text → Constructed

-- The end of the constructor, and the lines that it logs as errors, the latest first.
pub record Construction : Type 0 where
  pub end : Constructed
  pub errors : List Text
  pub messages : List Text
  pub closed : Bool

-- The acceptor is closed before the throw.
unfoldable pub fail_closing : Option Text → Text → Construction
fail_closing none what = record { end = thrown what; errors = []; messages = []; closed = true }
fail_closing (some e) what = record {
  end = thrown what;
  errors = (codes "[WebSocketServer] Additional error closing acceptor: " ++ e) ∷ [];
  messages = [];
  closed = true;
}

-- The calls in their order; each stops the others if it fails.
unfoldable pub listen : ℕ → Option Text → Option Text → Construction
unfolding fail_closing
listen port (some e) closing =
    fail_closing closing (codes "[WebSocketServer] Failed to listen: " ++ e)
listen port none closing = record {
  end = built new_server;
  errors = [];
  messages = (codes "[WebSocketServer] Listening on port " ++ decimal 20 port) ∷ [];
  closed = false;
}

unfoldable pub bind : ℕ → Option Text → PortErrors → Construction
unfolding fail_closing listen
bind port (some e) p =
    fail_closing p.closing
      (codes "[WebSocketServer] Failed to bind to port " ++ (decimal 20 port ++ (codes ": " ++ e)))
bind port none p = listen port p.listening p.closing

unfoldable pub set_option : ℕ → Option Text → PortErrors → Construction
unfolding fail_closing bind
set_option port (some e) p =
    fail_closing p.closing (codes "[WebSocketServer] Failed to set reuse_address: " ++ e)
set_option port none p = bind port p.binding p

-- An acceptor that was not opened needs no close.
unfoldable pub open_port : ℕ → Option Text → PortErrors → Construction
unfolding set_option
open_port port (some e) p = record {
  end = thrown (codes "[WebSocketServer] Failed to open acceptor: " ++ e);
  errors = [];
  messages = [];
  closed = true;
}
open_port port none p = set_option port p.option p

unfoldable pub construct : ℕ → PortErrors → Construction
unfolding open_port
construct port p = open_port port p.opening p

module _ {D : Type 0} (to_double : ℕ → D) where
  -- What the constructor records before it opens the port.
  unfoldable pub record_created : ℕ → ℕ → Collector D → Collector D
  unfolding record_event set_gauge
  record_created now port c =
      set_gauge (codes "server_port") (to_double port)
        (record_event now (codes "server_created") [] c)

  -- run, with its counter.
  unfoldable pub run_counted : Server → Collector D → Server × Collector D
  unfolding increment_counter
  run_counted s c =
      if s.initialized
      then (run s, increment_counter (codes "server_started") (pos 1) c)
      else (s, c)

  -- stop, with its event and its gauge: the number of sessions is read after stop_all.
  unfoldable pub stop_recorded : ℕ → Server → Collector D → Server × Collector D
  unfolding record_event set_gauge
  stop_recorded now s c = if s.stopped then (s, c) else (
    stop s,
    set_gauge (codes "active_sessions") (to_double (session_count (stop_all s.manager).1))
        (record_event now (codes "server_stop") [] c),
  )

abbrev or_else : Option Text → Option Text → Option Text
or_else none o = o
or_else (some e) o = some e

-- The first call that failed.
abbrev pub first_error : PortErrors → Option Text
first_error p = or_else p.opening (or_else p.option (or_else p.binding p.listening))

unfoldable pub succeeded : Constructed → Bool
succeeded (built s) = true
succeeded (thrown e) = false
