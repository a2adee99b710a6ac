-- ===== src/Server/Clients.antt =====
-- All clients of a server: their sessions, and the registry that these share. A turn is one step of
-- one session, a session that comes or goes, or the end of the server.
pub mod Turns
pub mod Coherence
pub mod Runs
pub mod Capacity
pub mod Shutdown
use cppsim.Prelude.{ℕ, ◌==◌, ◌≡◌, Bool, true, false, List, [], Option, none, some, if◌then◌else◌}
use cppsim.Json.{Floats, JsonLib}
use cppsim.Server.Manager.{Manager, empty_manager, stop_all}
use cppsim.Server.RuntimeConfig.{Limits}
use cppsim.Server.Session.State.{Session, World, Effect, new_session}
use cppsim.Server.Session.Events.{destroy}
use cppsim.Server.Session.Steps.{
  Phase, accepting, Step, accepted, read, write_posted, written, timed, close_frame_sent, sent,
  close_asked, close_posted, shared,
}

-- A session without the registry. Its handle is its number.
pub record Client : Type 0 where
  pub phase : Phase
  pub session : Session
  pub effects : List Effect

-- `stopped` is set once stop_all has run or the server is gone; `registry` is what the weak pointers
-- of the sessions find.
pub record Clients : Type 0 where
  pub slot : ℕ → Option Client
  pub registry : Option (Manager ℕ)
  pub stopped : Bool

unfoldable pub assign : ℕ → Option Client → (ℕ → Option Client) → ℕ → Option Client
assign i o f j = if j == i then o else f j

abbrev pub new_client : ℕ → Client
new_client now = record { phase = accepting; session = new_session now; effects = [] }

-- What the handlers of client i see, and what they leave of it.
abbrev pub view : ℕ → Option (Manager ℕ) → Client → Phase × World
view i o x = (x.phase, record { session = x.session; manager = o; self = i; effects = x.effects })

abbrev pub client_of : Phase × World → Client
client_of t = record { phase = t.0; session = t.1.session; effects = t.1.effects }

abbrev pub no_clients : Clients
no_clients = record { slot = λ _. none; registry = some empty_manager; stopped = false }

module _ {F : Floats} (L : JsonLib F) (c : Limits) where
  -- The step is the session's own, and not what others do to the registry.
  abbrev pub IsOwn : {s t : Phase × World} → Step L c s t → Type 0
  IsOwn (accepted b w) = Unit {0}
  IsOwn (read now draw r w) = Unit {0}
  IsOwn (write_posted p w) = Unit {0}
  IsOwn (written p b n w) = Unit {0}
  IsOwn (timed p r w) = Unit {0}
  IsOwn (close_frame_sent p b w) = Unit {0}
  IsOwn (sent p t w) = Unit {0}
  IsOwn (close_asked p w) = Unit {0}
  IsOwn (close_posted p w) = Unit {0}
  IsOwn (shared p w o h) = ⊥

  -- `joined` is the session that the server starts for an accepted socket, `left` its destructor,
  -- `halted` the stop_all of the server's stop, and `gone` the end of the registry.
  pub data Turn : Clients → Clients → Type 0 where
    joined :
        (i now : ℕ) (m : Manager ℕ) (s : Clients)
        → s.slot i ≡ none
        → s.registry ≡ some m
        → Turn s (record s { slot = assign i (some (new_client now)) s.slot })
    acted :
        (i : ℕ) (x : Client) (t : Phase × World) (s : Clients)
        → s.slot i ≡ some x
        → (st : Step L c (view i s.registry x) t) → IsOwn st
        → Turn s (record s { slot = assign i (some (client_of t)) s.slot; registry = t.1.manager })
    left :
        (i : ℕ) (x : Client) (s : Clients)
        → s.slot i ≡ some x
        → Turn s (record s {
          slot = assign i none s.slot;
          registry = (destroy (view i s.registry x).1).manager;
        })
    halted :
        (m : Manager ℕ) (s : Clients)
        → s.registry ≡ some m
        → Turn s (record s { registry = some (stop_all m).1; stopped = true })
    gone : (s : Clients) → Turn s (record s { registry = none; stopped = true })

  pub data Run (s : Clients) : Clients → Type 0 where
    here : Run s s
    after : {t u : Clients} → Run s t → Turn t u → Run s u
