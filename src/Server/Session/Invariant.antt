-- ===== src/Server/Session/Invariant.antt =====
-- What holds of a session between two handlers.
pub mod Output
pub mod Handlers
pub mod Requests
pub mod Identity
pub mod Events
pub mod Steps
use cppsim.Prelude.{
  ℕ, ◌≤◌, ◌≡◌, Bool, true, false, List, [], Option, none, some, Text, ℤ, pos, negsuc, ◌≤ℤ◌,
  is_empty, length,
}
use cppsim.Protocol.Messages.{max_amount}
use cppsim.Server.Config.{max_write_queue_size}
use cppsim.Server.SessionMap.{find}
use cppsim.Server.Manager.{Manager}
use cppsim.Server.Manager.Invariant.{Inv}
use cppsim.Server.Session.State.{State, authenticated, Session, World, is_closed}

-- Of the fields alone: the queue is bounded; an open session that is not writing has nothing to
-- write; a close that has begun has closed; the stack and the sequence number are in range; an
-- authenticated session has an id.
pub record IsSound (s : Session) : Type 0 where
  pub queue : length s.write_queue ≤ max_write_queue_size
  pub pipeline : is_closed s.state ≡ false → s.writing ≡ false → s.write_queue ≡ []
  pub initiated : s.close_initiated ≡ true → is_closed s.state ≡ true
  pub stack_low : pos 0 ≤ℤ s.current_stack
  pub stack_high : s.current_stack ≤ℤ max_amount
  pub sequence : negsuc 0 ≤ℤ s.last_sequence_number
  pub identified : s.state ≡ authenticated → is_empty s.session_id ≡ false

abbrev pub RegistryOk : Option (Manager ℕ) → Type 0
RegistryOk none = Unit {0}
RegistryOk (some m) = Inv m

-- The id is not registered.
abbrev pub Released : Text → Option (Manager ℕ) → Type 0
Released id none = Unit {0}
Released id (some m) = find id m.sessions ≡ none

-- A closed session is not registered.
pub record IsConsistent (w : World) : Type 0 where
  pub sound : IsSound w.session
  pub registry : RegistryOk w.manager
  pub released : is_closed w.session.state ≡ true → Released w.session.session_id w.manager

-- The world that a handler leaves behind, whatever it answers.
pub record Leaves {A : Type 0} (r : World × A) : Type 0 where
  pub consistent : IsConsistent r.0
