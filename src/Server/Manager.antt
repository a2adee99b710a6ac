-- ===== src/Server/Manager.antt =====
-- src/server/connection_manager.hpp and connection_manager.cpp: the registry of sessions. `S` is
-- the handle of a session (a shared_ptr). A method under the mutex is one step; logging is left out.
pub mod Register
pub mod Invariant
pub mod Fresh
pub mod Issues
pub mod Refinement
use cppsim.Prelude.{
  ℕ, zero, suc, ◌+◌, ◌≡◌, refl, Bool, List, [], ◌∷◌, Option, none, some, Text, ltb, leb, is_empty,
  if◌then◌else◌, length, map, is_some,
}
use cppsim.Protocol.SessionId.{max_session_id_length}
use cppsim.Server.Config.{max_connections}
use cppsim.Server.SessionMap.{find, try_emplace, erase, keys}
use cppsim.Server.SessionIds.{Counters, fresh_counters, generate_session_id}

abbrev pub max_session_id_retries : ℕ
max_session_id_retries = 3

-- The map, and the static counters of generate_session_id.
pub record Manager {ℓ} (S : Type ℓ) : Type ℓ where
  pub sessions : List (Text × S)
  pub counters : Counters

-- The three outcomes of the locked section of register_session.
pub data EmplaceResult {ℓ} (S : Type ℓ) : Type ℓ where
  success : List (Text × S) → EmplaceResult S
  at_capacity collision : EmplaceResult S

module _ {ℓ} {S : Type ℓ} where
  abbrev pub empty_manager : Manager S
  empty_manager = record { sessions = []; counters = fresh_counters }

  unfoldable pub emplace : Text → S → List (Text × S) → EmplaceResult S
  emplace id s m =
      if leb max_connections (length m)
      then at_capacity
      else elim (try_emplace id s m) [ none ↦ collision | some m' ↦ success m' ]

  -- The loop over the attempts, with n of them left; `draw n` is what the generator draws then.
  -- The empty text is the failure.
  unfoldable pub register_loop : ℕ → (ℕ → Option ℕ) → S → Manager S → Text × Manager S
  register_loop zero draw s m = ([], m)
  register_loop (suc n) draw s m =
      let generated = generate_session_id m.counters (draw n) in
      let id = generated.0 in
      let m' = record m { counters = generated.1 } in
      let retry = register_loop n draw s m' in
      if is_empty id
      then ([], m')
      else if ltb max_session_id_length (length id)
      then ([], m')
      else elim (emplace id s m.sessions) [
        | success table ↦ (id, record m' { sessions = table })
        | at_capacity ↦ ([], m')
        | collision ↦ retry
      ]

  -- `none` is a null session.
  unfoldable pub register_session : (ℕ → Option ℕ) → Option S → Manager S → Text × Manager S
  register_session draw none m = ([], m)
  register_session draw (some s) m = register_loop max_session_id_retries draw s m

  unfoldable pub unregister_session : Text → Manager S → Manager S
  unregister_session id m =
      if is_empty id
      then m
      else if is_some (find id m.sessions)
      then record m { sessions = erase id m.sessions }
      else m

  unfoldable pub get_session : Text → Manager S → Option S
  get_session id m = find id m.sessions

  unfoldable pub active_session_ids : Manager S → List Text
  active_session_ids m = keys m.sessions

  unfoldable pub session_count : Manager S → ℕ
  session_count m = length m.sessions

  -- The sessions that the caller then closes, and the emptied registry.
  unfoldable pub stop_all : Manager S → List S × Manager S
  stop_all m = (map (λ e. e.1) m.sessions, record m { sessions = [] })
