-- ===== src/Examples/Crowd.antt =====
-- The theorems on all clients of a server at a run of two clients, of which one has been greeted.
use cppsim.Prelude.{
  ℕ, ◌≡◌, ◌⊎◌, ◌≤◌, refl, arith, Option, none, some, Text, codes, false, [], ◌∷◌, length, text_eq,
  is_empty,
}
use cppsim.Examples.Library.{trees, find_field}
use cppsim.Protocol.Codec.{envelope_from_json, handshake_from_json}
use cppsim.Protocol.Parse.{
  parse_handshake, client_name_ok, serialize_handshake_response, serialize_message,
}
use cppsim.Server.Config.{max_connections}
use cppsim.Server.SessionMap.{find, try_emplace, place}
use cppsim.Server.SessionIds.{generate_session_id, hex_digits, hex_char, mix}
use cppsim.Server.Manager.{Manager, register_session, register_loop, emplace}
use cppsim.Server.Manager.Invariant.{Inv}
use cppsim.Server.RuntimeConfig.{default_limits}
use cppsim.Server.Session.State.{authenticated, World, new_session, emit, is_closed}
use cppsim.Server.Session.Output.{queue_message, refuse}
use cppsim.Server.Session.Traffic.{
  recent, slide, check_rate_limit_or_close, check_suspicious_activity,
}
use cppsim.Server.Session.Handlers.{
  handle_handshake_message, on_handshake, admit, welcome, respond_handshake, greeted,
}
use cppsim.Server.Session.Events.{
  received, on_accept, do_read, on_read, on_message, count_received, inspect, dispatch, finish_read,
  read_on,
}
use cppsim.Server.Session.Steps.{Phase, accepting, reading, accepted, read, Reach, next_phase}
use cppsim.Server.Session.Invariant.{IsConsistent}
use cppsim.Server.Session.Invariant.Steps.{new_world}
use cppsim.Server.Session.Footprint.{found}
use cppsim.Server.Clients.{
  Client, Clients, assign, new_client, view, client_of, no_clients, Run, here, after, joined, acted,
}
use cppsim.Server.Clients.Turns.{Tame}
use cppsim.Server.Clients.Runs.{StaysTame, clients_refine, registry_points_to_clients}
use cppsim.Server.Clients.Shutdown.{IsAsked, stop_clients, stop_asks_all}
use cppsim.Server.Clients.Capacity.{IsPlaying, playing_bounded}

abbrev draws : ℕ → Option ℕ
draws n = some 9

abbrev one_waiting : Clients
one_waiting = record no_clients { slot = assign 0 (some (new_client 0)) (λ _. none) }

abbrev opened : Phase × World
opened =
    let w = (view 0 one_waiting.registry (new_client 0)).1 in
    (next_phase (on_accept false w), on_accept false w)

abbrev one_open : Clients
one_open = record {
  slot = assign 0 (some (client_of opened)) one_waiting.slot;
  registry = opened.1.manager;
  stopped = false;
}

abbrev welcomed : Phase × World
welcomed =
    let w = (view 0 one_open.registry (client_of opened)).1 in
    let v = on_read trees default_limits 1 draws (received (codes "hello")) w in (next_phase v, v)

abbrev one_plays : Clients
one_plays = record {
  slot = assign 0 (some (client_of welcomed)) one_open.slot;
  registry = welcomed.1.manager;
  stopped = false;
}

opened_reads : opened.0 ≡ reading
unfolding on_accept do_read new_session
opened_reads = refl

opening : Run trees default_limits no_clients one_open
unfolding assign
opening =
    after (after here (joined 0 0 _ no_clients refl refl))
      (acted 0 (new_client 0) opened one_waiting refl (accepted false _) tt)

playing : Run trees default_limits no_clients one_plays
unfolding assign on_accept do_read new_session emit
playing = after opening (
    acted 0 (client_of opened) welcomed one_open refl (read 1 draws (received (codes "hello")) _)
      tt)

welcomed-Tame : Tame welcomed.1.manager
unfolding on_accept do_read new_session on_read on_message count_received check_rate_limit_or_close
    slide recent inspect check_suspicious_activity dispatch handle_handshake_message parse_handshake
    on_handshake admit welcome respond_handshake greeted finish_read read_on envelope_from_json
    handshake_from_json find_field text_eq register_session register_loop generate_session_id
    hex_digits hex_char mix emplace try_emplace find queue_message serialize_handshake_response
    serialize_message client_name_ok emit refuse
welcomed-Tame = (omega arith, refl)

playing-StaysTame : StaysTame trees default_limits playing
unfolding playing opening on_accept do_read new_session emit
playing-StaysTame =
    ((((omega arith, refl), (omega arith, refl)), (omega arith, refl)), welcomed-Tame)

welcomed_state : welcomed.1.session.state ≡ authenticated
unfolding on_accept do_read new_session on_read on_message count_received check_rate_limit_or_close
    slide recent inspect check_suspicious_activity dispatch handle_handshake_message parse_handshake
    on_handshake admit welcome respond_handshake greeted finish_read read_on envelope_from_json
    handshake_from_json find_field text_eq register_session register_loop generate_session_id
    hex_digits hex_char mix emplace try_emplace find place queue_message
    serialize_handshake_response serialize_message client_name_ok emit refuse
welcomed_state = refl

clients_refine_example :
    ((now : ℕ) × (m : Manager ℕ) × Inv m
      × Reach trees default_limits
          (accepting, new_world now 0 m)
          (view 0 one_plays.registry (client_of welcomed)))
    × IsConsistent (view 0 one_plays.registry (client_of welcomed)).1
    × ((j : ℕ) (y : Client)
        → one_plays.slot j ≡ some y
        → (client_of welcomed).session.session_id ≡ y.session.session_id
        → (◌≡◌ {A = ℕ} 0 j) ⊎ ((client_of welcomed).session.session_id ≡ []))
unfolding assign
clients_refine_example =
    clients_refine trees default_limits playing 0 (client_of welcomed) playing-StaysTame refl

abbrev first_id : Text
first_id = codes "sess_0000000000000009"

first_id-found : found first_id one_plays.registry ≡ some 0
unfolding on_accept do_read new_session on_read on_message count_received check_rate_limit_or_close
    slide recent inspect check_suspicious_activity dispatch handle_handshake_message parse_handshake
    on_handshake admit welcome respond_handshake greeted finish_read read_on envelope_from_json
    handshake_from_json find_field text_eq register_session register_loop generate_session_id
    hex_digits hex_char mix emplace try_emplace find place queue_message
    serialize_handshake_response serialize_message client_name_ok emit refuse
first_id-found = refl

registry_points_to_clients_example :
    (x : Client) × (one_plays.slot 0 ≡ some x)
    × (x.session.session_id ≡ first_id)
    × (is_closed x.session.state ≡ false)
registry_points_to_clients_example =
    registry_points_to_clients trees default_limits playing first_id 0 playing-StaysTame
      first_id-found

first_IsPlaying : IsPlaying one_plays 0
unfolding assign
first_IsPlaying = (client_of welcomed, refl, welcomed_state)

playing_bounded_example : length {A = ℕ} (0 ∷ []) ≤ max_connections
playing_bounded_example =
    playing_bounded trees default_limits playing (0 ∷ []) playing-StaysTame refl (tt, tt)
      (first_IsPlaying, tt)

abbrev held : Manager ℕ
held = record {
  sessions = (first_id, 0) ∷ [];
  counters = record { counter = 1; fallback_counter = 0 };
}

held_registry : one_plays.registry ≡ some held
unfolding on_accept do_read new_session on_read on_message count_received check_rate_limit_or_close
    slide recent inspect check_suspicious_activity dispatch handle_handshake_message parse_handshake
    on_handshake admit welcome respond_handshake greeted finish_read read_on envelope_from_json
    handshake_from_json find_field text_eq register_session register_loop generate_session_id
    hex_digits hex_char mix emplace try_emplace find place queue_message
    serialize_handshake_response serialize_message client_name_ok emit refuse
held_registry = refl

welcomed_open : is_closed welcomed.1.session.state ≡ false
welcomed_open = rw welcomed_state refl

welcomed_named : is_empty welcomed.1.session.session_id ≡ false
unfolding on_accept do_read new_session on_read on_message count_received check_rate_limit_or_close
    slide recent inspect check_suspicious_activity dispatch handle_handshake_message parse_handshake
    on_handshake admit welcome respond_handshake greeted finish_read read_on envelope_from_json
    handshake_from_json find_field text_eq register_session register_loop generate_session_id
    hex_digits hex_char mix emplace try_emplace find place queue_message
    serialize_handshake_response serialize_message client_name_ok emit refuse
welcomed_named = refl

stop_asks_all_example :
    IsAsked (stop_clients held one_plays) 0
    × Run trees default_limits no_clients (stop_clients held one_plays)
unfolding assign
stop_asks_all_example =
    stop_asks_all trees default_limits playing held 0 (client_of welcomed) playing-StaysTame refl
      held_registry refl welcomed_open welcomed_named
