-- ===== src/Examples/Sessions.antt =====
-- The session's theorems at concrete sessions and histories.
use cppsim.Prelude.{
  ℕ, ◌≡◌, ◌⊎◌, refl, arith, Option, none, some, Text, codes, pos, true, false, List, [], ◌∷◌,
  if◌then◌else◌, text_eq,
}
use cppsim.Examples.Library.{trees, find_field}
use cppsim.Examples.Registry.{alice, table, table-Inv}
use cppsim.Protocol.Messages.{ActionMessage, ReloadRequestMessage}
use cppsim.Protocol.Codec.{envelope_from_json, handshake_from_json}
use cppsim.Protocol.Parse.{
  parse_handshake, client_name_ok, serialize_error, serialize_handshake_response, serialize_message,
}
use cppsim.Server.SessionMap.{find, try_emplace}
use cppsim.Server.SessionIds.{generate_session_id, hex_digits, hex_char, mix}
use cppsim.Server.Config.{second}
use cppsim.Server.Manager.{get_session, register_session, register_loop, emplace}
use cppsim.Server.RuntimeConfig.{default_limits}
use cppsim.Server.Session.State.{authenticated, World, new_session, emit}
use cppsim.Protocol.ErrorCodes
use cppsim.Server.Session.Timeout.{Answered, timeout_text, expired_lem}
use cppsim.Server.Session.Output.{error_for, queue_message, refuse}
use cppsim.Server.Session.Traffic.{
  recent, slide, check_rate_limit_or_close, check_suspicious_activity,
}
use cppsim.Server.Session.Traffic.Window.{verdicts, reference, verdicts-reference}
use cppsim.Server.Session.Handlers.{
  returned, on_action, on_reload, handle_handshake_message, on_handshake, admit, welcome,
  respond_handshake, greeted,
}
use cppsim.Server.Session.Events.{
  expired, on_deadline, received, on_accept, do_read, on_read, on_message, count_received, inspect,
  dispatch, finish_read, read_on,
}
use cppsim.Server.Session.Steps.{
  Phase, accepting, reading, accepted, read, Reach, here, after, next_phase,
}
use cppsim.Server.Session.Events.{destroy}
use cppsim.Server.Session.Invariant.{IsConsistent, Released, RegistryOk}
use cppsim.Server.Session.Admission.{IsPlaying, on_read-IsPlaying}
use cppsim.Server.Session.Admission.Welcome.{CanAdmit}
use cppsim.Server.Session.Invariant.Steps.{new_world, session-IsConsistent, destroy-Released}
use cppsim.Server.Session.Authentication.{Greets}
use cppsim.Server.Session.Authentication.Histories.{Heard, session_authenticated}
use cppsim.Server.Session.Refusal.{Refused}
use cppsim.Server.Session.Requests.{IsOwnId, IsNext, Reloaded, on_action_lem, on_reload_lem}
use cppsim.Server.Session.Delivery.Strand.{silent, let_out}
use cppsim.Server.Session.Delivery.{Delivered, closing_with, finish_writes, finish_writes_lem}

-- A session that plays, with the last sequence number 3.
abbrev pub playing : World
playing = record {
  session = record (new_session 0) {
    state = authenticated;
    session_id = codes "sess_0000000100000007";
    last_sequence_number = pos 3;
  };
  manager = some table;
  self = 12;
  effects = [];
}

abbrev call_4 : ActionMessage
call_4 = record {
  session_id = codes "sess_0000000100000007";
  action_type = codes "CALL";
  amount = none;
  sequence_number = pos 4;
}

on_action_lem_example :
    ((IsOwnId call_4.session_id playing.session × IsNext default_limits (pos 3) (pos 4))
      × (on_action trees default_limits (some call_4) playing
          ≡ record playing { session = record (playing.session) { last_sequence_number = pos 4 } }))
    ⊎ ((¬ (IsOwnId call_4.session_id playing.session × IsNext default_limits (pos 3) (pos 4)))
        × Refused playing.session (on_action trees default_limits (some call_4) playing).session)
on_action_lem_example =
    on_action_lem trees default_limits call_4 playing (omega arith) (omega arith, omega arith)
      (omega arith, omega arith) (omega arith) (omega arith, omega arith)

abbrev top_up : ReloadRequestMessage
top_up = record { session_id = codes "sess_0000000100000007"; requested_amount = pos 500 }

on_reload_lem_example :
    (IsOwnId top_up.session_id playing.session
      × Reloaded trees (pos 500) playing (on_reload trees (some top_up) playing))
    ⊎ ((¬ IsOwnId top_up.session_id playing.session)
        × ((on_reload trees (some top_up) playing).1 ≡ returned)
        × Refused playing.session (on_reload trees (some top_up) playing).0.session)
on_reload_lem_example = on_reload_lem trees top_up playing

abbrev two_answers : List Text
two_answers = codes "first" ∷ codes "second" ∷ []

finish_writes_lem_example :
    Delivered two_answers playing (finish_writes (λ n. 7) 3 (closing_with two_answers playing))
unfolding new_session
finish_writes_lem_example = finish_writes_lem (λ n. 7) 3 two_answers playing refl refl (omega arith)

-- Two messages per second are let through; the fourth comes when the first is out of the window.
verdicts-reference_example :
    verdicts 2 second [] (5 ∷ 6 ∷ 7 ∷ 1000000006 ∷ [])
    ≡ reference 2 second [] (5 ∷ 6 ∷ 7 ∷ 1000000006 ∷ [])
verdicts-reference_example =
    verdicts-reference 2 second 0 (5 ∷ 6 ∷ 7 ∷ 1000000006 ∷ [])
      (omega arith, (omega arith, (omega arith, (omega arith, tt))))

windowed : verdicts 2 second [] (5 ∷ 6 ∷ 7 ∷ 1000000006 ∷ []) ≡ false ∷ false ∷ true ∷ false ∷ []
unfolding verdicts slide recent
windowed = refl

abbrev draws : ℕ → Option ℕ
draws n = some 9

abbrev opened : World
opened = on_accept false (new_world 0 13 table)

abbrev greeted_world : World
greeted_world = on_read trees default_limits 1 draws (received (codes "hello")) opened

abbrev start : Phase × World
start = (accepting, new_world 0 13 table)

opening : Reach trees default_limits start (reading, opened)
unfolding on_accept do_read new_session
opening = after here (accepted false (new_world 0 13 table))

greeting : Reach trees default_limits start (next_phase greeted_world, greeted_world)
greeting = after opening (read 1 draws (received (codes "hello")) opened)

session-IsConsistent_example : IsConsistent greeted_world
session-IsConsistent_example =
    session-IsConsistent trees default_limits 0 13 table table-Inv greeting

greeted-state : greeted_world.session.state ≡ authenticated
unfolding on_accept do_read new_session on_read on_message count_received check_rate_limit_or_close
    slide recent inspect check_suspicious_activity dispatch handle_handshake_message parse_handshake
    on_handshake admit welcome respond_handshake greeted finish_read read_on envelope_from_json
    handshake_from_json find_field text_eq register_session register_loop generate_session_id
    hex_digits hex_char mix emplace try_emplace find queue_message serialize_handshake_response
    serialize_message client_name_ok emit refuse
greeted-state = refl

session_authenticated_example :
    (x : Text) × Heard trees default_limits x start
      (next_phase greeted_world, greeted_world)
      greeting
    × Greets trees x
session_authenticated_example =
    session_authenticated trees default_limits 0 13 table greeting greeted-state

destroy-Released_example :
    Released greeted_world.session.session_id (destroy greeted_world).manager
    × RegistryOk (destroy greeted_world).manager
destroy-Released_example = destroy-Released trees default_limits 0 13 table table-Inv greeting

opened-CanAdmit : CanAdmit trees draws table (codes "hello") (codes "{}") opened
unfolding on_accept do_read new_session parse_handshake envelope_from_json handshake_from_json
    find_field text_eq register_session register_loop generate_session_id hex_digits hex_char mix
    emplace try_emplace find serialize_handshake_response serialize_message client_name_ok emit
opened-CanAdmit = record {
  state = refl;
  staying = refl;
  room = omega arith;
  message = record { protocol_version = codes "v1.0"; client_name = none };
  parsed = refl;
  version = refl;
  manager = refl;
  registered = refl;
  answered = refl;
}

opened_slow : (slide 10 second 1 opened.session.message_timestamps).1 ≡ false
unfolding on_accept do_read new_session slide recent emit
opened_slow = refl

opened_calm : (check_suspicious_activity 1 opened).1 ≡ false
unfolding on_accept do_read new_session check_suspicious_activity emit
opened_calm = refl

on_read-IsPlaying_example :
    let r = register_session draws (some opened.self) table in
    IsPlaying trees (pos 86400) opened.session.write_queue r.0 (codes "{}") r.1 greeted_world
    × (get_session alice r.1
        ≡ (if text_eq r.0 alice then some opened.self else get_session alice table))
on_read-IsPlaying_example =
    on_read-IsPlaying trees default_limits 1 draws table (codes "hello") (codes "{}") opened alice
      opened-CanAdmit opened_slow opened_calm

playing-IsConsistent : IsConsistent playing
unfolding new_session
playing-IsConsistent = record { sound = ground arith; registry = table-Inv; released = λ e. cc }

idle_error :
    serialize_error trees (
      error_for trees ErrorCodes.session_closed
        (timeout_text authenticated)
        playing.session.session_id)
    ≡ some (codes "{}")
unfolding serialize_error serialize_message error_for
idle_error = refl

expired_lem_example :
    Answered
      (codes "{}")
      playing
      (let_out (λ n. 7) 2 silent playing (on_deadline trees expired playing))
unfolding new_session
expired_lem_example =
    expired_lem trees (λ n. 7) 2 silent (codes "{}") playing playing-IsConsistent refl refl
      (omega arith) (omega arith) idle_error
