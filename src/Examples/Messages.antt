-- ===== src/Examples/Messages.antt =====
-- The protocol's theorems at concrete messages.
use cppsim.Prelude.{
  text_eq, refl, inl, [], ◌∷◌, ◌≡◌, ◌↔◌, arith, none, some, Text, codes, pos, true,
}
use cppsim.Examples.Library.{trees, string}
use cppsim.Protocol.SessionId.{validate_session_id_format}
use cppsim.Protocol.Messages.{
  HandshakeMessage, ActionMessage, ErrorMessage, ReloadRequestMessage, ReloadResponseMessage,
  DisconnectMessage, MessageEnvelope,
}
use cppsim.Protocol.Codec.{handshake_to_json, action_to_json, envelope_to_json}
use cppsim.Protocol.Parse.{validate_action}
use cppsim.Protocol.Parse.Accepts.{IsPlayable, validate_action_iff}
use cppsim.Protocol.Validation.{is_valid_protocol_version}
use cppsim.Examples.Texts.{texts, texts_laws, texts_plain, dump_tree}
use cppsim.Examples.Sessions.{playing}
use cppsim.Protocol.MessageTypes
use cppsim.Protocol.SessionId.{is_valid_session_id_char}
use cppsim.Protocol.Messages.{StateUpdateMessage}
use cppsim.Protocol.StateUpdate.{state_update_to_json, serialize_state_update}
use cppsim.Protocol.StateUpdate.RoundTrip.{Fits}
use cppsim.Protocol.Parse.{serialize_message, parse_handshake, client_name_ok, is_printable_ascii}
use cppsim.Protocol.Parse.Accepts.{with_amount}
use cppsim.Protocol.Parse.Answers.{updating, Reads, serialize_lem}
use cppsim.Protocol.Parse.Enveloped.{enveloped}
use cppsim.Server.RuntimeConfig.{default_limits}
use cppsim.Server.Session.Handlers.{handle_authenticated_message}
use cppsim.Server.Session.Arrival.{
  ClientMessage, deliver, handle_authenticated_message-write, parse_handshake-serialize_message,
}
use cppsim.Protocol.Validation.Version.{IsVersion, is_valid_protocol_version_iff}

abbrev player : Text
player = codes "sess_00000001a3c2f9e0"

abbrev greeting : HandshakeMessage
greeting = record { protocol_version = codes "v1.0"; client_name = some (codes "alice") }

abbrev bet : ActionMessage
bet = record {
  session_id = player;
  action_type = codes "RAISE";
  amount = some (pos 2500);
  sequence_number = pos 3;
}

abbrev failure : ErrorMessage
failure = record {
  error_code = codes "PROTOCOL_ERROR";
  message = codes "Session ID mismatch";
  session_id = some player;
}

abbrev top_up : ReloadRequestMessage
top_up = record { session_id = player; requested_amount = pos 5000 }

abbrev granted_stack : ReloadResponseMessage
granted_stack = record { granted = true; new_stack = pos 15000 }

abbrev farewell : DisconnectMessage
farewell = record { session_id = player; reason = some (codes "bye") }

abbrev wrapped : MessageEnvelope (trees.Json)
wrapped = record {
  message_type = codes "ACTION";
  protocol_version = codes "v1.0";
  payload = string (codes "payload");
}

abbrev bet_text : Text
bet_text =
    dump_tree
      (enveloped texts texts_laws texts_plain MessageTypes.action (action_to_json texts bet))

handle_authenticated_message-write_example :
    handle_authenticated_message texts default_limits bet_text playing
    ≡ deliver texts texts_laws texts_plain default_limits (ClientMessage.playing bet) playing
unfolding serialize_message envelope_to_json validate_session_id_format is_valid_session_id_char
    text_eq
handle_authenticated_message-write_example =
    handle_authenticated_message-write texts texts_laws texts_plain default_limits
      (ClientMessage.playing bet) bet_text playing
      (
        record {
          session = refl;
          sequence = omega arith;
          amounts = with_amount (pos 2500) (inl refl) (omega arith) (omega arith);
        },
        (omega arith, omega arith),
      )
      refl

abbrev greeting_text : Text
greeting_text = dump_tree (
    enveloped texts texts_laws texts_plain MessageTypes.handshake
      (handshake_to_json texts greeting))

parse_handshake-serialize_message_example : parse_handshake texts greeting_text ≡ some greeting
unfolding serialize_message client_name_ok is_printable_ascii
parse_handshake-serialize_message_example =
    parse_handshake-serialize_message texts texts_laws texts_plain greeting greeting_text refl refl
      refl

abbrev flop : StateUpdateMessage
flop = record {
  game_phase = codes "FLOP";
  pot_size = pos 300;
  current_bet = pos 100;
  player_stacks =
      record { seat = pos 1; stack = pos 900 } ∷ record { seat = pos 2; stack = pos 700 } ∷ [];
  community_cards = some (codes "Ah" ∷ codes "Kd" ∷ codes "2c" ∷ []);
  hole_cards = none;
  valid_actions = codes "FOLD" ∷ codes "CALL" ∷ [];
  acting_seat = some (pos 2);
}

flop-Fits : Fits flop
flop-Fits = record {
  pot = (omega arith, omega arith);
  bet = (omega arith, omega arith);
  stacks = (
    ((omega arith, omega arith), (omega arith, omega arith)),
    (((omega arith, omega arith), (omega arith, omega arith)), tt),
  );
  seat = (omega arith, omega arith);
}

abbrev flop_text : Text
flop_text = dump_tree (
    enveloped texts texts_laws texts_plain MessageTypes.state_update
      (state_update_to_json texts flop))

serialize_lem_example : Reads texts flop_text (updating flop)
unfolding serialize_state_update
serialize_lem_example =
    serialize_lem texts texts_laws texts_plain (updating flop) flop_text flop-Fits refl

validate_action_iff_example :
    (validate_action (some bet) ≡ some bet) ↔ ((bet ≡ bet) × IsPlayable bet)
validate_action_iff_example = validate_action_iff bet bet

is_valid_protocol_version_iff_example :
    (is_valid_protocol_version (codes "v12.3") ≡ true) ↔ IsVersion (codes "v12.3")
is_valid_protocol_version_iff_example = is_valid_protocol_version_iff (codes "v12.3")
