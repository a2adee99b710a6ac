-- ===== src/Protocol/Parse.antt =====
-- src/common/protocol.cpp: parsing and checking of the client's messages. `none` is std::nullopt;
-- an exception inside is caught and gives it too. The error log is left out.
pub mod Accepts
pub mod Enveloped
pub mod Answers
use cppsim.Prelude.{
  ℕ, Bool, true, false, ◌&&◌, ◌||◌, List, [], ◌∷◌, Option, none, some, Text, codes, ℤ, pos, ltb,
  leb, ◌==◌, leb_ℤ, ltb_ℤ, ◌>>=◌, ◌>>◌, require, if◌then◌else◌, not, is_some, text_eq, mem_text,
  all, is_empty, length,
}
use cppsim.Json.{Floats, JsonLib}
use cppsim.Protocol.SessionId.{validate_session_id_format}
use cppsim.Protocol.MessageTypes
use cppsim.Protocol.ActionTypes.{valid_action_types, amount_required_types, amount_forbidden_types}
use cppsim.Protocol.Messages.{
  protocol_version_text, max_amount, HandshakeMessage, HandshakeResponse, ActionMessage,
  ErrorMessage, ReloadRequestMessage, ReloadResponseMessage, DisconnectMessage, MessageEnvelope,
  ParsedMessageHeader,
}
use cppsim.Protocol.Codec.{
  handshake_from_json, action_from_json, reload_request_from_json, disconnect_from_json,
  handshake_response_to_json, error_to_json, reload_response_to_json, envelope_to_json,
  envelope_from_json,
}

abbrev pub max_message_type_length : ℕ
max_message_type_length = 32

abbrev pub max_client_name_length : ℕ
max_client_name_length = 128

abbrev pub max_disconnect_reason_length : ℕ
max_disconnect_reason_length = 256

unfoldable pub is_printable_ascii : ℕ → Bool
is_printable_ascii c = leb 0x20 c && ltb c 0x7f

unfoldable pub validate_session_id_field : Text → Bool
validate_session_id_field sid =
    if is_empty sid || not (validate_session_id_format sid) then false else true

-- The amount is absent or in 1 .. max_amount.
unfoldable pub amount_in_bounds : Option ℤ → Bool
amount_in_bounds none = true
amount_in_bounds (some a) = not (leb_ℤ a (pos 0) || ltb_ℤ max_amount a)

unfoldable pub validate_action : Option ActionMessage → Option ActionMessage
validate_action none = none
validate_action (some m) = do
  require (validate_session_id_field m.session_id)
  require (not (ltb_ℤ m.sequence_number (pos 0)))
  require (not (is_empty m.action_type))
  require (mem_text m.action_type valid_action_types)
  require (amount_in_bounds m.amount)
  require (not (mem_text m.action_type amount_required_types && not (is_some m.amount)))
  require (not (mem_text m.action_type amount_forbidden_types && is_some m.amount))
  some m

unfoldable pub validate_reload : Option ReloadRequestMessage → Option ReloadRequestMessage
validate_reload none = none
validate_reload (some m) = do
  require (validate_session_id_field m.session_id)
  require (not (leb_ℤ m.requested_amount (pos 0) || ltb_ℤ max_amount m.requested_amount))
  some m

unfoldable pub reason_ok : Option Text → Bool
unfolding is_printable_ascii
reason_ok none = true
reason_ok (some r) =
    if ltb max_disconnect_reason_length (length r) then false else all is_printable_ascii r

unfoldable pub validate_disconnect : Option DisconnectMessage → Option DisconnectMessage
validate_disconnect none = none
validate_disconnect (some m) = do
  require (validate_session_id_field m.session_id)
  require (reason_ok m.reason)
  some m

-- A name is short, printable, and not blank.
unfoldable pub client_name_ok : Option Text → Bool
client_name_ok none = true
client_name_ok (some n) =
    if ltb max_client_name_length (length n)
    then false
    else all is_printable_ascii n && not (all (λ c. c == b' ') n)

module _ {F : Floats} (L : JsonLib F) where
  open L use {Json}

  unfoldable pub extract_message_type_and_json : Text → Option (ParsedMessageHeader Json)
  extract_message_type_and_json s = do
    j ← L.parse s
    v ← L.find (codes "message_type") j
    require (L.is_string v)
    type ← L.get_text v
    require (not (ltb max_message_type_length (length type)))
    some (record { message_type = type; envelope_json = j })

  unfoldable pub extract_message_type : Text → Option Text
  extract_message_type s = do header ← extract_message_type_and_json s; some header.message_type

  unfoldable pub parse_from_envelope : {T : Type 0} → (Json → Option T) → Text → Json → Option T
  parse_from_envelope from_json expected_type j = do
    envelope ← envelope_from_json L j
    require (text_eq envelope.message_type expected_type)
    require (text_eq envelope.protocol_version protocol_version_text)
    from_json envelope.payload

  unfoldable pub parse_message : {T : Type 0} → (Json → Option T) → Text → Text → Option T
  parse_message from_json expected_type s = do
    j ← L.parse s
    parse_from_envelope from_json expected_type j

  -- The envelope's version need only agree with the payload's.
  check_handshake : MessageEnvelope Json → Option HandshakeMessage
  check_handshake envelope = do
    require (text_eq envelope.message_type MessageTypes.handshake)
    m ← handshake_from_json L envelope.payload
    require (not (is_empty m.protocol_version))
    require (client_name_ok m.client_name)
    require (text_eq m.protocol_version envelope.protocol_version)
    some m

  unfoldable pub parse_handshake : Text → Option HandshakeMessage
  unfolding check_handshake
  parse_handshake s = do j ← L.parse s; envelope ← envelope_from_json L j; check_handshake envelope

  unfoldable pub parse_action : Text → Option ActionMessage
  parse_action s = validate_action (parse_message (action_from_json L) MessageTypes.action s)

  unfoldable pub parse_action_from_envelope : Json → Option ActionMessage
  parse_action_from_envelope j =
      validate_action (parse_from_envelope (action_from_json L) MessageTypes.action j)

  unfoldable pub parse_reload_request : Text → Option ReloadRequestMessage
  parse_reload_request s =
      validate_reload (parse_message (reload_request_from_json L) MessageTypes.reload_request s)

  unfoldable pub parse_reload_from_envelope : Json → Option ReloadRequestMessage
  parse_reload_from_envelope j =
      validate_reload
        (parse_from_envelope (reload_request_from_json L) MessageTypes.reload_request j)

  unfoldable pub parse_disconnect : Text → Option DisconnectMessage
  parse_disconnect s =
      validate_disconnect (parse_message (disconnect_from_json L) MessageTypes.disconnect s)

  unfoldable pub parse_disconnect_from_envelope : Json → Option DisconnectMessage
  parse_disconnect_from_envelope j =
      validate_disconnect (parse_from_envelope (disconnect_from_json L) MessageTypes.disconnect j)

  -- The message of a type in its envelope; writing it out throws on text that is not UTF-8.
  unfoldable pub serialize_message : {T : Type 0} → (T → Json) → Text → T → Option Text
  serialize_message to_json message_type m = L.dump (
      envelope_to_json L (record {
        message_type = message_type;
        protocol_version = protocol_version_text;
        payload = to_json m;
      }))

  unfoldable pub serialize_error : ErrorMessage → Option Text
  serialize_error = serialize_message (error_to_json L) MessageTypes.error

  unfoldable pub serialize_handshake_response : HandshakeResponse → Option Text
  serialize_handshake_response =
      serialize_message (handshake_response_to_json L) MessageTypes.handshake_response

  unfoldable pub serialize_reload_response : ReloadResponseMessage → Option Text
  serialize_reload_response =
      serialize_message (reload_response_to_json L) MessageTypes.reload_response
