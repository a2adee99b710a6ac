-- ===== src/Server/Session/Handlers.antt =====
-- What a session does with a message, by its state.
use cppsim.Prelude.{
  ℕ, Bool, true, false, not, ◌++◌, Option, none, some, Text, codes, ℤ, leb_ℤ, ltb, leb, to_u64,
  sub_u64, min_ℤ, ◌+ℤ◌, is_empty, length, take, text_eq, if◌then◌else◌,
}
use cppsim.Json.{Floats, JsonLib}
use cppsim.Protocol.ErrorCodes
use cppsim.Protocol.MessageTypes
use cppsim.Protocol.SessionId.{max_session_id_length}
use cppsim.Protocol.Messages.{
  protocol_version_text, max_amount, HandshakeMessage, ActionMessage, ReloadRequestMessage,
  DisconnectMessage, ParsedMessageHeader,
}
use cppsim.Protocol.Parse.{
  parse_handshake, extract_message_type_and_json, parse_action_from_envelope,
  parse_reload_from_envelope, parse_disconnect_from_envelope, serialize_handshake_response,
  serialize_reload_response,
}
use cppsim.Server.Config.{placeholder_seat, placeholder_stack}
use cppsim.Server.Manager.{Manager, register_session}
use cppsim.Server.RuntimeConfig.{Limits}
use cppsim.Server.Session.State.{World, authenticated}
use cppsim.Server.Session.Output.{queue_message, close, refuse}

-- src/common/string_utils.hpp
unfoldable pub trunc_field : Text → ℕ → Text
trunc_field s max_len = if leb (length s) max_len then s else take max_len s ++ codes "..."

-- How a handler ends: it returns, or an exception leaves it.
pub data Exit : Type 0 where
  returned threw : Exit

module _ {F : Floats} (L : JsonLib F) where
  -- A queued response authenticates the session; one that is not closes it.
  unfoldable pub greeted : World × Bool → World × Exit
  greeted (w, true) =
      (record w { session = record (w.session) { state = authenticated } }, returned)
  greeted (w, false) = (close w, returned)

  unfoldable pub respond_handshake : Option Text → World → World × Exit
  unfolding greeted
  respond_handshake none w = (w, threw)
  respond_handshake (some t) w = greeted (queue_message t w)

  -- After register_session: the empty id is its failure.
  unfoldable pub welcome : Text × Manager ℕ → World → World × Exit
  unfolding respond_handshake
  welcome (id, m) w =
      let w' = record w { manager = some m } in
      if is_empty id
      then (
        refuse L ErrorCodes.protocol_error (codes "Failed to generate unique session ID") w',
        returned,
      )
      else respond_handshake
          (serialize_handshake_response L (record {
            session_id = id;
            seat_number = placeholder_seat;
            starting_stack = placeholder_stack;
          }))
          (record w' { session = record (w.session) { session_id = id } })

  unfoldable pub admit : (ℕ → Option ℕ) → Option (Manager ℕ) → World → World × Exit
  admit draw none w =
      (refuse L ErrorCodes.protocol_error (codes "Connection manager not available") w, returned)
  admit draw (some m) w = welcome (register_session draw (some w.self) m) w

  unfoldable pub on_handshake : (ℕ → Option ℕ) → Option HandshakeMessage → World → World × Exit
  on_handshake draw none w =
      (refuse L ErrorCodes.malformed_handshake (codes "Expected HANDSHAKE message") w, returned)
  on_handshake draw (some m) w =
      if text_eq m.protocol_version protocol_version_text then admit draw w.manager w else (
        refuse L ErrorCodes.incompatible_version (codes "Expected " ++ protocol_version_text) w,
        returned,
      )

  unfoldable pub handle_handshake_message : (ℕ → Option ℕ) → Text → World → World × Exit
  handle_handshake_message draw message w = on_handshake draw (parse_handshake L message) w

  unfoldable pub validate_session_id : Text → World → World × Bool
  validate_session_id provided w =
      if is_empty provided
      then (refuse L ErrorCodes.protocol_error (codes "Session ID is required") w, false)
      else if ltb max_session_id_length (length provided)
      then (refuse L ErrorCodes.protocol_error (codes "Session ID exceeds maximum length") w, false)
      else if not (text_eq provided w.session.session_id)
      then (refuse L ErrorCodes.protocol_error (codes "Session ID mismatch") w, false)
      else (w, true)

  -- The checks of the sequence number, and its store.
  unfoldable pub sequence : Limits → ℤ → World → World
  sequence c seq w =
      let last = w.session.last_sequence_number in
      if leb_ℤ seq last
      then refuse L ErrorCodes.protocol_error
          (codes "Invalid sequence number - possible replay attack") w
      else if ltb (to_u64 c.max_sequence_gap) (sub_u64 (to_u64 seq) (to_u64 last))
      then refuse L ErrorCodes.protocol_error (codes "Sequence number gap too large") w
      else record w { session = record (w.session) { last_sequence_number = seq } }

  unfoldable pub on_action : Limits → Option ActionMessage → World → World
  on_action c none w =
      refuse L ErrorCodes.malformed_message (codes "Invalid ACTION message format") w
  on_action c (some m) w =
      let checked = validate_session_id m.session_id w in
      if checked.1 then sequence c m.sequence_number checked.0 else checked.0

  -- The stack is committed only once the response is queued.
  unfoldable pub commit_stack : ℤ → World × Bool → World × Exit
  commit_stack new_stack (w, true) =
      (record w { session = record (w.session) { current_stack = new_stack } }, returned)
  commit_stack new_stack (w, false) = (close w, returned)

  unfoldable pub respond_reload : ℤ → Option Text → World → World × Exit
  unfolding commit_stack
  respond_reload new_stack none w = (w, threw)
  respond_reload new_stack (some t) w = commit_stack new_stack (queue_message t w)

  -- The addition on int64_t does not overflow, by the invariant and the check of the amount.
  unfoldable pub reload : ℤ → World → World × Exit
  unfolding respond_reload
  reload amount w =
      let new_stack = min_ℤ (w.session.current_stack +ℤ amount) max_amount in
      respond_reload new_stack
        (serialize_reload_response L (record { granted = true; new_stack = new_stack })) w

  unfoldable pub on_reload : Option ReloadRequestMessage → World → World × Exit
  on_reload none w =
      (refuse L ErrorCodes.malformed_message (codes "Invalid RELOAD_REQUEST format") w, returned)
  on_reload (some m) w =
      let checked = validate_session_id m.session_id w in
      if checked.1 then reload m.requested_amount checked.0 else (checked.0, returned)

  unfoldable pub on_disconnect : Option DisconnectMessage → World → World
  on_disconnect none w = refuse L ErrorCodes.malformed_message (codes "Invalid DISCONNECT format") w
  on_disconnect (some m) w =
      let checked = validate_session_id m.session_id w in
      if checked.1 then close checked.0 else checked.0

  unfoldable pub on_header : Limits → Option (ParsedMessageHeader (L.Json)) → World → World × Exit
  on_header c none w = (
    refuse L ErrorCodes.malformed_message (codes "Missing or invalid message_type field") w,
    returned,
  )
  on_header c (some h) w =
      if text_eq h.message_type MessageTypes.action
      then (on_action c (parse_action_from_envelope L h.envelope_json) w, returned)
      else if text_eq h.message_type MessageTypes.reload_request
      then on_reload (parse_reload_from_envelope L h.envelope_json) w
      else if text_eq h.message_type MessageTypes.disconnect
      then (on_disconnect (parse_disconnect_from_envelope L h.envelope_json) w, returned)
      else (
        refuse L ErrorCodes.protocol_error
            (codes "Unknown message type: " ++ trunc_field h.message_type 64) w,
        returned,
      )

  unfoldable pub handle_authenticated_message : Limits → Text → World → World × Exit
  handle_authenticated_message c message w = on_header c (extract_message_type_and_json L message) w
