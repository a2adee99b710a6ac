-- ===== src/Server/Session/Arrival.antt =====
-- A message that a client writes reaches its handler as it was: the client's to_json and dump, and
-- then extract_message_type_and_json, the dispatch on the type and the parsers of the server.
use cppsim.Prelude.{
  ◌≡◌, refl, Option, none, some, Text, arith, ℤ, pos, IsInt64, ◌≤ℤ◌, ◌<ℤ◌, true, false, text_eq,
  text_eq_refl, is_empty,
}
use cppsim.Json.{Floats, JsonLib, JsonLaws, TextLaws}
use cppsim.Protocol.MessageTypes
use cppsim.Protocol.SessionId.{validate_session_id_format}
use cppsim.Protocol.Messages.{
  protocol_version_text, max_amount, HandshakeMessage, ActionMessage, ReloadRequestMessage,
  DisconnectMessage,
}
use cppsim.Protocol.Codec.{
  handshake_to_json, action_from_json, reload_request_from_json, disconnect_from_json,
  action_to_json, reload_request_to_json, disconnect_to_json,
}
use cppsim.Protocol.Codec.RoundTrip.{
  handshake_round_trip, OptionalInt64, action_round_trip, reload_request_round_trip,
  disconnect_round_trip, envelope_round_trip,
}
use cppsim.Protocol.Parse.{
  parse_action_from_envelope, parse_reload_from_envelope, parse_disconnect_from_envelope,
  serialize_message, parse_handshake, client_name_ok,
}
use cppsim.Protocol.Parse.Accepts.{
  AmountRule, without_amount, with_amount, IsPlayable, IsReason, validate_action_iff,
  validate_reload_iff, validate_disconnect_iff,
}
use cppsim.Protocol.Parse.Enveloped.{
  header_of, extract_message_type_and_json-enveloped, parse_from_envelope-enveloped, action_Plain,
  reload_request_Plain, disconnect_Plain, handshake_Plain,
}
use cppsim.Server.RuntimeConfig.{Limits}
use cppsim.Server.Session.State.{World}
use cppsim.Server.Session.Handlers.{
  Exit, returned, on_action, on_reload, on_disconnect, on_header, handle_authenticated_message,
}

AmountRule-OptionalInt64 : (t : Text) (a : Option ℤ) → AmountRule t a → OptionalInt64 a
AmountRule-OptionalInt64 t none (without_amount w) = tt
AmountRule-OptionalInt64 t (some a) (with_amount _ w lo hi) = ground arith

-- The messages that an authenticated client sends.
pub data ClientMessage : Type 0 where
  playing : ActionMessage → ClientMessage
  topping_up : ReloadRequestMessage → ClientMessage
  leaving : DisconnectMessage → ClientMessage

-- What the protocol says of them.
abbrev pub IsAllowed : ClientMessage → Type 0
IsAllowed (playing m) = IsPlayable m × IsInt64 m.sequence_number
IsAllowed (topping_up m) =
    (validate_session_id_format m.session_id ≡ true)
    × (pos 0 <ℤ m.requested_amount)
    × (m.requested_amount ≤ℤ max_amount)
IsAllowed (leaving m) = (validate_session_id_format m.session_id ≡ true) × IsReason m.reason

module _ {F : Floats} (L : JsonLib F) (laws : JsonLaws L) (texts : TextLaws L) where
  action_arrives :
      (c : Limits) (m : ActionMessage) (t : Text) (w : World)
      → IsPlayable m
      → IsInt64 m.sequence_number
      → serialize_message L (action_to_json L) MessageTypes.action m ≡ some t
      → handle_authenticated_message L c t w ≡ (on_action L c (some m) w, returned)
  unfolding handle_authenticated_message on_header parse_action_from_envelope serialize_message
      text_eq
  action_arrives c m t w p hs h =
      let payload = action_to_json L m in
      let ha = AmountRule-OptionalInt64 m.action_type m.amount p.amounts in
      let header =
        extract_message_type_and_json-enveloped L laws texts MessageTypes.action payload t refl
          (action_Plain L laws texts m hs ha) h in
      rw header (
        rw
          (
            parse_from_envelope-enveloped L laws texts (action_from_json L) MessageTypes.action
                payload,
            action_round_trip L laws m hs ha,
            (validate_action_iff m m).1 (refl, p),
          )
          refl)

  reload_arrives :
      (c : Limits) (m : ReloadRequestMessage) (t : Text) (w : World)
      → validate_session_id_format m.session_id ≡ true
      → pos 0 <ℤ m.requested_amount
      → m.requested_amount ≤ℤ max_amount
      → serialize_message L (reload_request_to_json L) MessageTypes.reload_request m ≡ some t
      → handle_authenticated_message L c t w ≡ on_reload L (some m) w
  unfolding handle_authenticated_message on_header parse_reload_from_envelope serialize_message
      text_eq
  reload_arrives c m t w v low high h =
      let payload = reload_request_to_json L m in
      let fits : IsInt64 m.requested_amount = ground arith in
      let header =
        extract_message_type_and_json-enveloped L laws texts MessageTypes.reload_request payload t
          refl (reload_request_Plain L laws texts m fits) h in
      rw header (
        rw
          (
            parse_from_envelope-enveloped L laws texts (reload_request_from_json L)
                MessageTypes.reload_request payload,
            reload_request_round_trip L laws m fits,
            (validate_reload_iff m m).1 (refl, v, low, high),
          )
          refl)

  disconnect_arrives :
      (c : Limits) (m : DisconnectMessage) (t : Text) (w : World)
      → validate_session_id_format m.session_id ≡ true
      → IsReason m.reason
      → serialize_message L (disconnect_to_json L) MessageTypes.disconnect m ≡ some t
      → handle_authenticated_message L c t w ≡ (on_disconnect L (some m) w, returned)
  unfolding handle_authenticated_message on_header parse_disconnect_from_envelope serialize_message
      text_eq
  disconnect_arrives c m t w v r h =
      let payload = disconnect_to_json L m in
      let header =
        extract_message_type_and_json-enveloped L laws texts MessageTypes.disconnect payload t refl
          (disconnect_Plain L laws texts m) h in
      rw header (
        rw
          (
            parse_from_envelope-enveloped L laws texts (disconnect_from_json L)
                MessageTypes.disconnect payload,
            disconnect_round_trip L laws m,
            (validate_disconnect_iff m m).1 (refl, v, r),
          )
          refl)

  -- What the client writes, by to_json and dump.
  abbrev pub write : ClientMessage → Option Text
  write (playing m) = serialize_message L (action_to_json L) MessageTypes.action m
  write (topping_up m) =
      serialize_message L (reload_request_to_json L) MessageTypes.reload_request m
  write (leaving m) = serialize_message L (disconnect_to_json L) MessageTypes.disconnect m

  -- The handler of a message.
  abbrev pub deliver : Limits → ClientMessage → World → World × Exit
  deliver c (playing m) w = (on_action L c (some m) w, returned)
  deliver c (topping_up m) w = on_reload L (some m) w
  deliver c (leaving m) w = (on_disconnect L (some m) w, returned)

  -- With a library that keeps its documentation: of the text that a client writes of an action that
  -- the protocol allows and whose sequence number fits int64_t, of a reload request from 1 to the
  -- maximum, or of a disconnect with a printable reason of at most 256 bytes or none, each with an
  -- id in the protocol's format, the server's handler receives the very same message.
  pub handle_authenticated_message-write :
      (c : Limits) (m : ClientMessage) (t : Text) (w : World)
      → IsAllowed m
      → write m ≡ some t
      → handle_authenticated_message L c t w ≡ deliver c m w
  handle_authenticated_message-write c (playing m) t w a h = action_arrives c m t w a.0 a.1 h
  handle_authenticated_message-write c (topping_up m) t w a h = reload_arrives c m t w a.0 a.1 a.2 h
  handle_authenticated_message-write c (leaving m) t w a h = disconnect_arrives c m t w a.0 a.1 h

  -- With such a library: the text that a client of this server's version writes of a handshake,
  -- without a name or with a printable one of at most 128 bytes that is not blank, is parsed to the
  -- very same handshake.
  pub parse_handshake-serialize_message :
      (m : HandshakeMessage) (t : Text)
      → m.protocol_version ≡ protocol_version_text
      → client_name_ok m.client_name ≡ true
      → serialize_message L (handshake_to_json L) MessageTypes.handshake m ≡ some t
      → parse_handshake L t ≡ some m
  unfolding parse_handshake serialize_message text_eq
  parse_handshake-serialize_message m t v ok h =
      let payload = handshake_to_json L m in
      let nonempty : is_empty m.protocol_version ≡ false = rw v refl in
      let same : text_eq m.protocol_version protocol_version_text ≡ true =
        rw v (text_eq_refl protocol_version_text) in
      rw
        (header_of L laws texts MessageTypes.handshake payload t (handshake_Plain L laws texts m) h)
        (rw
          (
            envelope_round_trip L laws (record {
              message_type = MessageTypes.handshake;
              protocol_version = protocol_version_text;
              payload = payload;
            }),
            handshake_round_trip L laws m,
            ok,
          )
          (rw (nonempty, same) refl))
