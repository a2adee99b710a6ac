-- ===== src/Protocol/Parse/Answers.antt =====
-- What the server writes to its clients is read back by the parser of src/common/protocol.cpp.
use cppsim.Prelude.{
  ◌≡◌, refl, ◌∙◌, Option, none, some, Text, false, ltb, length, List, [], ◌∷◌, ◌++◌, All, map,
  codes, arith, ℤ, IsInt32, IsInt64, Option-cases, inl, inr,
}
use cppsim.Json.{Floats, JsonLib, JsonLaws, TextLaws}
use cppsim.Protocol.MessageTypes
use cppsim.Protocol.Messages.{
  HandshakeResponse, ErrorMessage, ReloadResponseMessage, StateUpdateMessage, PlayerStack,
}
use cppsim.Protocol.Codec.{
  optional_field, handshake_response_to_json, handshake_response_from_json, error_to_json,
  error_from_json, reload_response_to_json, reload_response_from_json,
}
use cppsim.Protocol.Codec.RoundTrip.{
  handshake_response_round_trip, error_round_trip, reload_response_round_trip,
}
use cppsim.Protocol.StateUpdate.{
  state_update_to_json, state_update_from_json, serialize_state_update, player_stack_to_json,
  texts_to_json,
}
use cppsim.Protocol.StateUpdate.RoundTrip.{Fits, FitsStack, FitsSeat, state_update_round_trip}
use cppsim.Protocol.Parse.{
  max_message_type_length, parse_message, extract_message_type, serialize_message, serialize_error,
  serialize_handshake_response, serialize_reload_response,
}
use cppsim.Protocol.Parse.Enveloped.{
  header_of, parse_from_envelope-enveloped, extract_message_type_and_json-enveloped,
}

-- The messages of the server.
pub data ServerMessage : Type 0 where
  welcoming : HandshakeResponse → ServerMessage
  failing : ErrorMessage → ServerMessage
  topping_up : ReloadResponseMessage → ServerMessage
  updating : StateUpdateMessage → ServerMessage

-- Their numbers fit their C++ types.
abbrev pub IsFitting : ServerMessage → Type 0
IsFitting (welcoming m) = IsInt32 m.seat_number × IsInt64 m.starting_stack
IsFitting (failing m) = Unit {0}
IsFitting (topping_up m) = IsInt64 m.new_stack
IsFitting (updating m) = Fits m

module _ {F : Floats} (L : JsonLib F) where
  abbrev pub serialize : ServerMessage → Option Text
  serialize (welcoming m) = serialize_handshake_response L m
  serialize (failing m) = serialize_error L m
  serialize (topping_up m) = serialize_reload_response L m
  serialize (updating m) = serialize_state_update L m

  -- The text is of the message's type, and its parser gives the message.
  abbrev pub Reads : Text → ServerMessage → Type 0
  Reads t (welcoming m) =
      (extract_message_type L t ≡ some MessageTypes.handshake_response)
      × (parse_message L (handshake_response_from_json L) MessageTypes.handshake_response t
          ≡ some m)
  Reads t (failing m) =
      (extract_message_type L t ≡ some MessageTypes.error)
      × (parse_message L (error_from_json L) MessageTypes.error t ≡ some m)
  Reads t (topping_up m) =
      (extract_message_type L t ≡ some MessageTypes.reload_response)
      × (parse_message L (reload_response_from_json L) MessageTypes.reload_response t ≡ some m)
  Reads t (updating m) =
      (extract_message_type L t ≡ some MessageTypes.state_update)
      × (parse_message L (state_update_from_json L) MessageTypes.state_update t ≡ some m)

All-append {ℓ κ} :
    {A : Type ℓ} (P : A → Type κ) (xs ys : List A) → All P xs → All P ys → All P (xs ++ ys)
All-append P [] ys h k = k
All-append P (x ∷ xs) ys h k = (h.0, All-append P xs ys h.1 k)

All-map {ℓ κ μ ν} :
    {A : Type ℓ} {B : Type κ} (P : A → Type μ) (Q : B → Type ν) (f : A → B)
    → ((a : A) → P a → Q (f a))
    → (xs : List A) → All P xs
    → All Q (map f xs)
All-map P Q f h [] k = tt
All-map P Q f h (x ∷ xs) k = (h x k.0, All-map P Q f h xs k.1)

module _ {F : Floats} (L : JsonLib F) (laws : JsonLaws L) (texts : TextLaws L) where
  parse_message-serialize_message :
      {T : Type 0} (to_json : T → L.Json) (from_json : L.Json → Option T) (type : Text) (m : T)
      (t : Text)
      → ltb max_message_type_length (length type) ≡ false
      → from_json (to_json m) ≡ some m
      → texts.Plain (to_json m)
      → serialize_message L to_json type m ≡ some t
      → (extract_message_type L t ≡ some type) × (parse_message L from_json type t ≡ some m)
  unfolding parse_message serialize_message extract_message_type
  parse_message-serialize_message to_json from_json type m t short e plain h = (
    rw (extract_message_type_and_json-enveloped L laws texts type (to_json m) t short plain h) refl,
    rw (header_of L laws texts type (to_json m) t plain h)
        (parse_from_envelope-enveloped L laws texts from_json type (to_json m) ∙ e),
  )

  welcoming_Plain :
      (m : HandshakeResponse)
      → IsInt32 m.seat_number
      → IsInt64 m.starting_stack
      → texts.Plain (handshake_response_to_json L m)
  unfolding handshake_response_to_json
  welcoming_Plain m h k =
      let seat : IsInt64 m.seat_number = ground arith in
      texts.Plain-object _ (
        texts.Plain-string m.session_id,
        (texts.Plain-integer m.seat_number seat, (texts.Plain-integer m.starting_stack k, tt)),
      )

  failing_Plain : (m : ErrorMessage) → texts.Plain (error_to_json L m)
  unfolding error_to_json
  failing_Plain m = elim (Option-cases m.session_id) [
    | inl e ↦
        rw e (
          texts.Plain-object _
            (texts.Plain-string m.error_code, (texts.Plain-string m.message, tt)))
    | inr (t, e) ↦ rw e (
        texts.Plain-object _ (
          texts.Plain-string m.error_code,
          (texts.Plain-string m.message, (texts.Plain-string t, tt)),
        ))
  ]

  topping_up_Plain :
      (m : ReloadResponseMessage) → IsInt64 m.new_stack → texts.Plain (reload_response_to_json L m)
  unfolding reload_response_to_json
  topping_up_Plain m h =
      texts.Plain-object _ (texts.Plain-boolean m.granted, (texts.Plain-integer m.new_stack h, tt))

  abbrev PlainMember : Text × L.Json → Type 0
  PlainMember f = texts.Plain f.1

  texts_Plain : (ts : List Text) → texts.Plain (texts_to_json L ts)
  unfolding texts_to_json
  texts_Plain ts =
      texts.Plain-array _
        (All-map (λ _. Unit {0}) texts.Plain L.string (λ t _. texts.Plain-string t) ts (units ts))
    where
      units : (us : List Text) → All (λ _. Unit {0}) us
      units [] = tt
      units (u ∷ us) = (tt, units us)

  player_stack_Plain : (p : PlayerStack) → FitsStack p → texts.Plain (player_stack_to_json L p)
  unfolding player_stack_to_json
  player_stack_Plain p h =
      let seat : IsInt64 p.seat = ground arith in
      texts.Plain-object _ (texts.Plain-integer p.seat seat, (texts.Plain-integer p.stack h.1, tt))

  optional_texts_Plain :
      (k : Text) (o : Option (List Text)) → All PlainMember (optional_field L (texts_to_json L) k o)
  unfolding optional_field
  optional_texts_Plain k none = tt
  optional_texts_Plain k (some ts) = (texts_Plain ts, tt)

  optional_seat_Plain :
      (k : Text) (o : Option ℤ) → FitsSeat o → All PlainMember (optional_field L L.integer k o)
  unfolding optional_field
  optional_seat_Plain k none h = tt
  optional_seat_Plain k (some n) h = (texts.Plain-integer n (ground arith), tt)

  updating_Plain : (m : StateUpdateMessage) → Fits m → texts.Plain (state_update_to_json L m)
  unfolding state_update_to_json
  updating_Plain m f = texts.Plain-object _ (
    texts.Plain-string m.game_phase,
    (
      texts.Plain-integer m.pot_size f.pot,
      (
        texts.Plain-integer m.current_bet f.bet,
        (
          texts.Plain-array _ (
              All-map FitsStack texts.Plain (player_stack_to_json L) player_stack_Plain
                m.player_stacks f.stacks),
          (
            texts_Plain m.valid_actions,
            All-append PlainMember _ _
                (optional_texts_Plain (codes "community_cards") m.community_cards)
                (All-append PlainMember _ _ (optional_texts_Plain (codes "hole_cards") m.hole_cards)
                  (optional_seat_Plain (codes "acting_seat") m.acting_seat f.seat)),
          ),
        ),
      ),
    ),
  )

  -- With a library that keeps its documentation: the text that the server writes of a handshake
  -- response, an error, a reload response or a state update, whose numbers fit their C++ types, has
  -- the message's type, and parse_message with the message's from_json gives the very same message.
  pub serialize_lem :
      (m : ServerMessage) (t : Text) → IsFitting m → serialize L m ≡ some t → Reads L t m
  unfolding serialize_handshake_response serialize_error serialize_reload_response
      serialize_state_update
  serialize_lem (welcoming m) t f h =
      parse_message-serialize_message (handshake_response_to_json L)
        (handshake_response_from_json L) MessageTypes.handshake_response m t refl
        (handshake_response_round_trip L laws m f.0 f.1) (welcoming_Plain m f.0 f.1) h
  serialize_lem (failing m) t f h =
      parse_message-serialize_message (error_to_json L) (error_from_json L) MessageTypes.error m t
        refl (error_round_trip L laws m) (failing_Plain m) h
  serialize_lem (topping_up m) t f h =
      parse_message-serialize_message (reload_response_to_json L) (reload_response_from_json L)
        MessageTypes.reload_response m t refl (reload_response_round_trip L laws m f)
        (topping_up_Plain m f) h
  serialize_lem (updating m) t f h =
      parse_message-serialize_message (state_update_to_json L) (state_update_from_json L)
        MessageTypes.state_update m t refl (state_update_round_trip L laws m f) (updating_Plain m f)
        h
