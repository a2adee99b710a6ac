-- ===== src/Protocol/StateUpdate.antt =====
-- src/common/protocol.hpp: to_json and from_json of state_update_message and player_stack, with the
-- vectors that nlohmann::json reads element by element. `none` is a thrown exception.
pub mod RoundTrip
use cppsim.Prelude.{
  List, [], ◌∷◌, ◌++◌, Option, none, some, Text, codes, ℤ, ◌>>=◌, map, if◌then◌else◌,
}
use cppsim.Json.{Floats, JsonLib}
use cppsim.Protocol.Messages.{PlayerStack, StateUpdateMessage}
use cppsim.Protocol.MessageTypes
use cppsim.Protocol.Codec.{text_at, int64_at, optional_at, optional_field}
use cppsim.Protocol.Parse.{serialize_message}

-- The elements of a vector, up to the first that throws.
unfoldable pub read_all {ℓ κ} :
    {A : Type ℓ} {B : Type κ} → (A → Option B) → List A → Option (List B)
read_all get [] = some []
read_all get (v ∷ vs) = let rest = read_all get vs in do b ← get v; bs ← rest; some (b ∷ bs)

module _ {F : Floats} (L : JsonLib F) where
  open L use {Json}

  -- get of a vector, from its element's.
  unfoldable pub get_vector : {A : Type 0} → (Json → Option A) → Json → Option (List A)
  unfolding read_all
  get_vector get v = do items ← L.get_items v; read_all get items

  unfoldable pub vector_at : {A : Type 0} → (Json → Option A) → Text → Json → Option (List A)
  unfolding get_vector
  vector_at get k j = do v ← L.find k j; get_vector get v

  unfoldable pub player_stack_to_json : PlayerStack → Json
  player_stack_to_json p =
      L.object ((codes "seat", L.integer p.seat) ∷ (codes "stack", L.integer p.stack) ∷ [])

  unfoldable pub player_stack_from_json : Json → Option PlayerStack
  unfolding int64_at
  player_stack_from_json j = do
    v ← L.find (codes "seat") j
    seat ← L.get_int v
    stack ← int64_at L (codes "stack") j
    some (record { seat = seat; stack = stack })

  unfoldable pub texts_to_json : List Text → Json
  texts_to_json ts = L.array (map L.string ts)

  unfoldable pub state_update_to_json : StateUpdateMessage → Json
  state_update_to_json m = L.object (
      (codes "game_phase", L.string m.game_phase)
      ∷ (codes "pot_size", L.integer m.pot_size)
      ∷ (codes "current_bet", L.integer m.current_bet)
      ∷ (codes "player_stacks", L.array (map player_stack_to_json m.player_stacks))
      ∷ (codes "valid_actions", texts_to_json m.valid_actions)
      ∷ (optional_field L texts_to_json (codes "community_cards") m.community_cards
          ++ (optional_field L texts_to_json (codes "hole_cards") m.hole_cards
              ++ optional_field L L.integer (codes "acting_seat") m.acting_seat)))

  unfoldable pub state_update_from_json : Json → Option StateUpdateMessage
  state_update_from_json j = do
    phase ← text_at L (codes "game_phase") j
    pot ← int64_at L (codes "pot_size") j
    bet ← int64_at L (codes "current_bet") j
    stacks ← vector_at player_stack_from_json (codes "player_stacks") j
    actions ← vector_at L.get_text (codes "valid_actions") j
    community ← optional_at L (get_vector L.get_text) (codes "community_cards") j
    hole ← optional_at L (get_vector L.get_text) (codes "hole_cards") j
    seat ← optional_at L L.get_int (codes "acting_seat") j
    some (record {
      game_phase = phase;
      pot_size = pot;
      current_bet = bet;
      player_stacks = stacks;
      community_cards = community;
      hole_cards = hole;
      valid_actions = actions;
      acting_seat = seat;
    })

  unfoldable pub serialize_state_update : StateUpdateMessage → Option Text
  unfolding serialize_message
  serialize_state_update = serialize_message L state_update_to_json MessageTypes.state_update
