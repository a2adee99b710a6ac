-- ===== src/Protocol/Validation.antt =====
-- src/common/protocol_validation.cpp: the public validators.
pub mod Version
pub mod Agreement
use cppsim.Prelude.{
  ℕ, zero, suc, ◌+◌, ◌-◌, ◌≡◌, refl, Bool, true, false, ◌&&◌, ◌||◌, List, [], ◌∷◌, Option, none,
  some, Text, codes, ℤ, pos, ltb, leb, ◌==◌, leb_ℤ, ltb_ℤ, if◌then◌else◌, not, mem_text, all,
  is_empty, length, take, drop,
}
use cppsim.Protocol.SessionId.{validate_session_id_format}
use cppsim.Protocol.Messages.{max_amount}

unfoldable pub is_digit : ℕ → Bool
is_digit c = leb b'0' c && leb c b'9'

-- isalnum in the C locale.
is_alnum : ℕ → Bool
unfolding is_digit
is_alnum c = is_digit c || (leb b'A' c && leb c b'Z') || (leb b'a' c && leb c b'z')

unfoldable pub is_valid_message_type : Text → List Text → Bool
unfolding is_alnum
is_valid_message_type t allowed =
    if is_empty t
    then false
    else if not (all (λ c. is_alnum c || c == b'_') t)
    then false
    else mem_text t allowed

-- std::string::find of a character.
unfoldable pub find_char : ℕ → Text → Option ℕ
find_char c [] = none
find_char c (x ∷ xs) =
    if x == c then some 0 else elim (find_char c xs) [ none ↦ none | some i ↦ some (suc i) ]

abbrev starts_with_char : ℕ → Text → Bool
starts_with_char c [] = false
starts_with_char c (x ∷ xs) = x == c

-- The bytes before and after the dot.
unfoldable pub version_digits : Text → Option ℕ → Bool
version_digits v none = false
version_digits v (some dot) =
    if ltb dot 2 || dot == length v - 1
    then false
    else all is_digit (take (dot - 1) (drop 1 v)) && all is_digit (drop (dot + 1) v)

unfoldable pub is_valid_protocol_version : Text → Bool
is_valid_protocol_version v =
    if is_empty v
    then false
    else if ltb (length v) 4 || not (starts_with_char b'v' v)
    then false
    else version_digits v (find_char b'.' v)

unfoldable pub is_valid_session_id : Text → Bool
is_valid_session_id sid = if is_empty sid then false else validate_session_id_format sid

unfoldable pub is_valid_action_type : Text → Bool
is_valid_action_type t =
    mem_text t (codes "FOLD" ∷ codes "CHECK" ∷ codes "CALL" ∷ codes "RAISE" ∷ codes "ALL_IN" ∷ [])

abbrev below_minimum : ℤ → Option ℤ → Bool
below_minimum a none = false
below_minimum a (some m) = ltb_ℤ a m

abbrev above_maximum : ℤ → Option ℤ → Bool
above_maximum a none = false
above_maximum a (some m) = ltb_ℤ m a

unfoldable pub is_valid_amount : ℤ → Option ℤ → Option ℤ → Bool
is_valid_amount amount min_amount max_allowed =
    if leb_ℤ amount (pos 0)
    then false
    else if below_minimum amount min_amount
    then false
    else if above_maximum amount max_allowed
    then false
    else not (ltb_ℤ max_amount amount)

unfoldable pub is_valid_game_phase : Text → Bool
is_valid_game_phase p = mem_text p (
    codes "WAITING"
    ∷ codes "PREFLOP"
    ∷ codes "FLOP"
    ∷ codes "TURN"
    ∷ codes "RIVER"
    ∷ codes "SHOWDOWN"
    ∷ codes "HAND_COMPLETE"
    ∷ [])

unfoldable pub is_valid_seat_number : ℤ → ℤ → Bool
is_valid_seat_number seat max_seats = leb_ℤ (pos 0) seat && ltb_ℤ seat max_seats
