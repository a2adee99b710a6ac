-- ===== src/Protocol/StateUpdate/RoundTrip.antt =====
-- What a state update writes is read back.
use cppsim.Prelude.{
  ◌≡◌, refl, List, [], ◌∷◌, ◌++◌, Option, none, some, Text, ℤ, IsInt64, IsInt32, All, map, text_eq,
  text_eq_refl, false, codes, Option-cases, inl, inr, subst, ap, ◌∙◌,
}
use cppsim.Json.{Floats, JsonLib, JsonLaws, member}
use cppsim.Protocol.Messages.{PlayerStack, StateUpdateMessage}
use cppsim.Protocol.Codec.{optional_field, optional_at, text_at, int64_at, read_optional}
use cppsim.Protocol.StateUpdate.{
  read_all, player_stack_to_json, player_stack_from_json, texts_to_json, get_vector, vector_at,
  state_update_to_json, state_update_from_json,
}

read_all-map {ℓ κ μ} :
    {A : Type ℓ} {B : Type κ} (P : A → Type μ) (put : A → B) (get : B → Option A)
    → ((a : A) → P a → get (put a) ≡ some a)
    → (xs : List A) → All P xs
    → read_all get (map put xs) ≡ some xs
unfolding read_all
read_all-map P put get h [] ok = refl
read_all-map P put get h (x ∷ xs) ok = rw (h x ok.0, read_all-map P put get h xs ok.1) refl

-- The numbers of a player stack fit their C++ types.
abbrev pub FitsStack : PlayerStack → Type 0
FitsStack p = IsInt32 p.seat × IsInt64 p.stack

abbrev pub FitsSeat : Option ℤ → Type 0
FitsSeat none = Unit {0}
FitsSeat (some n) = IsInt32 n

-- The numbers of a state update fit their C++ types.
pub record Fits (m : StateUpdateMessage) : Type 0 where
  pub pot : IsInt64 m.pot_size
  pub bet : IsInt64 m.current_bet
  pub stacks : All FitsStack m.player_stacks
  pub seat : FitsSeat m.acting_seat

module _ {F : Floats} (L : JsonLib F) (laws : JsonLaws L) where
  open laws use {
    find-object, get_text-string, get_int64-integer, get_int-integer, get_items-array,
    is_null-array, is_null-integer,
  }

  player_stack_lem :
      (p : PlayerStack) → FitsStack p → player_stack_from_json L (player_stack_to_json L p) ≡ some p
  unfolding player_stack_from_json player_stack_to_json member text_eq
  player_stack_lem p (hs, ht) =
      simp (find-object, get_int-integer p.seat hs, get_int64-integer p.stack ht)

  stacks_lem :
      (ps : List PlayerStack)
      → All FitsStack ps
      → read_all (player_stack_from_json L) (map (player_stack_to_json L) ps) ≡ some ps
  stacks_lem =
      read_all-map FitsStack (player_stack_to_json L) (player_stack_from_json L) player_stack_lem

  All-trivial : (ts : List Text) → All (λ _. Unit {0}) ts
  All-trivial [] = tt
  All-trivial (t ∷ ts) = (tt, All-trivial ts)

  texts_lem : (ts : List Text) → read_all L.get_text (map L.string ts) ≡ some ts
  texts_lem ts =
      read_all-map (λ _. Unit {0}) L.string L.get_text (λ t _. get_text-string t) ts
        (All-trivial ts)

  -- An optional member is read past the optional members of other names, and as it was written.
  module _ {A : Type 0} (put : A → L.Json) (j : Text) (o : Option A)
      (rest : List (Text × L.Json)) where
    member-skip :
        (k : Text)
        → text_eq j k ≡ false
        → member k (optional_field L put j o ++ rest) ≡ member k rest
    unfolding member optional_field
    member-skip k e = elim o as (λ o. member k (optional_field L put j o ++ rest) ≡ member k rest) [
      | none ↦ refl
      | some a ↦ rw e refl
    ]

    read-member :
        (get : L.Json → Option A)
        → ((a : A) → o ≡ some a → (get (put a) ≡ some a) × (L.is_null (put a) ≡ false))
        → member j rest ≡ none
        → read_optional L get (member j (optional_field L put j o ++ rest)) ≡ some o
    unfolding member optional_field read_optional
    read-member get h e = elim (Option-cases o) [
      | inl is ↦ rw (is, e) refl
      | inr (a, is) ↦ rw (is, text_eq_refl j, (h a is).1, (h a is).0) refl
    ]

  -- The last member has nothing behind it.
  optional_field-append_nil :
      {A : Type 0} (put : A → L.Json) (j : Text) (o : Option A)
      → optional_field L put j o ≡ optional_field L put j o ++ []
  unfolding optional_field
  optional_field-append_nil put j none = refl
  optional_field-append_nil put j (some a) = refl

  get_texts : (ts : List Text) → get_vector L L.get_text (texts_to_json L ts) ≡ some ts
  unfolding get_vector texts_to_json
  get_texts ts = simp (get_items-array, texts_lem)

  texts-is_null : (ts : List Text) → L.is_null (texts_to_json L ts) ≡ false
  unfolding texts_to_json
  texts-is_null ts = is_null-array (map L.string ts)

  module _ (m : StateUpdateMessage) where
    abbrev written : L.Json
    written = state_update_to_json L m

    read_phase : text_at L (codes "game_phase") written ≡ some m.game_phase
    unfolding text_at state_update_to_json member text_eq
    read_phase = simp (find-object, get_text-string)

    read_pot : IsInt64 m.pot_size → int64_at L (codes "pot_size") written ≡ some m.pot_size
    unfolding int64_at state_update_to_json member text_eq
    read_pot h = simp (find-object, get_int64-integer m.pot_size h)

    read_bet : IsInt64 m.current_bet → int64_at L (codes "current_bet") written ≡ some m.current_bet
    unfolding int64_at state_update_to_json member text_eq
    read_bet h = simp (find-object, get_int64-integer m.current_bet h)

    no_seat :
        (k : Text)
        → text_eq (codes "acting_seat") k ≡ false
        → member k (optional_field L L.integer (codes "acting_seat") m.acting_seat) ≡ none
    unfolding member
    no_seat k e =
        ap (member k) (optional_field-append_nil L.integer (codes "acting_seat") m.acting_seat)
        ∙ member-skip L.integer (codes "acting_seat") m.acting_seat [] k e

    read_stacks :
        All FitsStack m.player_stacks
        → vector_at L (player_stack_from_json L) (codes "player_stacks") written
          ≡ some m.player_stacks
    unfolding vector_at get_vector state_update_to_json member text_eq
    read_stacks h = simp (find-object, get_items-array, stacks_lem m.player_stacks h)

    read_actions : vector_at L L.get_text (codes "valid_actions") written ≡ some m.valid_actions
    unfolding vector_at state_update_to_json member text_eq
    read_actions = simp (find-object, get_texts)

    read_community :
        optional_at L (get_vector L L.get_text) (codes "community_cards") written
        ≡ some m.community_cards
    unfolding optional_at state_update_to_json member text_eq
    read_community = simp find-object (
        read-member (texts_to_json L) (codes "community_cards") m.community_cards
          (optional_field L (texts_to_json L) (codes "hole_cards") m.hole_cards
            ++ optional_field L L.integer (codes "acting_seat") m.acting_seat)
          (get_vector L L.get_text) (λ ts _. (get_texts ts, texts-is_null ts))
          (member-skip (texts_to_json L) (codes "hole_cards") m.hole_cards
              (optional_field L L.integer (codes "acting_seat") m.acting_seat)
              (codes "community_cards") refl
            ∙ no_seat (codes "community_cards") refl))

    read_hole :
        optional_at L (get_vector L L.get_text) (codes "hole_cards") written ≡ some m.hole_cards
    unfolding optional_at state_update_to_json member text_eq
    read_hole = simp find-object (
        ap (read_optional L (get_vector L L.get_text)) (
          member-skip (texts_to_json L) (codes "community_cards") m.community_cards
            (optional_field L (texts_to_json L) (codes "hole_cards") m.hole_cards
              ++ optional_field L L.integer (codes "acting_seat") m.acting_seat)
            (codes "hole_cards") refl)
        ∙ read-member (texts_to_json L) (codes "hole_cards") m.hole_cards
            (optional_field L L.integer (codes "acting_seat") m.acting_seat)
            (get_vector L L.get_text) (λ ts _. (get_texts ts, texts-is_null ts))
            (no_seat (codes "hole_cards") refl))

    read_seat :
        FitsSeat m.acting_seat
        → optional_at L L.get_int (codes "acting_seat") written ≡ some m.acting_seat
    unfolding optional_at state_update_to_json member text_eq
    read_seat h = simp find-object (
        ap (read_optional L L.get_int) (
          member-skip (texts_to_json L) (codes "community_cards") m.community_cards
            (optional_field L (texts_to_json L) (codes "hole_cards") m.hole_cards
              ++ optional_field L L.integer (codes "acting_seat") m.acting_seat)
            (codes "acting_seat") refl
          ∙ member-skip (texts_to_json L) (codes "hole_cards") m.hole_cards
              (optional_field L L.integer (codes "acting_seat") m.acting_seat) (codes "acting_seat")
              refl
          ∙ ap (member (codes "acting_seat"))
              (optional_field-append_nil L.integer (codes "acting_seat") m.acting_seat))
        ∙ read-member L.integer (codes "acting_seat") m.acting_seat [] L.get_int
            (λ n is. (get_int-integer n (subst FitsSeat is h), is_null-integer n)) refl)

  -- A state update whose numbers fit their types is read back as it was, with any of its optional
  -- members present or absent.
  pub state_update_round_trip :
      (m : StateUpdateMessage)
      → Fits m
      → state_update_from_json L (state_update_to_json L m) ≡ some m
  unfolding state_update_from_json
  state_update_round_trip m f =
      rw
        (
          read_phase m,
          read_pot m f.pot,
          read_bet m f.bet,
          read_stacks m f.stacks,
          read_actions m,
          read_community m,
          read_hole m,
          read_seat m f.seat,
        )
        refl
