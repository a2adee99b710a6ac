-- ===== src/Protocol/Parse/Accepts.antt =====
-- Which messages the checks let through.
use cppsim.Prelude.{
  ◌≡◌, ◌↔◌, ◌⊎◌, inl, inr, ◌≤◌, refl, true, false, ◌&&◌, [], ◌∷◌, Option, none, some, Text, ℤ, pos,
  not, is_some, text_eq, text_eq→eq, mem_text, all, is_empty, length, arith, sym, ap, ◌∙◌, ◌≤ℤ◌,
  ◌<ℤ◌,
}
use cppsim.Protocol.SessionId.{validate_session_id_format}
use cppsim.Protocol.ActionTypes.{
  fold, check, call, raise, all_in, valid_action_types, amount_required_types,
  amount_forbidden_types,
}
use cppsim.Protocol.Messages.{max_amount, ActionMessage, ReloadRequestMessage, DisconnectMessage}
use cppsim.Protocol.Parse.{
  validate_session_id_field, amount_in_bounds, validate_action, validate_reload,
  validate_disconnect, reason_ok, is_printable_ascii,
}

-- What the protocol says of the type and the amount of an action.
pub data AmountRule : Text → Option ℤ → Type 0 where
  without_amount : {t : Text} → (t ≡ fold) ⊎ (t ≡ check) ⊎ (t ≡ call) → AmountRule t none
  with_amount :
      {t : Text} (a : ℤ)
      → (t ≡ raise) ⊎ (t ≡ all_in)
      → pos 0 <ℤ a
      → a ≤ℤ max_amount
      → AmountRule t (some a)

pub record IsPlayable (m : ActionMessage) : Type 0 where
  pub session : validate_session_id_format m.session_id ≡ true
  pub sequence : pos 0 ≤ℤ m.sequence_number
  pub amounts : AmountRule m.action_type m.amount

abbrev pub IsReason : Option Text → Type 0
IsReason none = Unit {0}
IsReason (some t) = (length t ≤ 256) × (all is_printable_ascii t ≡ true)

field_valid : (t : Text) → validate_session_id_field t ≡ validate_session_id_format t
unfolding validate_session_id_field validate_session_id_format
field_valid [] = refl
field_valid (c ∷ cs) = ground arith

types_without_amount :
    (t : Text)
    → mem_text t valid_action_types ≡ true
    → mem_text t amount_required_types ≡ false
    → (t ≡ fold) ⊎ (t ≡ check) ⊎ (t ≡ call)
unfolding mem_text
types_without_amount t h k =
    ground (arith, text_eq→eq t fold, text_eq→eq t check, text_eq→eq t call)

types_with_amount :
    (t : Text)
    → mem_text t valid_action_types ≡ true
    → mem_text t amount_forbidden_types ≡ false
    → (t ≡ raise) ⊎ (t ≡ all_in)
unfolding mem_text
types_with_amount t h k = ground (arith, text_eq→eq t raise, text_eq→eq t all_in)

AmountRule-sound :
    (t : Text) (amount : Option ℤ)
    → mem_text t valid_action_types ≡ true
    → amount_in_bounds amount ≡ true
    → (mem_text t amount_required_types && not (is_some amount)) ≡ false
    → (mem_text t amount_forbidden_types && is_some amount) ≡ false
    → AmountRule t amount
unfolding amount_in_bounds
AmountRule-sound t none v b r f = without_amount (types_without_amount t v (ground arith))
AmountRule-sound t (some a) v b r f =
    with_amount a (types_with_amount t v (ground arith)) (ground arith) (ground arith)

validate_action_sound :
    (m r : ActionMessage) → validate_action (some m) ≡ some r → (r ≡ m) × IsPlayable m
unfolding validate_action
validate_action_sound m r h =
    ground (arith, field_valid m.session_id, AmountRule-sound m.action_type m.amount)

type_facts :
    (t : Text) (amount : Option ℤ)
    → AmountRule t amount
    → (is_empty t ≡ false)
      × (mem_text t valid_action_types ≡ true)
      × (amount_in_bounds amount ≡ true)
      × ((mem_text t amount_required_types && not (is_some amount)) ≡ false)
      × ((mem_text t amount_forbidden_types && is_some amount) ≡ false)
unfolding mem_text text_eq amount_in_bounds
type_facts t none (without_amount w) = elim w [
  | inl e ↦ rw e (refl, refl, refl, refl, refl)
  | inr (inl e) ↦ rw e (refl, refl, refl, refl, refl)
  | inr (inr e) ↦ rw e (refl, refl, refl, refl, refl)
]
type_facts t (some a) (with_amount _ w lo hi) = elim w [
  | inl e ↦ rw e (refl, refl, ground arith, refl, refl)
  | inr e ↦ rw e (refl, refl, ground arith, refl, refl)
]

validate_action_complete : (m : ActionMessage) → IsPlayable m → validate_action (some m) ≡ some m
unfolding validate_action
validate_action_complete m p =
    ground (arith, field_valid m.session_id, type_facts m.action_type m.amount p.amounts)

-- An action passes the checks exactly when its session id has the format, its sequence number is
-- not negative, and it is a fold, check or call without an amount, or a raise or all-in with an
-- amount from 1 to the maximum. What passes is handed on as it was.
pub validate_action_iff :
    (m r : ActionMessage) → (validate_action (some m) ≡ some r) ↔ ((r ≡ m) × IsPlayable m)
validate_action_iff m r =
    (validate_action_sound m r, λ (e, p). validate_action_complete m p ∙ ap some (sym e))

-- A reload request passes exactly when its session id has the format and its amount lies from 1 to
-- the maximum.
pub validate_reload_iff :
    (m r : ReloadRequestMessage)
    → (validate_reload (some m) ≡ some r) ↔ (
        (r ≡ m)
        × (validate_session_id_format m.session_id ≡ true)
        × (pos 0 <ℤ m.requested_amount)
        × (m.requested_amount ≤ℤ max_amount))
unfolding validate_reload
validate_reload_iff m r =
    (λ h. ground (arith, field_valid m.session_id), λ h. ground (arith, field_valid m.session_id))

-- A disconnect passes exactly when its session id has the format and its reason, if it has one, is
-- at most 256 printable bytes.
pub validate_disconnect_iff :
    (m r : DisconnectMessage)
    → (validate_disconnect (some m) ≡ some r)
      ↔ ((r ≡ m) × (validate_session_id_format m.session_id ≡ true) × IsReason m.reason)
unfolding validate_disconnect reason_ok
validate_disconnect_iff m r =
    (λ h. ground (arith, field_valid m.session_id), λ h. ground (arith, field_valid m.session_id))
