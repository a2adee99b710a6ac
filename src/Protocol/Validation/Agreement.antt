-- ===== src/Protocol/Validation/Agreement.antt =====
-- The public validators against the checks that parsing makes.
use cppsim.Prelude.{◌≡◌, refl, some, none, Text, ℤ, arith, mem_text}
use cppsim.Protocol.ActionTypes.{valid_action_types}
use cppsim.Protocol.Parse.{validate_session_id_field, amount_in_bounds}
use cppsim.Protocol.Validation.{is_valid_session_id, is_valid_action_type, is_valid_amount}

-- On session ids, action types and amounts the public validators and the parser's checks agree.
pub validators_agree :
    (sid type : Text) (a : ℤ)
    → (is_valid_session_id sid ≡ validate_session_id_field sid)
      × (is_valid_action_type type ≡ mem_text type valid_action_types)
      × (is_valid_amount a none none ≡ amount_in_bounds (some a))
unfolding is_valid_session_id validate_session_id_field is_valid_action_type is_valid_amount
    amount_in_bounds
validators_agree sid type a = (ground arith, refl, ground arith)
