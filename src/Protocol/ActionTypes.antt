-- ===== src/Protocol/ActionTypes.antt =====
-- src/common/protocol.hpp, namespace action_types, and the sets of src/common/protocol.cpp.
use cppsim.Prelude.{Text, codes, List, [], ◌∷◌}

abbrev pub fold : Text
fold = codes "FOLD"

abbrev pub check : Text
check = codes "CHECK"

abbrev pub call : Text
call = codes "CALL"

abbrev pub raise : Text
raise = codes "RAISE"

abbrev pub all_in : Text
all_in = codes "ALL_IN"

abbrev pub valid_action_types : List Text
valid_action_types = fold ∷ check ∷ call ∷ raise ∷ all_in ∷ []

abbrev pub amount_required_types : List Text
amount_required_types = raise ∷ all_in ∷ []

abbrev pub amount_forbidden_types : List Text
amount_forbidden_types = fold ∷ check ∷ call ∷ []
