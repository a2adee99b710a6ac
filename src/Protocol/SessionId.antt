-- ===== src/Protocol/SessionId.antt =====
-- src/common/protocol.cpp, namespace detail: the format of a session id.
use cppsim.Prelude.{
  ◌≡◌, refl, Bool, ◌&&◌, ◌||◌, ℕ, Text, codes, text_eq, leb, ◌==◌, all, length, take, drop, not,
  ltb, if◌then◌else◌, false, true,
}

-- Bytes of a session id: a lower-case letter, a digit or an underscore.
unfoldable pub is_valid_session_id_char : ℕ → Bool
is_valid_session_id_char c = (leb b'a' c && leb c b'z') || (leb b'0' c && leb c b'9') || c == b'_'

abbrev pub max_session_id_length : ℕ
max_session_id_length = 128

abbrev pub id_prefix : Text
id_prefix = codes "sess_"

-- The five tests on sid[0] to sid[4] are one comparison with the prefix.
unfoldable pub validate_session_id_format : Text → Bool
validate_session_id_format sid =
    if ltb (length sid) 6 || ltb max_session_id_length (length sid)
    then false
    else if not (text_eq (take 5 sid) id_prefix)
    then false
    else all is_valid_session_id_char (drop 5 sid)

real_id : validate_session_id_format (codes "sess_00000001a3c2f9e0") ≡ true
unfolding validate_session_id_format is_valid_session_id_char text_eq
real_id = refl
