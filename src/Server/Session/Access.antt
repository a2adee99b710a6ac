-- ===== src/Server/Session/Access.antt =====
-- What other threads ask of a session: send, is_authenticated and session_id.
use cppsim.Prelude.{Bool, true, false, Text}
use cppsim.Server.Session.State.{State, unauthenticated, authenticated, closed, World, Session}
use cppsim.Server.Session.Output.{queue_message}

unfoldable pub send : Text → World → World × Bool
send message w = queue_message message w

abbrev is_authenticated_state : State → Bool
is_authenticated_state authenticated = true
is_authenticated_state unauthenticated = false
is_authenticated_state closed = false

unfoldable pub is_authenticated : Session → Bool
is_authenticated s = is_authenticated_state s.state

unfoldable pub get_session_id_safe : Session → Text
get_session_id_safe s = s.session_id

unfoldable pub session_id : Session → Text
unfolding get_session_id_safe
session_id s = get_session_id_safe s
