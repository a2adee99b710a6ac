-- ===== src/Server/Session/State.antt =====
-- The fields of websocket_session, and what surrounds a session.
use cppsim.Prelude.{ℕ, Bool, true, false, ◌||◌, List, [], ◌∷◌, Option, Text, ℤ, negsuc}
use cppsim.Server.Config.{placeholder_stack}
use cppsim.Server.Manager.{Manager}
use cppsim.Server.SessionMetrics.{Metrics, no_metrics}

pub data State : Type 0 where
  unauthenticated authenticated closed : State

-- Times are nanoseconds. The write queue has its oldest message first.
pub record Session : Type 0 where
  pub state : State
  pub close_requested : Bool
  pub close_initiated : Bool
  pub session_id : Text
  pub write_queue : List Text
  pub writing : Bool
  pub last_sequence_number : ℤ
  pub message_timestamps : List ℕ
  pub last_activity : ℕ
  pub message_count : ℕ
  pub current_stack : ℤ
  pub metrics : Metrics

-- What a handler asks of the executor, the timer and the stream. `post_write` puts do_write on the
-- strand; `arm_timer` is async_wait; `restart_timer` is expires_after, in seconds.
pub data Effect : Type 0 where
  post_write : Effect
  async_write : Text → Effect
  async_read : Effect
  async_accept : Effect
  async_close : Effect
  tcp_close : Effect
  cancel_timer : Effect
  arm_timer : Effect
  restart_timer : ℤ → Effect

-- A session with the registry that its weak pointer finds (`none` once the server is gone), the
-- handle under which it registers itself, and the effects so far, the latest first.
pub record World : Type 0 where
  pub session : Session
  pub manager : Option (Manager ℕ)
  pub self : ℕ
  pub effects : List Effect

abbrev pub is_closed : State → Bool
is_closed closed = true
is_closed unauthenticated = false
is_closed authenticated = false

-- The guard before a read or a write: closed, or about to close.
abbrev pub is_closing : Session → Bool
is_closing s = is_closed s.state || s.close_requested

-- The constructor, at the time of the connection.
unfoldable pub new_session : ℕ → Session
new_session now = record {
  state = unauthenticated;
  close_requested = false;
  close_initiated = false;
  session_id = [];
  write_queue = [];
  writing = false;
  last_sequence_number = negsuc 0;
  message_timestamps = [];
  last_activity = now;
  message_count = 0;
  current_stack = placeholder_stack;
  metrics = no_metrics;
}

unfoldable pub emit : Effect → World → World
emit e w = record w { effects = e ∷ w.effects }
