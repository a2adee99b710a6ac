-- ===== src/Server/Session/Events.antt =====
-- The handlers that Asio calls on the strand, and the calls from other threads.
use cppsim.Server.SessionMetrics.{increment_messages_received, increment_bytes_received}
use cppsim.Prelude.{ℕ, Bool, true, false, Option, Text, codes, ℤ, length, if◌then◌else◌}
use cppsim.Json.{Floats, JsonLib}
use cppsim.Protocol.ErrorCodes
use cppsim.Server.RuntimeConfig.{Limits}
use cppsim.Server.Session.State.{
  State, unauthenticated, authenticated, closed, World, async_read, async_accept, arm_timer,
  cancel_timer, restart_timer, is_closed, is_closing, emit,
}
use cppsim.Server.Session.Output.{unregister, do_close, refuse}
use cppsim.Server.Session.Traffic.{check_rate_limit_or_close, check_suspicious_activity}
use cppsim.Server.Session.Handlers.{
  Exit, returned, threw, handle_handshake_message, handle_authenticated_message,
}

-- The end of an async_read: a close frame or another error, or one message of some bytes.
pub data ReadResult : Type 0 where
  peer_closed read_error : ReadResult
  received : Text → ReadResult

-- The end of a wait on the timer.
pub data TimerResult : Type 0 where
  aborted failed expired : TimerResult

unfoldable pub run : ℤ → World → World
unfolding emit
run handshake_timeout w =
    emit async_accept (emit arm_timer (emit (restart_timer handshake_timeout) w))

unfoldable pub do_read : World → World
unfolding emit
do_read w = if is_closing w.session then w else emit async_read w

-- `failed` is a set error code.
unfoldable pub on_accept : Bool → World → World
unfolding emit
on_accept true w =
    if is_closed w.session.state
    then w
    else emit cancel_timer (record w { session = record (w.session) { state = closed } })
on_accept false w = if is_closing w.session then w else do_read w

-- A read that ended in an error closes the session without a close frame.
unfoldable pub drop_connection : World → World
unfolding emit
drop_connection w =
    unregister (emit cancel_timer (record w { session = record (w.session) { state = closed } }))

-- The guard at the end of on_read.
unfoldable pub read_on : Limits → World → World
unfolding emit
read_on c w = if is_closing w.session then w else do_read (emit (restart_timer c.ws_idle_timeout) w)

module _ {F : Floats} (L : JsonLib F) where
  -- An exception of a handler is answered with an error and a close.
  unfoldable pub finish_read : Limits → World × Exit → World
  finish_read c (w, returned) = read_on c w
  finish_read c (w, threw) = refuse L ErrorCodes.protocol_error (codes "Internal server error") w

  -- By the state at the start of on_read.
  unfoldable pub dispatch : Limits → (ℕ → Option ℕ) → State → Text → World → World × Exit
  dispatch c draw unauthenticated message w = handle_handshake_message L draw message w
  dispatch c draw authenticated message w = handle_authenticated_message L c message w
  dispatch c draw closed message w = handle_authenticated_message L c message w

  unfoldable pub count_received : Text → World → World
  count_received message w =
      let m = increment_messages_received 1 w.session.metrics in
      record w {
        session = record (w.session) { metrics = increment_bytes_received (length message) m };
      }

  unfoldable pub inspect : Limits → ℕ → (ℕ → Option ℕ) → State → Text → World → World
  inspect c now draw state message w =
      let checked = check_suspicious_activity now w in
      if checked.1
      then refuse L ErrorCodes.session_closed (codes "Suspicious activity detected") checked.0
      else finish_read c (dispatch c draw state message checked.0)

  unfoldable pub on_message : Limits → ℕ → (ℕ → Option ℕ) → State → Text → World → World
  unfolding count_received
  on_message c now draw state message w =
      let checked = check_rate_limit_or_close L c now (count_received message w) in
      if checked.1 then inspect c now draw state message checked.0 else checked.0

  unfoldable pub on_read : Limits → ℕ → (ℕ → Option ℕ) → ReadResult → World → World
  unfolding drop_connection
  on_read c now draw peer_closed w = if is_closed w.session.state then w else drop_connection w
  on_read c now draw read_error w = if is_closed w.session.state then w else drop_connection w
  on_read c now draw (received message) w =
      if is_closed w.session.state then w else on_message c now draw w.session.state message w

  unfoldable pub expire : State → World → World
  expire unauthenticated w = refuse L ErrorCodes.session_closed (codes "Handshake timeout") w
  expire authenticated w = refuse L ErrorCodes.session_closed (codes "Idle timeout") w
  expire closed w = w

  -- The function that check_deadline waits with. It waits again after an abort or an error, unless
  -- the session is closing.
  unfoldable pub on_deadline : TimerResult → World → World
  unfolding emit expire
  on_deadline aborted w = if is_closing w.session then w else emit arm_timer w
  on_deadline failed w = if is_closing w.session then w else emit arm_timer w
  on_deadline expired w = expire w.session.state w

-- close() from another thread: the flag now, the rest later on the strand.
unfoldable pub request_close : World → World
request_close w = record w { session = record (w.session) { close_requested = true } }

-- The function that close() dispatches.
unfoldable pub close_on_strand : World → World
close_on_strand w = if w.session.writing then w else do_close w

-- The destructor: a session that was not closed is unregistered.
unfoldable pub destroy : World → World
unfolding emit unregister
destroy w = let w' = emit cancel_timer w in if is_closed w.session.state then w' else unregister w'
