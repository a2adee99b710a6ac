-- ===== src/Server/Session/Output.antt =====
-- Sending, writing and closing.
use cppsim.Server.SessionMetrics.{increment_messages_sent, increment_bytes_sent, increment_errors}
use cppsim.Prelude.{
  ℕ, Bool, true, false, ◌||◌, List, [], ◌∷◌, ◌++◌, Option, none, some, Text, leb, is_empty, length,
  if◌then◌else◌,
}
use cppsim.Json.{Floats, JsonLib}
use cppsim.Protocol.Messages.{ErrorMessage}
use cppsim.Protocol.Parse.{serialize_error}
use cppsim.Server.Config.{max_write_queue_size}
use cppsim.Server.Manager.{unregister_session}
use cppsim.Server.Session.State.{
  State, unauthenticated, authenticated, closed, Session, World, post_write, async_write,
  async_close, tcp_close, cancel_timer, is_closed, is_closing, emit,
}

-- The locked section and the post of queue_message; the answer is whether the message was queued.
unfoldable pub queue_message : Text → World → World × Bool
unfolding emit
queue_message message w =
    if is_closing w.session
    then (w, false)
    else if leb max_write_queue_size (length w.session.write_queue)
    then (w, false)
    else if w.session.writing
    then (record w { session = push }, true)
    else (emit post_write (record w { session = record push { writing = true } }), true)
  where
    push : Session
    push = record (w.session) { write_queue = w.session.write_queue ++ message ∷ [] }

-- `conn_mgr_.lock()` and unregister_session, unless the id is empty.
unfoldable pub unregister : World → World
unregister w = if is_empty w.session.session_id then w else elim w.manager [
  | none ↦ w
  | some m ↦ record w { manager = some (unregister_session w.session.session_id m) }
]

-- The end of do_close, by the state that it found.
unfoldable pub finish_close : State → World → World
unfolding emit unregister
finish_close unauthenticated w = emit tcp_close (unregister (emit cancel_timer w))
finish_close authenticated w = emit async_close (unregister (emit cancel_timer w))
finish_close closed w = w

unfoldable pub do_close : World → World
unfolding finish_close
do_close w =
    if w.session.close_initiated
    then w
    else finish_close w.session.state
        (record w { session = record (w.session) { close_initiated = true; state = closed } })

-- close() called on the strand: dispatch runs its function at once.
unfoldable pub close : World → World
close w =
    let w' = record w { session = record (w.session) { close_requested = true } } in
    if is_closed w.session.state || w.session.writing then w' else do_close w'

-- The next write; without one, or once closed, the pipeline stops.
unfoldable pub write_next : List Text → World → World
unfolding emit
write_next [] w = record w { session = record (w.session) { writing = false } }
write_next (message ∷ rest) w =
    emit (async_write message) (record w { session = record (w.session) { write_queue = rest } })

unfoldable pub do_write : World → World
unfolding write_next
do_write w =
    if is_closed w.session.state
    then record w { session = record (w.session) { writing = false } }
    else write_next w.session.write_queue w

-- After a successful write: close if that was asked and nothing is left, or write on.
unfoldable pub write_done : List Text → World → World
unfolding emit
write_done [] w =
    let w' = record w { session = record (w.session) { writing = false } } in
    if w.session.close_requested then do_close w' else w'
write_done (message ∷ rest) w =
    emit post_write (record w { session = record (w.session) { writing = true } })

-- `failed` is a set error code; the number is bytes_transferred.
unfoldable pub on_write : Bool → ℕ → World → World
unfolding write_done
on_write true bytes w = do_close (record w {
  session = record (w.session) { writing = false; close_requested = true; write_queue = [] };
})
on_write false bytes w =
    let m = increment_messages_sent 1 w.session.metrics in
    write_done w.session.write_queue
      (record w { session = record (w.session) { metrics = increment_bytes_sent bytes m } })

-- The handler of async_close: on an error the socket is closed by force.
unfoldable pub on_close : Bool → World → World
unfolding emit
on_close true w = emit tcp_close w
on_close false w = w

module _ {F : Floats} (L : JsonLib F) where
  unfoldable pub error_for : Text → Text → Text → ErrorMessage
  error_for code message sid = record {
    error_code = code;
    message = message;
    session_id = if is_empty sid then none else some sid;
  }

  unfoldable pub count_error : World × Bool → World
  count_error (w, true) = w
  count_error (w, false) = record w {
    session = record (w.session) { metrics = increment_errors 1 w.session.metrics };
  }

  unfoldable pub queue_error : Option Text → World → World
  unfolding count_error
  queue_error none w = w
  queue_error (some t) w = count_error (queue_message t w)

  -- An exception of the serializer is swallowed.
  unfoldable pub send_protocol_error : Text → Text → World → World
  unfolding error_for queue_error
  send_protocol_error code message w =
      queue_error (serialize_error L (error_for code message w.session.session_id)) w

  -- The two lines that answer most errors.
  unfoldable pub refuse : Text → Text → World → World
  refuse code message w = close (send_protocol_error code message w)
