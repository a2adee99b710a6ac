-- ===== src/Server/Session/Refusal.antt =====
-- What a refused message does: an answer, and the close of the session; what an accepted one does.
use cppsim.Prelude.{
  ◌≡◌, ◌⊎◌, inl, inr, refl, Bool, true, false, ◌||◌, Option, none, some, Text, if_intro, arith,
}
use cppsim.Json.{Floats, JsonLib}
use cppsim.Server.Session.State.{
  State, authenticated, unauthenticated, closed, Session, World, is_closed, emit, cancel_timer,
}
use cppsim.Server.Session.Output.{
  queue_message, finish_close, do_close, close, count_error, queue_error, send_protocol_error,
  refuse,
}
use cppsim.Server.Session.Invariant.Output.{unregister_session_part}

-- The session is closing: the close has begun, or a write is under way, at whose end it begins.
-- Neither its id, its sequence number nor its stack has changed. It is in the state it was in, or
-- closed.
pub record Refused (v w : Session) : Type 0 where
  pub closing : w.close_requested ≡ true
  pub begun : (is_closed w.state ≡ true) ⊎ (w.writing ≡ true) ⊎ (w.close_initiated ≡ true)
  pub session_id : w.session_id ≡ v.session_id
  pub sequence : w.last_sequence_number ≡ v.last_sequence_number
  pub stack : w.current_stack ≡ v.current_stack
  pub state : (w.state ≡ v.state) ⊎ (w.state ≡ closed)

-- The part of it that sending keeps.
pub record Kept (v w : Session) : Type 0 where
  pub session_id : w.session_id ≡ v.session_id
  pub sequence : w.last_sequence_number ≡ v.last_sequence_number
  pub stack : w.current_stack ≡ v.current_stack
  pub state : w.state ≡ v.state

pub finish_close-session : (s : State) (w : World) → (finish_close s w).session ≡ w.session
unfolding finish_close emit
finish_close-session unauthenticated w = unregister_session_part (emit cancel_timer w)
finish_close-session authenticated w = unregister_session_part (emit cancel_timer w)
finish_close-session closed w = refl

do_close-Refused :
    (v : Session) (w : World)
    → Kept v w.session
    → w.session.close_requested ≡ true
    → Refused v (do_close w).session
unfolding do_close
do_close-Refused v w k r =
    if_intro (λ (u : World). Refused v u.session) w.session.close_initiated
      (λ e. record {
        closing = r;
        begun = inr (inr e);
        session_id = k.session_id;
        sequence = k.sequence;
        stack = k.stack;
        state = inl k.state;
      })
      (λ _.
        rw
          (finish_close-session w.session.state
            (record w { session = record (w.session) { close_initiated = true; state = closed } }))
          (record {
            closing = r;
            begun = inl refl;
            session_id = k.session_id;
            sequence = k.sequence;
            stack = k.stack;
            state = inr refl;
          }))

pub close-Refused : (v : Session) (w : World) → Kept v w.session → Refused v (close w).session
unfolding close
close-Refused v w k =
    if_intro (λ (u : World). Refused v u.session) (is_closed w.session.state || w.session.writing)
      (λ e. record {
        closing = refl;
        begun = ground (arith, e);
        session_id = k.session_id;
        sequence = k.sequence;
        stack = k.stack;
        state = inl k.state;
      })
      (λ _.
        do_close-Refused v (record w { session = record (w.session) { close_requested = true } })
          (record {
            session_id = k.session_id;
            sequence = k.sequence;
            stack = k.stack;
            state = k.state;
          })
          refl)

pub queue_message-Kept : (t : Text) (w : World) → Kept w.session (queue_message t w).0.session
unfolding queue_message
queue_message-Kept t w = ground arith

module _ {F : Floats} (L : JsonLib F) where
  count_error-Kept :
      (v : Session) (r : World × Bool) → Kept v r.0.session → Kept v (count_error L r).session
  unfolding count_error
  count_error-Kept v (w, true) k = k
  count_error-Kept v (w, false) k = record {
    session_id = k.session_id;
    sequence = k.sequence;
    stack = k.stack;
    state = k.state;
  }

  queue_error-Kept : (o : Option Text) (w : World) → Kept w.session (queue_error L o w).session
  unfolding queue_error
  queue_error-Kept none w = record {
    session_id = refl;
    sequence = refl;
    stack = refl;
    state = refl;
  }
  queue_error-Kept (some t) w =
      count_error-Kept w.session (queue_message t w) (queue_message-Kept t w)

  -- An error always closes the session, whether or not its answer could be queued.
  pub refuse-Refused :
      (code message : Text) (w : World) → Refused w.session (refuse L code message w).session
  unfolding refuse send_protocol_error
  refuse-Refused code message w = close-Refused w.session _ (queue_error-Kept _ w)
