-- ===== src/Server/Session/Invariant/Identity.antt =====
-- Only a handshake changes the id of a session.
use cppsim.Prelude.{
  ℕ, ◌≡◌, refl, Bool, true, false, ◌||◌, List, [], ◌∷◌, Option, none, some, Text, if_intro, ap, ◌∙◌,
  arith,
}
use cppsim.Json.{Floats, JsonLib}
use cppsim.Server.Session.State.{
  State, authenticated, unauthenticated, closed, Session, World, is_closed, is_closing, emit,
  cancel_timer,
}
use cppsim.Server.Session.Output.{
  queue_message, finish_close, do_close, close, do_write, write_next, write_done, on_write,
  count_error, queue_error, send_protocol_error, refuse,
}
use cppsim.Server.Session.Events.{TimerResult, aborted, failed, expired, expire, on_deadline}
use cppsim.Server.Session.Invariant.Output.{unregister_session_part, queue_message-same}

abbrev pub KeepsId : World → World → Type 0
KeepsId v w = w.session.session_id ≡ v.session.session_id

finish_close_session : (s : State) (w : World) → (finish_close s w).session ≡ w.session
unfolding finish_close emit
finish_close_session unauthenticated w = unregister_session_part (emit cancel_timer w)
finish_close_session authenticated w = unregister_session_part (emit cancel_timer w)
finish_close_session closed w = refl

pub do_close-KeepsId : (w : World) → KeepsId w (do_close w)
unfolding do_close
do_close-KeepsId w =
    if_intro (KeepsId w) w.session.close_initiated (λ _. refl)
      (λ _. ap (λ (s : Session). s.session_id) (finish_close_session w.session.state _))

close-KeepsId : (w : World) → KeepsId w (close w)
unfolding close
close-KeepsId w =
    if_intro (KeepsId w) (is_closed w.session.state || w.session.writing) (λ _. refl)
      (λ _. do_close-KeepsId (record w { session = record (w.session) { close_requested = true } }))

write_done-KeepsId : (q : List Text) (w : World) → KeepsId w (write_done q w)
unfolding write_done
write_done-KeepsId [] w =
    if_intro (KeepsId w) w.session.close_requested
      (λ _. do_close-KeepsId (record w { session = record (w.session) { writing = false } }))
      (λ _. refl)
write_done-KeepsId (t ∷ ts) w = refl

pub on_write-KeepsId : (b : Bool) (n : ℕ) (w : World) → KeepsId w (on_write b n w)
unfolding on_write
on_write-KeepsId true n w = do_close-KeepsId _
on_write-KeepsId false n w = write_done-KeepsId w.session.write_queue _

pub do_write-KeepsId : (w : World) → KeepsId w (do_write w)
unfolding do_write write_next
do_write-KeepsId w = ground arith

module _ {F : Floats} (L : JsonLib F) where
  queue_error-KeepsId : (o : Option Text) (w : World) → KeepsId w (queue_error L o w)
  unfolding queue_error
  queue_error-KeepsId none w = refl
  queue_error-KeepsId (some t) w = counted (queue_message t w) (queue_message-same t w).session_id
    where
      counted : (r : World × Bool) → KeepsId w r.0 → KeepsId w (count_error L r)
      counted (v, true) h = unfold count_error in h
      counted (v, false) h = unfold count_error in h

  pub refuse-KeepsId : (code message : Text) (w : World) → KeepsId w (refuse L code message w)
  unfolding refuse send_protocol_error
  refuse-KeepsId code message w = close-KeepsId _ ∙ queue_error-KeepsId _ w

  expire-KeepsId : (s : State) (w : World) → KeepsId w (expire L s w)
  unfolding expire
  expire-KeepsId unauthenticated w = refuse-KeepsId _ _ w
  expire-KeepsId authenticated w = refuse-KeepsId _ _ w
  expire-KeepsId closed w = refl

  pub on_deadline-KeepsId : (r : TimerResult) (w : World) → KeepsId w (on_deadline L r w)
  unfolding on_deadline
  on_deadline-KeepsId aborted w =
      if_intro (KeepsId w) (is_closing w.session) (λ _. refl) (λ _. refl)
  on_deadline-KeepsId failed w = if_intro (KeepsId w) (is_closing w.session) (λ _. refl) (λ _. refl)
  on_deadline-KeepsId expired w = expire-KeepsId w.session.state w
