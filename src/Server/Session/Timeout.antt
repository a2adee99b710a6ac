-- ===== src/Server/Session/Timeout.antt =====
-- A timer that expires: the client gets the error after all that was queued, and the session closes.
use cppsim.Prelude.{
  ℕ, zero, suc, ltb, length-append, ◌<◌, ◌≡◌, refl, true, false, [], ◌∷◌, ◌++◌, some, Text, codes,
  length, if_intro, arith, Bool-cases, inl, inr,
}
use cppsim.Json.{Floats, JsonLib}
use cppsim.Protocol.ErrorCodes
use cppsim.Protocol.Parse.{serialize_error}
use cppsim.Server.Config.{max_write_queue_size}
use cppsim.Server.RuntimeConfig.{default_limits}
use cppsim.Server.Session.State.{
  State, unauthenticated, authenticated, closed, World, post_write, is_closed, is_closing, emit,
}
use cppsim.Server.Session.Output.{
  queue_message, close, refuse, send_protocol_error, queue_error, count_error, error_for, do_write,
  on_write,
}
use cppsim.Server.Session.Events.{expired, on_deadline, expire}
use cppsim.Server.Session.Invariant.{IsConsistent, Released}
use cppsim.Server.Session.Invariant.Output.{do_write-IsConsistent, on_write-IsConsistent}
use cppsim.Server.Session.Invariant.Events.{on_deadline-IsConsistent}
use cppsim.Server.Session.Delivery.Strand.{
  Pipeline, silent, posted, under_way, is_busy, write_on, let_out, answered_writes,
}
use cppsim.Server.Session.Delivery.{
  sent, posts, run_posted, goes_on, finish_writes, closing_with, Delivered, finish_writes_lem,
}

module _ {F : Floats} (L : JsonLib F) where
  module _ (code message t : Text) (w : World) (staying : is_closing w.session ≡ false)
      (room : length w.session.write_queue < max_write_queue_size)
      (text : serialize_error L (error_for L code message w.session.session_id) ≡ some t) where
    refuse_while_writing :
        w.session.writing ≡ true
        → refuse L code message w ≡ closing_with (w.session.write_queue ++ t ∷ []) w
    unfolding refuse send_protocol_error queue_error count_error queue_message close
    refuse_while_writing b = rw (text, queue_error) (ground arith)

    refuse_while_silent :
        w.session.writing ≡ false
        → refuse L code message w
          ≡ closing_with (w.session.write_queue ++ t ∷ []) (emit post_write w)
    unfolding refuse send_protocol_error queue_error count_error queue_message close emit
    refuse_while_silent b = rw (text, queue_error) (ground arith)

not_begun :
    (w : World) → IsConsistent w → is_closing w.session ≡ false → w.session.close_initiated ≡ false
not_begun w i staying = elim (Bool-cases w.session.close_initiated) [
  | inl b ↦ absurd (ground (arith, i.sound.initiated b))
  | inr e ↦ e
]

-- What the error says.
abbrev pub timeout_text : State → Text
timeout_text unauthenticated = codes "Handshake timeout"
timeout_text authenticated = codes "Idle timeout"
timeout_text closed = []

-- One more message, and then the close.
pub record Answered (t : Text) (w v : World) : Type 0 where
  pub delivered : Delivered (w.session.write_queue ++ t ∷ []) w v
  pub released : Released v.session.session_id v.manager

module _ {F : Floats} (L : JsonLib F) where
  finish_writes-IsConsistent :
      (bytes : ℕ → ℕ) (n : ℕ) (w : World) → IsConsistent w → IsConsistent (finish_writes bytes n w)
  unfolding finish_writes run_posted
  finish_writes-IsConsistent bytes zero w i = i
  finish_writes-IsConsistent bytes (suc n) w i =
      let u = on_write false (bytes n) w in
      let iu = on_write-IsConsistent false (bytes n) w i in
      let iv : IsConsistent (run_posted w u) =
        if_intro IsConsistent (ltb (posts w.effects) (posts u.effects))
          (λ _. do_write-IsConsistent u iu) (λ _. iu) in
      if_intro IsConsistent (goes_on w (run_posted w u))
        (λ _. finish_writes-IsConsistent bytes n (run_posted w u) iv) (λ _. iv)

  write_on-IsConsistent :
      (bytes : ℕ → ℕ) (n : ℕ) (v w : World) → IsConsistent w → IsConsistent (write_on bytes n v w)
  unfolding write_on
  write_on-IsConsistent bytes n v w i =
      if_intro IsConsistent (goes_on v w) (λ _. finish_writes-IsConsistent bytes n w i) (λ _. i)

  let_out-IsConsistent :
      (bytes : ℕ → ℕ) (n : ℕ) (p : Pipeline) (u w : World)
      → IsConsistent w
      → IsConsistent (let_out bytes n p u w)
  unfolding let_out run_posted
  let_out-IsConsistent bytes n silent u w i = write_on-IsConsistent bytes n u (run_posted u w) (
      if_intro IsConsistent (ltb (posts u.effects) (posts w.effects))
        (λ _. do_write-IsConsistent w i) (λ _. i))
  let_out-IsConsistent bytes n posted u w i =
      write_on-IsConsistent bytes n u (do_write w) (do_write-IsConsistent w i)
  let_out-IsConsistent bytes n under_way u w i = finish_writes-IsConsistent bytes n w i

  module _ (code message t : Text) (bytes : ℕ → ℕ) (n : ℕ) (w : World)
      (staying : is_closing w.session ≡ false)
      (room : length w.session.write_queue < max_write_queue_size)
      (enough : suc (length w.session.write_queue) < n) (fresh : w.session.close_initiated ≡ false)
      (text : serialize_error L (error_for L code message w.session.session_id) ≡ some t) where
    refuse-Delivered :
        (p : Pipeline)
        → w.session.writing ≡ is_busy p
        → Delivered
            (w.session.write_queue ++ t ∷ [])
            w
            (let_out bytes n p w (refuse L code message w))
    unfolding let_out run_posted emit posts
    refuse-Delivered silent b =
        let u : World = emit post_write w in
        let grown : ltb (posts w.effects) (suc (posts w.effects)) ≡ true = ground arith in
        rw (refuse_while_silent L code message t w staying room text b, grown)
          (answered_writes bytes n t w.session.write_queue w u (ground arith) fresh
            (unfold sent in refl) (omega arith))
    refuse-Delivered posted b = rw (refuse_while_writing L code message t w staying room text b) (
        answered_writes bytes n t w.session.write_queue w w (ground arith) fresh refl (omega arith))
    refuse-Delivered under_way b =
        rw (refuse_while_writing L code message t w staying room text b) (
          finish_writes_lem bytes n (w.session.write_queue ++ t ∷ []) w fresh (ground arith)
            (ground (arith, length-append w.session.write_queue (t ∷ []))))

    refuse-Answered :
        (p : Pipeline)
        → w.session.writing ≡ is_busy p
        → IsConsistent (refuse L code message w)
        → Answered t w (let_out bytes n p w (refuse L code message w))
    refuse-Answered p b i =
        let d = refuse-Delivered p b in
        record {
          delivered = d;
          released = (let_out-IsConsistent bytes n p w _ i).released (rw (d.state) refl);
        }

  -- When the timer of a consistent session that is not closing expires, the queue has room, the error
  -- can be serialized, and the pending writes succeed and end, as many as there are messages in the
  -- queue and two more: the client is sent all that was queued, in its order, and then the error
  -- that names the timeout of its state; the session is then closed with an empty queue, and its id
  -- is not registered. A session that writes waits for a do_write that was posted or for the end of
  -- a write; otherwise nothing but what the handler posts is run.
  pub expired_lem :
      (bytes : ℕ → ℕ) (n : ℕ) (p : Pipeline) (t : Text) (w : World)
      → IsConsistent w
      → is_closing w.session ≡ false
      → w.session.writing ≡ is_busy p
      → length w.session.write_queue < max_write_queue_size
      → suc (length w.session.write_queue) < n
      → serialize_error L (
          error_for L ErrorCodes.session_closed (timeout_text w.session.state) w.session.session_id)
        ≡ some t
      → Answered t w (let_out bytes n p w (on_deadline L expired w))
  unfolding on_deadline
  expired_lem bytes n p t w i staying busy room enough text =
      expires w.session.state (on_deadline-IsConsistent L default_limits expired w i) (ground arith)
        text
    where
      expires :
          (s : State)
          → IsConsistent (expire L s w)
          → is_closed s ≡ false
          → serialize_error L
              (error_for L ErrorCodes.session_closed (timeout_text s) w.session.session_id)
            ≡ some t
          → Answered t w (let_out bytes n p w (expire L s w))
      expires unauthenticated k o e =
          unfold expire in
          refuse-Answered _ _ t bytes n w staying room enough (not_begun w i staying) e p busy k
      expires authenticated k o e =
          unfold expire in
          refuse-Answered _ _ t bytes n w staying room enough (not_begun w i staying) e p busy k
      expires closed k o e = cc
