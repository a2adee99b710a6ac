-- ===== src/Server/Session/Admission.antt =====
-- What a valid handshake does: on_read on its path without errors.
pub mod Welcome
use cppsim.Prelude.{
  ℕ, ◌+◌, ◌<◌, ◌≡◌, refl, ap, Bool, true, false, List, [], ◌∷◌, ◌++◌, Option, some, Text, arith,
  length, ℤ, subst, leb, is_empty, text_eq, if◌then◌else◌, if_intro, ◌∙◌, sym,
}
use cppsim.Json.{Floats, JsonLib}
use cppsim.Protocol.Messages.{HandshakeMessage, protocol_version_text}
use cppsim.Protocol.Parse.{parse_handshake, serialize_handshake_response}
use cppsim.Server.Config.{placeholder_seat, placeholder_stack, max_write_queue_size}
use cppsim.Server.Manager.{Manager, register_session, get_session}
use cppsim.Server.Manager.Register.{get_session-register_session}
use cppsim.Server.RuntimeConfig.{Limits}
use cppsim.Server.Session.State.{
  State, authenticated, unauthenticated, World, Effect, async_read, restart_timer, is_closed,
  is_closing, emit,
}
use cppsim.Server.Session.Output.{queue_message}
use cppsim.Server.Session.Traffic.{
  slide, window_of, check_rate_limit_or_close, check_suspicious_activity,
}
use cppsim.Server.Session.Handlers.{
  Exit, returned, threw, greeted, respond_handshake, welcome, admit, on_handshake,
  handle_handshake_message,
}
use cppsim.Server.Session.Events.{
  received, do_read, read_on, finish_read, dispatch, count_received, inspect, on_message, on_read,
}
use cppsim.Server.Session.Admission.Welcome.{
  Admitted, CanAdmit, Welcomes, handle_handshake_message-Welcomes,
}

module _ {F : Floats} (L : JsonLib F) where
  read_on-effects :
      (c : Limits) (w : World)
      → is_closing w.session ≡ false
      → ((read_on c w).effects ≡ async_read ∷ restart_timer c.ws_idle_timeout ∷ w.effects)
        × ((read_on c w).session ≡ w.session)
        × ((read_on c w).manager ≡ w.manager)
  unfolding read_on do_read emit
  read_on-effects c w h = ground arith

  -- Admitted, and the next read has begun.
  pub record IsPlaying (idle : ℤ) (queue : List Text) (id answer : Text) (m : Manager ℕ) (w : World)
      : Type 0 where
    pub admitted : Admitted queue id answer m w
    pub reads_on : (before : List Effect) × (w.effects ≡ async_read ∷ restart_timer idle ∷ before)

  finish_read-IsPlaying :
      (c : Limits) (queue : List Text) (id answer : Text) (m : Manager ℕ) (r : World × Exit)
      → Welcomes L queue id answer m r
      → IsPlaying c.ws_idle_timeout queue id answer m (finish_read L c r)
  unfolding finish_read
  finish_read-IsPlaying c queue id answer m (w, returned) h =
      let a = h.admitted in
      let (e, same, kept) = read_on-effects c w (rw (a.state, a.staying) refl) in
      record {
        admitted = record {
          state = rw same a.state;
          staying = rw same a.staying;
          session_id = rw same a.session_id;
          write_queue = rw same a.write_queue;
          manager = kept ∙ a.manager;
        };
        reads_on = (w.effects, e);
      }
  finish_read-IsPlaying c queue id answer m (w, threw) h = let e = h.ends in cc

  check_rate_limit-passes :
      (c : Limits) (now : ℕ) (w : World)
      → let kept = slide c.max_messages_per_window (window_of c) now w.session.message_timestamps in
        kept.1 ≡ false
        → check_rate_limit_or_close L c now w
          ≡ (record w { session = record (w.session) { message_timestamps = kept.0 } }, true)
  unfolding check_rate_limit_or_close
  check_rate_limit-passes c now w h = rw h refl

  inspect-IsPlaying :
      (c : Limits) (now : ℕ) (draw : ℕ → Option ℕ) (g : Manager ℕ) (t answer : Text) (w : World)
      → CanAdmit L draw g t answer w
      → (check_suspicious_activity now w).1 ≡ false
      → let r = register_session draw (some w.self) g in
        IsPlaying c.ws_idle_timeout w.session.write_queue r.0 answer r.1
          (inspect L c now draw unauthenticated t w)
  unfolding inspect dispatch check_suspicious_activity
  inspect-IsPlaying c now draw g t answer w a calm =
      let r = register_session draw (some w.self) g in
      let v : World = record w {
        session = record (w.session) {
          message_count = w.session.message_count + 1;
          last_activity = now;
        };
      } in
      let b : CanAdmit L draw g t answer v = record {
        state = a.state;
        staying = a.staying;
        room = a.room;
        message = a.message;
        parsed = a.parsed;
        version = a.version;
        manager = a.manager;
        registered = a.registered;
        answered = a.answered;
      } in
      if_intro (IsPlaying c.ws_idle_timeout w.session.write_queue r.0 answer r.1)
        (check_suspicious_activity now w).1 (λ burst. cc)
        (λ _.
          finish_read-IsPlaying c w.session.write_queue r.0 answer r.1
            (handle_handshake_message L draw t v)
            (handle_handshake_message-Welcomes L draw g t answer v b))

  -- An unauthenticated session that has room in its write queue and is not closing reads the text of
  -- a handshake of this server's version, within the rate limit and not in a burst, where the
  -- registry gives an id and the answer can be written out. Then it is authenticated under that id,
  -- with the answer as the last message to write; the timer is set to the idle limit and the next
  -- read has begun; and its registry finds the session under the id and every other id as before.
  pub on_read-IsPlaying :
      (c : Limits) (now : ℕ) (draw : ℕ → Option ℕ) (g : Manager ℕ) (t answer : Text) (w : World)
      (j : Text)
      → CanAdmit L draw g t answer w
      → (slide c.max_messages_per_window (window_of c) now w.session.message_timestamps).1 ≡ false
      → (check_suspicious_activity now w).1 ≡ false
      → let r = register_session draw (some w.self) g in
        IsPlaying c.ws_idle_timeout w.session.write_queue r.0 answer r.1
          (on_read L c now draw (received t) w)
        × (get_session j r.1 ≡ (if text_eq r.0 j then some w.self else get_session j g))
  unfolding on_read on_message count_received check_suspicious_activity
  on_read-IsPlaying c now draw g t answer w j a slow calm =
      let r = register_session draw (some w.self) g in
      let Q : World → Type 0 = IsPlaying c.ws_idle_timeout w.session.write_queue r.0 answer r.1 in
      let kept = slide c.max_messages_per_window (window_of c) now w.session.message_timestamps in
      let u : World = count_received L t w in
      let v : World = record u { session = record (u.session) { message_timestamps = kept.0 } } in
      let b : CanAdmit L draw g t answer v = record {
        state = a.state;
        staying = a.staying;
        room = a.room;
        message = a.message;
        parsed = a.parsed;
        version = a.version;
        manager = a.manager;
        registered = a.registered;
        answered = a.answered;
      } in
      let inspected : Q (on_message L c now draw unauthenticated t w) =
        subst
          (λ (p : World × Bool).
            Q (if p.1 then inspect L c now draw unauthenticated t p.0 else p.0))
          (sym (check_rate_limit-passes c now u slow))
          (inspect-IsPlaying c now draw g t answer v b calm) in
      (
        subst (λ (s : State). Q (if is_closed s then w else on_message L c now draw s t w))
            (sym a.state) inspected,
        (get_session-register_session draw w.self g j (λ e. cc (ap is_empty e, a.registered))).0,
      )
