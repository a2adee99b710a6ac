-- ===== src/Server/Session/Authentication/Reads.antt =====
-- What can authenticate a session in one read.
use cppsim.Prelude.{
  ℕ, ◌+◌, ◌≡◌, ◌⊎◌, inl, inr, refl, Bool, Option, some, Text, if◌then◌else◌, if_intro, ◌∙◌, sym,
  text_eq, text_eq→eq, Option-cases,
}
use cppsim.Json.{Floats, JsonLib}
use cppsim.Protocol.Messages.{protocol_version_text, HandshakeMessage}
use cppsim.Protocol.Parse.{parse_handshake}
use cppsim.Server.RuntimeConfig.{Limits}
use cppsim.Server.Session.State.{
  State, authenticated, unauthenticated, closed, World, is_closed, is_closing, emit,
}
use cppsim.Server.Session.Output.{refuse}
use cppsim.Server.Session.Traffic.{
  slide, window_of, check_rate_limit_or_close, check_suspicious_activity,
}
use cppsim.Server.Session.Handlers.{Exit, returned, threw, on_handshake, handle_handshake_message}
use cppsim.Server.Session.Events.{
  ReadResult, peer_closed, read_error, received, TimerResult, aborted, failed, expired, read_on,
  finish_read, dispatch, count_received, inspect, on_message, on_read, expire, on_deadline,
}
use cppsim.Server.Session.Refusal.{refuse-Refused}
use cppsim.Server.Session.Authentication.{
  Greets, Calm, Moves, Calm-trans, drop_connection-Calm, read_on-Calm,
}

module _ {F : Floats} (L : JsonLib F) where
  refuse-Calm : (code message : Text) (w : World) → Calm w (refuse L code message w)
  refuse-Calm code message w = (refuse-Refused L code message w).state

  expire-Calm : (s : State) (w : World) → Calm w (expire L s w)
  unfolding expire
  expire-Calm unauthenticated w = refuse-Calm _ _ w
  expire-Calm authenticated w = refuse-Calm _ _ w
  expire-Calm closed w = inl refl

  pub on_deadline-Calm : (r : TimerResult) (w : World) → Calm w (on_deadline L r w)
  unfolding on_deadline emit
  on_deadline-Calm aborted w =
      if_intro (Calm w) (is_closing w.session) (λ _. inl refl) (λ _. inl refl)
  on_deadline-Calm failed w =
      if_intro (Calm w) (is_closing w.session) (λ _. inl refl) (λ _. inl refl)
  on_deadline-Calm expired w = expire-Calm w.session.state w

  on_handshake-Moves :
      (draw : ℕ → Option ℕ) (t : Text) (w : World)
      → Moves (Greets L t) w (handle_handshake_message L draw t w).0
  unfolding handle_handshake_message on_handshake
  on_handshake-Moves draw t w = elim (Option-cases (parse_handshake L t)) [
    | inl e ↦ rw e (inl (refuse-Calm _ _ w))
    | inr (m, e) ↦ rw e (
        if_intro
          (λ (r : World × Exit).
            Calm w r.0
            ⊎ ((m' : HandshakeMessage) × (some m ≡ some m')
                × (m'.protocol_version ≡ protocol_version_text)))
          (text_eq m.protocol_version protocol_version_text)
          (λ v. inr (m, refl, text_eq→eq m.protocol_version protocol_version_text v))
          (λ _. inl (refuse-Calm _ _ w)))
  ]

  finish_read-Moves :
      (P : Type 0) (c : Limits) (v : World) (r : World × Exit)
      → Moves P v r.0
      → Moves P v (finish_read L c r)
  unfolding finish_read
  finish_read-Moves P c v r (inr p) = inr p
  finish_read-Moves P c v (w, returned) (inl h) =
      inl (Calm-trans v w (read_on c w) h (read_on-Calm c w))
  finish_read-Moves P c v (w, threw) (inl h) =
      inl (Calm-trans v w (finish_read L c (w, threw)) h (refuse-Calm _ _ w))

  inspect-Moves :
      (c : Limits) (now : ℕ) (draw : ℕ → Option ℕ) (t : Text) (w : World)
      → Moves (Greets L t) w (inspect L c now draw unauthenticated t w)
  unfolding inspect check_suspicious_activity dispatch
  inspect-Moves c now draw t w =
      let v : World = record w {
        session = record (w.session) {
          message_count = w.session.message_count + 1;
          last_activity = now;
        };
      } in
      if_intro (Moves (Greets L t) w) (check_suspicious_activity now w).1
        (λ _. inl (refuse-Calm _ _ v))
        (λ _.
          finish_read-Moves (Greets L t) c v (handle_handshake_message L draw t v)
            (on_handshake-Moves draw t v))

  check_rate_limit-Calm :
      (c : Limits) (now : ℕ) (w : World) → Calm w (check_rate_limit_or_close L c now w).0
  unfolding check_rate_limit_or_close
  check_rate_limit-Calm c now w =
      let q = slide c.max_messages_per_window (window_of c) now w.session.message_timestamps in
      if_intro (λ (r : World × Bool). Calm w r.0) q.1
        (λ _.
          refuse-Calm _ _ (record w { session = record (w.session) { message_timestamps = q.0 } }))
        (λ _. inl refl)

  after-Calm : (P : Type 0) (u v w : World) → Calm u v → Moves P v w → Moves P u w
  after-Calm P u v w h (inl k) = inl (Calm-trans u v w h k)
  after-Calm P u v w h (inr p) = inr p

  on_message-Moves :
      (c : Limits) (now : ℕ) (draw : ℕ → Option ℕ) (t : Text) (w : World)
      → Moves (Greets L t) w (on_message L c now draw unauthenticated t w)
  unfolding on_message count_received
  on_message-Moves c now draw t w =
      let v : World = count_received L t w in
      let r : World × Bool = check_rate_limit_or_close L c now v in
      let k : Calm w r.0 = check_rate_limit-Calm c now v in
      if_intro (Moves (Greets L t) w) r.1
        (λ _.
          after-Calm (Greets L t) w r.0 (inspect L c now draw unauthenticated t r.0) k
            (inspect-Moves c now draw t r.0))
        (λ _. inl k)

  -- The one read that authenticates.
  abbrev Admits : ReadResult → Type 0
  Admits r = (t : Text) × (r ≡ received t) × Greets L t

  text_by_state :
      (c : Limits) (now : ℕ) (draw : ℕ → Option ℕ) (t : Text) (s : State) (w : World)
      → Moves (Admits (received t)) w (if is_closed s then w else on_message L c now draw s t w)
        ⊎ (s ≡ authenticated)
  text_by_state c now draw t authenticated w = inr refl
  text_by_state c now draw t closed w = inl (inl (inl refl))
  text_by_state c now draw t unauthenticated w = elim (on_message-Moves c now draw t w) [
    | inl h ↦ inl (inl h)
    | inr g ↦ inl (inr (t, refl, g))
  ]

  pub Moves-reason :
      (P : Type 0) (v w : World)
      → Moves P v w
      → w.session.state ≡ authenticated
      → (v.session.state ≡ authenticated) ⊎ P
  Moves-reason P v w (inr p) h = inr p
  Moves-reason P v w (inl (inl e)) h = inl (sym e ∙ h)
  Moves-reason P v w (inl (inr e)) h = cc

  -- A read leaves a session authenticated only if it was so before, or if the read gave the text of
  -- a handshake that parses and has this server's version.
  pub on_read-authenticated :
      (c : Limits) (now : ℕ) (draw : ℕ → Option ℕ) (r : ReadResult) (w : World)
      → (on_read L c now draw r w).session.state ≡ authenticated
      → (w.session.state ≡ authenticated) ⊎ ((t : Text) × (r ≡ received t) × Greets L t)
  unfolding on_read
  on_read-authenticated c now draw peer_closed w h =
      Moves-reason (Admits peer_closed) w (on_read L c now draw peer_closed w)
        (if_intro (Moves (Admits peer_closed) w) (is_closed w.session.state) (λ _. inl (inl refl))
          (λ _. inl (drop_connection-Calm w)))
        h
  on_read-authenticated c now draw read_error w h =
      Moves-reason (Admits read_error) w (on_read L c now draw read_error w)
        (if_intro (Moves (Admits read_error) w) (is_closed w.session.state) (λ _. inl (inl refl))
          (λ _. inl (drop_connection-Calm w)))
        h
  on_read-authenticated c now draw (received t) w h =
      elim (text_by_state c now draw t w.session.state w) [
        | inl m ↦ Moves-reason (Admits (received t)) w (on_read L c now draw (received t) w) m h
        | inr e ↦ inl e
      ]
