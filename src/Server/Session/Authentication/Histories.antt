-- ===== src/Server/Session/Authentication/Histories.antt =====
-- What can authenticate a session in its whole history.
use cppsim.Prelude.{
  ℕ, ◌≡◌, ◌⊎◌, inl, inr, refl, true, false, Option, Text, if_intro, ◌∙◌, sym, subst,
}
use cppsim.Json.{Floats, JsonLib}
use cppsim.Server.Manager.{Manager}
use cppsim.Server.RuntimeConfig.{Limits}
use cppsim.Server.Session.State.{authenticated, World, emit}
use cppsim.Server.Session.Output.{do_write, on_write, on_close}
use cppsim.Server.Session.Events.{received, on_accept, on_deadline, request_close, close_on_strand}
use cppsim.Server.Session.Steps.{
  Phase, accepting, reading, Step, accepted, read, write_posted, written, timed, close_frame_sent,
  sent, close_asked, close_posted, shared, Reach, here, after,
}
use cppsim.Server.Session.State.{new_session}
use cppsim.Server.Session.Invariant.Steps.{new_world}
use cppsim.Server.Session.Invariant.Output.{queue_message-same}
use cppsim.Server.Session.Authentication.{
  Greets, Calm, do_close-Calm, on_write-Calm, do_write-Calm, on_accept-Calm,
}
use cppsim.Server.Session.Authentication.Reads.{
  Moves-reason, on_deadline-Calm, on_read-authenticated,
}

module _ {F : Floats} (L : JsonLib F) (c : Limits) where
  -- The text is one that a step of the history has read.
  pub data Heard (t : Text) : (s u : Phase × World) → Reach L c s u → Type 0 where
    now_heard :
        (s : Phase × World) (now : ℕ) (draw : ℕ → Option ℕ) (w : World)
        (r : Reach L c s (reading, w))
        → Heard t s _ (after r (read now draw (received t) w))
    before :
        (s u v : Phase × World) (r : Reach L c s u) (st : Step L c u v)
        → Heard t s u r
        → Heard t s v (after r st)

  abbrev Reason : (s v : Phase × World) → Reach L c s v → World → Type 0
  Reason s v r w = (w.session.state ≡ authenticated) ⊎ ((t : Text) × Heard t s v r × Greets L t)

  Calm-reason :
      (v w : World) (P : Type 0)
      → Calm v w
      → w.session.state ≡ authenticated
      → (v.session.state ≡ authenticated) ⊎ P
  Calm-reason v w P k = Moves-reason L P v w (inl k)

  Step-Reason :
      {s u v : Phase × World} (r : Reach L c s u) (st : Step L c u v)
      → v.1.session.state ≡ authenticated
      → Reason s v (after r st) u.1
  Step-Reason r (accepted b w) h = Calm-reason w (on_accept b w) _ (on_accept-Calm b w) h
  Step-Reason {s} r (read now draw e w) h = elim (on_read-authenticated L c now draw e w h) [
    | inl same ↦ inl same
    | inr (t, is, g) ↦ inr (
      t,
      subst (λ x. Heard t s _ (after r (read now draw x w))) (sym is) (now_heard s now draw w r),
      g,
    )
  ]
  Step-Reason r (write_posted p w) h = Calm-reason w (do_write w) _ (do_write-Calm w) h
  Step-Reason r (written p b n w) h = Calm-reason w (on_write b n w) _ (on_write-Calm b n w) h
  Step-Reason r (timed p e w) h = Calm-reason w (on_deadline L e w) _ (on_deadline-Calm L e w) h
  Step-Reason r (close_frame_sent p true w) h = inl (unfold on_close emit in h)
  Step-Reason r (close_frame_sent p false w) h = inl (unfold on_close in h)
  Step-Reason r (sent p t w) h = inl (sym (queue_message-same t w).state ∙ h)
  Step-Reason r (close_asked p w) h = inl (unfold request_close in h)
  Step-Reason r (close_posted p w) h =
      unfold close_on_strand in
      Calm-reason w (close_on_strand w) _
        (if_intro (Calm w) w.session.writing (λ _. inl refl) (λ _. do_close-Calm w)) h
  Step-Reason r (shared p w o k) h = inl h

  history-Reason :
      {s t : Phase × World} (r : Reach L c s t)
      → t.1.session.state ≡ authenticated
      → Reason s t r s.1
  history-Reason here h = inl h
  history-Reason {s} {t} (after {t = u} r st) h = elim (Step-Reason r st h) [
    | inr found ↦ inr found
    | inl e ↦ elim (history-Reason r e) [
      | inl first ↦ inl first
      | inr (x, heard, g) ↦ inr (x, before s u t r st heard, g)
    ]
  ]

  -- In every history of a new session that ends authenticated, the session has read the text of a
  -- handshake that parses and has this server's version.
  pub session_authenticated :
      (now self : ℕ) (m : Manager ℕ) {t : Phase × World}
      (r : Reach L c (accepting, new_world now self m) t)
      → t.1.session.state ≡ authenticated
      → (x : Text) × Heard x (accepting, new_world now self m) t r × Greets L x
  unfolding new_session
  session_authenticated now self m r h = elim (history-Reason r h) [
    | inl e ↦ cc
    | inr found ↦ found
  ]
