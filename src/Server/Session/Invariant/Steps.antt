-- ===== src/Server/Session/Invariant/Steps.antt =====
-- The invariant along every history of a session.
use cppsim.Prelude.{ℕ, ◌≡◌, refl, true, false, [], Option, none, some, Text, arith, if_intro, ◌∙◌}
use cppsim.Json.{Floats, JsonLib}
use cppsim.Server.Manager.{Manager}
use cppsim.Server.Manager.Invariant.{Inv}
use cppsim.Server.RuntimeConfig.{Limits}
use cppsim.Server.Session.State.{World, is_closing, is_closed, new_session, emit, cancel_timer}
use cppsim.Server.Session.Output.{queue_message, on_close, do_write, on_write}
use cppsim.Server.Session.Events.{
  on_accept, on_read, on_deadline, request_close, close_on_strand, destroy,
}
use cppsim.Server.Session.Steps.{
  Phase, next_phase, accepting, reading, idle, Shares, Step, accepted, read, write_posted, written,
  timed, close_frame_sent, sent, close_asked, close_posted, shared, Reach, here, after,
}
use cppsim.Server.Session.Invariant.{RegistryOk, Released, IsConsistent}
use cppsim.Server.Session.Invariant.Output.{
  queue_message-same, queue_message-IsConsistent, do_close-IsConsistent, do_write-IsConsistent,
  on_write-IsConsistent, unregister_registry,
}
use cppsim.Server.Session.Invariant.Identity.{
  KeepsId, do_close-KeepsId, on_write-KeepsId, do_write-KeepsId, on_deadline-KeepsId,
}
use cppsim.Server.Session.Invariant.Events.{
  on_accept-IsConsistent, on_read-IsConsistent, on_deadline-IsConsistent,
}

-- Before the first read there is no id.
abbrev pub Waiting : Phase → World → Type 0
Waiting accepting w = w.session.session_id ≡ []
Waiting reading w = Unit {0}
Waiting idle w = Unit {0}

abbrev pub new_world : ℕ → ℕ → Manager ℕ → World
new_world now self m = record {
  session = new_session now;
  manager = some m;
  self = self;
  effects = [];
}

Shares-registry :
    (id : Text) (o o' : Option (Manager ℕ)) → Shares id o o' → RegistryOk o → RegistryOk o'
Shares-registry id none none h r = tt
Shares-registry id (some m) none h r = tt
Shares-registry id none (some m') h r = absurd h
Shares-registry id (some m) (some m') h r = h.0

Shares-Released :
    (id : Text) (o o' : Option (Manager ℕ)) → Shares id o o' → Released id o → Released id o'
Shares-Released id none none h r = tt
Shares-Released id (some m) none h r = tt
Shares-Released id none (some m') h r = absurd h
Shares-Released id (some m) (some m') h r = ground arith

module _ {F : Floats} (L : JsonLib F) (c : Limits) where
  -- One step keeps the invariant; a session that still waits for its accept has no id.
  Step-IsConsistent :
      {s t : Phase × World} → Step L c s t → Waiting s.0 s.1 → IsConsistent s.1 → IsConsistent t.1
  Step-IsConsistent (accepted b w) h i = on_accept-IsConsistent b w h i
  Step-IsConsistent (read now draw r w) h i = on_read-IsConsistent L c now draw r w i
  Step-IsConsistent (write_posted p w) h i = do_write-IsConsistent w i
  Step-IsConsistent (written p b n w) h i = on_write-IsConsistent b n w i
  Step-IsConsistent (timed p r w) h i = on_deadline-IsConsistent L c r w i
  Step-IsConsistent (close_frame_sent p true w) h i =
      unfold on_close in record { sound = i.sound; registry = i.registry; released = i.released }
  Step-IsConsistent (close_frame_sent p false w) h i = unfold on_close in i
  Step-IsConsistent (sent p t w) h i = queue_message-IsConsistent t w i
  Step-IsConsistent (close_asked p w) h i =
      unfold request_close in
      record { sound = ground arith; registry = i.registry; released = i.released }
  Step-IsConsistent (close_posted p w) h i =
      unfold close_on_strand in
      if_intro IsConsistent w.session.writing (λ _. i) (λ _. do_close-IsConsistent w i)
  Step-IsConsistent (shared p w o h') h i = record {
    sound = i.sound;
    registry = Shares-registry w.session.session_id w.manager o h' i.registry;
    released = λ e. Shares-Released w.session.session_id w.manager o h' (i.released e);
  }

  Waiting-next : (v w : World) → Waiting (next_phase w) v
  Waiting-next v w = if_intro (λ p. Waiting p v) (is_closing w.session) (λ _. tt) (λ _. tt)

  Waiting-kept : (p : Phase) (v w : World) → KeepsId v w → Waiting p v → Waiting p w
  Waiting-kept accepting v w k h = k ∙ h
  Waiting-kept reading v w k h = tt
  Waiting-kept idle v w k h = tt

  Step-Waiting : {s t : Phase × World} → Step L c s t → Waiting s.0 s.1 → Waiting t.0 t.1
  Step-Waiting (accepted b w) h = Waiting-next (on_accept b w) (on_accept b w)
  Step-Waiting (read now draw r w) h =
      Waiting-next (on_read L c now draw r w) (on_read L c now draw r w)
  Step-Waiting (write_posted p w) h = Waiting-kept p w (do_write w) (do_write-KeepsId w) h
  Step-Waiting (written p b n w) h = Waiting-kept p w (on_write b n w) (on_write-KeepsId b n w) h
  Step-Waiting (timed p r w) h = Waiting-kept p w (on_deadline L r w) (on_deadline-KeepsId L r w) h
  Step-Waiting (close_frame_sent p true w) h =
      Waiting-kept p w (on_close true w) (unfold on_close in refl) h
  Step-Waiting (close_frame_sent p false w) h =
      Waiting-kept p w (on_close false w) (unfold on_close in refl) h
  Step-Waiting (sent p t w) h =
      Waiting-kept p w (queue_message t w).0 (queue_message-same t w).session_id h
  Step-Waiting (close_asked p w) h =
      Waiting-kept p w (request_close w) (unfold request_close in refl) h
  Step-Waiting (close_posted p w) h =
      Waiting-kept p w (close_on_strand w)
        (unfold close_on_strand in
          if_intro (KeepsId w) w.session.writing (λ _. refl) (λ _. do_close-KeepsId w))
        h
  Step-Waiting (shared p w o h') h = Waiting-kept p w (record w { manager = o }) refl h

  Reach-both :
      {s t : Phase × World}
      → Reach L c s t
      → Waiting s.0 s.1
      → IsConsistent s.1
      → Waiting t.0 t.1 × IsConsistent t.1
  Reach-both here h i = (h, i)
  Reach-both (after r st) h i =
      let (h', i') = Reach-both r h i in (Step-Waiting st h', Step-IsConsistent st h' i')

  -- After any history of a new session, with a registry that keeps its invariant at the start and at
  -- every use by other threads, who register no other session under this one's id: the write queue holds
  -- at most 100 messages; an open session that is not writing has an empty queue; a begun close has
  -- closed the session; the stack lies between 0 and the maximum; an authenticated session has an
  -- id; a closed session is not registered under its id; and the registry keeps its own invariant.
  pub session-IsConsistent :
      (now self : ℕ) (m : Manager ℕ) {t : Phase × World}
      → Inv m
      → Reach L c (accepting, new_world now self m) t
      → IsConsistent t.1
  session-IsConsistent now self m i r =
      (Reach-both r (unfold new_session in refl)
        (unfold new_session in record { sound = ground arith; registry = i; released = λ e. cc })).1

  -- Whatever happened to a new session, with a registry that keeps its invariant at the start and at
  -- every use by other threads, who register no other session under this one's id: once the session
  -- is destroyed, the registry does not hold its id, and still keeps its invariant.
  pub destroy-Released :
      (now self : ℕ) (m : Manager ℕ) {t : Phase × World}
      → Inv m
      → Reach L c (accepting, new_world now self m) t
      → let w = destroy t.1 in Released t.1.session.session_id w.manager × RegistryOk w.manager
  unfolding destroy
  destroy-Released now self m {t} i r =
      let k : IsConsistent t.1 = session-IsConsistent now self m i r in
      let w : World = emit cancel_timer t.1 in
      if_intro (λ (v : World). Released t.1.session.session_id v.manager × RegistryOk v.manager)
        (is_closed t.1.session.state) (λ e. unfold emit in (k.released e, k.registry))
        (λ _.
          let h = unregister_registry w (unfold emit in k.registry) in (unfold emit in h.1, h.0))
