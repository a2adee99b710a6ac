-- ===== src/Server/Session/Footprint/Reads.antt =====
-- A whole read, and every other step of a session.
use cppsim.Prelude.{
  ℕ, ◌≡◌, ◌⊎◌, inl, inr, refl, Bool, true, Option, none, some, Text, if_intro, sym, subst, ◌∙◌,
}
use cppsim.Json.{Floats, JsonLib}
use cppsim.Server.RuntimeConfig.{Limits}
use cppsim.Server.Session.State.{
  State, World, unauthenticated, authenticated, closed, is_closing, is_closed,
}
use cppsim.Server.Session.Traffic.{
  slide, window_of, check_rate_limit_or_close, check_suspicious_activity,
}
use cppsim.Server.Session.Handlers.{
  Exit, returned, threw, handle_handshake_message, handle_authenticated_message,
}
use cppsim.Server.Session.Events.{
  ReadResult, peer_closed, read_error, received, finish_read, dispatch, count_received, inspect,
  on_message, on_read,
}
use cppsim.Server.Session.Invariant.{RegistryOk}
use cppsim.Server.Session.Footprint.{Minds, quiet, Minds-refl, Minds-trans, found, Later}
use cppsim.Server.Session.Footprint.Output.{refuse-Minds}
use cppsim.Server.Session.Footprint.Requests.{drop_connection-Minds, read_on-Minds, on_header-Minds}
use cppsim.Server.Session.Footprint.Enrolment.{
  Fit, IssuedBetween, Enrols, Enrolled, Settled, Outcome, Enrols-Minds,
}
use cppsim.Server.Session.Footprint.Handshake.{refuse_settles, on_handshake-Outcome}

-- A step enrols an unauthenticated session, which is then authenticated or closing; or it minds its
-- own id.
pub record Joins (v w : World) : Type 0 where
  pub was : v.session.state ≡ unauthenticated
  pub enrols : Enrols v w
  pub settled : Settled w

abbrev pub Behaves : World → World → Type 0
Behaves v w = Minds v w ⊎ Joins v w

-- What comes before a handler runs: fields that the registry does not depend on.
record Same (u v : World) : Type 0 where
  session_id : v.session.session_id ≡ u.session.session_id
  state : v.session.state ≡ u.session.state
  closing : is_closing v.session ≡ is_closing u.session
  manager : v.manager ≡ u.manager
  self : v.self ≡ u.self

Same-Minds : {u v : World} → Same u v → Minds u v
Same-Minds s = quiet s.session_id s.manager s.self s.state (λ e. s.closing ∙ e)

Same-Enrols : {u v w : World} → Same u v → Enrols v w → Enrols u w
Same-Enrols {u} {v} {w} s h =
    let k = w.session.session_id in
    record {
      self = h.self ∙ s.self;
      ok = h.ok;
      later = subst (λ o. Later o w.manager) s.manager h.later;
      named = h.named;
      free = subst (λ o. found k o ≡ none) s.manager h.free;
      issued = subst (λ o. IssuedBetween o w.manager k) s.manager h.issued;
      own = subst (λ i. (found k w.manager ≡ some i) ⊎ (found k w.manager ≡ none)) s.self h.own;
      kept = λ o. subst (λ i. found k w.manager ≡ some i) s.self (h.kept o);
      others =
          subst (λ o. (j : Text) → (found j w.manager ≡ found j o) ⊎ (j ≡ k)) s.manager h.others;
    }

Same-Behaves : {u v w : World} → Same u v → Behaves v w → Behaves u w
Same-Behaves s (inl m) = inl (Minds-trans (Same-Minds s) m)
Same-Behaves s (inr j) =
    inr (record { was = sym s.state ∙ j.was; enrols = Same-Enrols s j.enrols; settled = j.settled })

-- A check that is passed leaves the rest to the handler.
record Checks (v : World) (r : World × Bool) : Type 0 where
  minds : Minds v r.0
  passed : r.1 ≡ true → Same v r.0

-- A registry in order, far from the wrap-around of its counters.
record IsReady (w : World) : Type 0 where
  ok : RegistryOk w.manager
  fit : Fit w.manager

Same-IsReady : {v w : World} → Same v w → IsReady v → IsReady w
Same-IsReady s r = record {
  ok = subst RegistryOk (sym s.manager) r.ok;
  fit = subst Fit (sym s.manager) r.fit;
}

Settled-kept : {v w : World} → Minds v w → Settled v → Settled w
Settled-kept m h e = m.closing (h (m.greets e))

module _ {F : Floats} (L : JsonLib F) (c : Limits) where
  finish_read-Minds : (v : World) (r : World × Exit) → Minds v r.0 → Minds v (finish_read L c r)
  unfolding finish_read
  finish_read-Minds v (w, returned) m = Minds-trans m (read_on-Minds c w)
  finish_read-Minds v (w, threw) m = Minds-trans m (refuse-Minds L _ _ w)

  finish_read-Joins :
      (v : World) (r : World × Exit)
      → v.session.state ≡ unauthenticated
      → Enrolled v r
      → Joins v (finish_read L c r)
  unfolding finish_read
  finish_read-Joins v (w, returned) e h = record {
    was = e;
    enrols = Enrols-Minds h.enrols (read_on-Minds c w);
    settled = Settled-kept (read_on-Minds c w) (h.settled refl);
  }
  finish_read-Joins v (w, threw) e h = record {
    was = e;
    enrols = Enrols-Minds h.enrols (refuse-Minds L _ _ w);
    settled = refuse_settles L _ _ w;
  }

  finish_read-Behaves :
      (v : World) (r : World × Exit)
      → v.session.state ≡ unauthenticated
      → Outcome v r
      → Behaves v (finish_read L c r)
  finish_read-Behaves v r e (inl m) = inl (finish_read-Minds v r m)
  finish_read-Behaves v r e (inr h) = inr (finish_read-Joins v r e h)

  dispatched :
      (draw : ℕ → Option ℕ) (s : State) (t : Text) (w : World)
      → w.session.state ≡ s
      → IsReady w
      → Behaves w (finish_read L c (dispatch L c draw s t w))
  unfolding dispatch handle_handshake_message handle_authenticated_message
  dispatched draw unauthenticated t w e r =
      finish_read-Behaves w _ e (on_handshake-Outcome L draw _ w r.ok r.fit)
  dispatched draw authenticated t w e r = inl (finish_read-Minds w _ (on_header-Minds L c _ w))
  dispatched draw closed t w e r = inl (finish_read-Minds w _ (on_header-Minds L c _ w))

  inspect-Behaves :
      (now : ℕ) (draw : ℕ → Option ℕ) (s : State) (t : Text) (w : World)
      → w.session.state ≡ s
      → IsReady w
      → Behaves w (inspect L c now draw s t w)
  unfolding inspect check_suspicious_activity
  inspect-Behaves now draw s t w e r =
      let v : World = (check_suspicious_activity now w).0 in
      let same : Same w v = record {
        session_id = refl;
        state = refl;
        closing = refl;
        manager = refl;
        self = refl;
      } in
      if_intro (Behaves w) (check_suspicious_activity now w).1
        (λ _. inl (Minds-trans (Same-Minds same) (refuse-Minds L _ _ v)))
        (λ _. Same-Behaves same (dispatched draw s t v e (Same-IsReady same r)))

  check_rate_limit-Checks : (now : ℕ) (w : World) → Checks w (check_rate_limit_or_close L c now w)
  unfolding check_rate_limit_or_close
  check_rate_limit-Checks now w =
      let q = slide c.max_messages_per_window (window_of c) now w.session.message_timestamps in
      let same : Same w (record w { session = record (w.session) { message_timestamps = q.0 } }) =
        record { session_id = refl; state = refl; closing = refl; manager = refl; self = refl } in
      if_intro (Checks w) q.1
        (λ _. record {
          minds = Minds-trans (Same-Minds same) (refuse-Minds L _ _ _);
          passed = λ e. cc;
        })
        (λ _. record { minds = Same-Minds same; passed = λ _. same })

  on_message-Behaves :
      (now : ℕ) (draw : ℕ → Option ℕ) (s : State) (t : Text) (w : World)
      → w.session.state ≡ s
      → IsReady w
      → Behaves w (on_message L c now draw s t w)
  unfolding on_message count_received
  on_message-Behaves now draw s t w e r =
      let v : World = count_received L t w in
      let counted : Same w v = record {
        session_id = refl;
        state = refl;
        closing = refl;
        manager = refl;
        self = refl;
      } in
      let k = check_rate_limit-Checks now v in
      Same-Behaves counted (
        if_intro (Behaves v) (check_rate_limit_or_close L c now v).1
          (λ ok.
            let same = k.passed ok in
            Same-Behaves same (
              inspect-Behaves now draw s t _ (same.state ∙ e)
                (Same-IsReady same (Same-IsReady counted r))))
          (λ _. inl k.minds))

  -- A read of a session, while the registry is in order and its counters far from their wrap-around,
  -- enrols an unauthenticated session under a new id, or takes at most its own id from the registry.
  pub on_read-Behaves :
      (now : ℕ) (draw : ℕ → Option ℕ) (r : ReadResult) (w : World)
      → RegistryOk w.manager
      → Fit w.manager
      → Behaves w (on_read L c now draw r w)
  unfolding on_read
  on_read-Behaves now draw peer_closed w i f = inl (
      if_intro (Minds w) (is_closed w.session.state) (λ _. Minds-refl w)
        (λ _. drop_connection-Minds w))
  on_read-Behaves now draw read_error w i f = inl (
      if_intro (Minds w) (is_closed w.session.state) (λ _. Minds-refl w)
        (λ _. drop_connection-Minds w))
  on_read-Behaves now draw (received t) w i f =
      if_intro (Behaves w) (is_closed w.session.state) (λ _. inl (Minds-refl w))
        (λ _. on_message-Behaves now draw w.session.state t w refl (record { ok = i; fit = f }))
