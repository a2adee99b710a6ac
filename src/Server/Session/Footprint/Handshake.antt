-- ===== src/Server/Session/Footprint/Handshake.antt =====
-- A handshake registers its session under a new id, or takes no id at all.
use cppsim.Prelude.{
  ℕ, ◌≡◌, inl, inr, refl, Bool, true, false, Option, none, some, Text, if_intro, arith, is_empty,
  ◌∙◌, sym, text_eq, text_eq→eq, Bool-cases, ap, text_eq_refl,
}
use cppsim.Json.{Floats, JsonLib}
use cppsim.Protocol.Messages.{protocol_version_text, HandshakeMessage}
use cppsim.Server.SessionMap.{find, place, find-place}
use cppsim.Server.Manager.{Manager, register_session}
use cppsim.Server.Manager.Invariant.{Inv, register_session-Inv}
use cppsim.Server.Manager.Register.{Registered, register_session-Registered, valid_guards}
use cppsim.Server.Manager.Issues.{Issues, register_session-Issues}
use cppsim.Server.Session.State.{World, is_closed}
use cppsim.Server.Session.Output.{queue_message, refuse}
use cppsim.Server.Session.Handlers.{greeted, respond_handshake, welcome, admit, on_handshake}
use cppsim.Server.Session.Refusal.{refuse-Refused}
use cppsim.Server.Session.Invariant.{RegistryOk}
use cppsim.Server.Session.Invariant.Output.{queue_message-same}
use cppsim.Server.Session.Invariant.Handlers.{queue_message_open}
use cppsim.Server.Session.Footprint.{Minds, Minds-trans}
use cppsim.Server.Session.Footprint.Output.{close-Minds, queue_message-Minds, refuse-Minds}
use cppsim.Server.Session.Footprint.Enrolment.{
  Fit, Enrols, Settled, Enrolled, Outcome, Enrols-Minds, close_settles,
}

module _ {F : Floats} (L : JsonLib F) where
  pub refuse_settles : (code message : Text) (w : World) → Settled (refuse L code message w)
  refuse_settles code message w e =
      let c = (refuse-Refused L code message w).closing in ground arith

  greeted-Enrolled :
      (v : World) (r : World × Bool)
      → (r.1 ≡ true → is_closed r.0.session.state ≡ false)
      → Enrols v r.0
      → Enrolled v (greeted L r)
  unfolding greeted
  greeted-Enrolled v (w, true) o h = record {
    enrols = record {
      self = h.self;
      ok = h.ok;
      later = h.later;
      named = h.named;
      free = h.free;
      issued = h.issued;
      own = h.own;
      kept = λ _. h.kept (o refl);
      others = h.others;
    };
    settled = λ _ e. cc;
  }
  greeted-Enrolled v (w, false) o h = record {
    enrols = Enrols-Minds h (close-Minds w);
    settled = λ _. close_settles w;
  }

  respond_handshake-Enrolled :
      (v : World) (o : Option Text) (w : World) → Enrols v w → Enrolled v (respond_handshake L o w)
  unfolding respond_handshake
  respond_handshake-Enrolled v none w h = record { enrols = h; settled = λ e. cc }
  respond_handshake-Enrolled v (some t) w h =
      let same = queue_message-same t w in
      greeted-Enrolled v (queue_message t w)
        (λ q. ground (arith, same.state, queue_message_open t w q))
        (Enrols-Minds h (queue_message-Minds t w))

  -- What register_session has done.
  record Result (m : Manager ℕ) (s : ℕ) (r : Text × Manager ℕ) : Type 0 where
    registered : Registered s m.sessions r
    issues : Issues 3 m r
    ok : Inv r.1

  failed_find :
      (m : Manager ℕ) (w : World) (r : Text × Manager ℕ)
      → Result m w.self r
      → is_empty r.0 ≡ true
      → r.1.sessions ≡ m.sessions
  failed_find m w r h e = elim h.registered [
    | inl (_, same) ↦ same
    | inr (v, _, _, _) ↦ cc ((valid_guards r.0 v).0, e)
  ]

  failed-Minds :
      (m : Manager ℕ) (w : World) (r : Text × Manager ℕ)
      → Result m w.self r
      → is_empty r.0 ≡ true
      → Minds (record w { manager = some m }) (record w { manager = some r.1 })
  failed-Minds m w r h e = record {
    session_id = refl;
    self = refl;
    greets = λ q. q;
    closing = λ q. q;
    closed = λ q. q;
    kept = λ _. ap (find w.session.session_id) (failed_find m w r h e);
    registry = λ _. record {
      ok = h.ok;
      later = (h.issues.advances.low, h.issues.advances.fallback_low);
      finds = λ j. inl (rw (failed_find m w r h e));
    };
  }

  placed_find :
      (m m' : Manager ℕ) (id : Text) (i : ℕ)
      → find id m.sessions ≡ none
      → m'.sessions ≡ place id i m.sessions
      → find id m'.sessions ≡ some i
  placed_find m m' id i free q = rw q (find-place id id i m.sessions free ∙ (rw (text_eq_refl id)))

  placed-Enrols :
      (m : Manager ℕ) (w : World) (r : Text × Manager ℕ)
      → Result m w.self r
      → is_empty r.0 ≡ false
      → Enrols
          (record w { manager = some m })
          (record w { manager = some r.1; session = record (w.session) { session_id = r.0 } })
  placed-Enrols m w (id, m') h e = elim h.registered [
    | inl (q, _) ↦ cc (ap is_empty q, e)
    | inr (_, _, free, q) ↦ record {
      self = refl;
      ok = h.ok;
      later = (h.issues.advances.low, h.issues.advances.fallback_low);
      named = e;
      free = free;
      issued = h.issues.issued;
      own = inl (placed_find m m' id w.self free q);
      kept = λ _. placed_find m m' id w.self free q;
      others = λ j. elim (Bool-cases (text_eq id j)) [
        | inl same ↦ inr (sym (text_eq→eq id j same))
        | inr other ↦ inl (rw q (find-place j id w.self m.sessions free ∙ (rw other)))
      ];
    }
  ]

  welcome-Outcome :
      (m : Manager ℕ) (r : Text × Manager ℕ) (w : World)
      → Result m w.self r
      → Outcome (record w { manager = some m }) (welcome L r (record w { manager = some m }))
  unfolding welcome
  welcome-Outcome m (id, m') w h =
      if_intro (Outcome (record w { manager = some m })) (is_empty id)
        (λ e. inl (Minds-trans (failed-Minds m w (id, m') h e) (refuse-Minds L _ _ _)))
        (λ e. inr (respond_handshake-Enrolled _ _ _ (placed-Enrols m w (id, m') h e)))

  admit-Outcome :
      (draw : ℕ → Option ℕ) (o : Option (Manager ℕ)) (w : World)
      → RegistryOk o
      → Fit o
      → Outcome (record w { manager = o }) (admit L draw o (record w { manager = o }))
  unfolding admit
  admit-Outcome draw none w i f = inl (refuse-Minds L _ _ _)
  admit-Outcome draw (some m) w i f =
      welcome-Outcome m (register_session draw (some w.self) m) w (record {
        registered = register_session-Registered draw w.self m;
        issues = register_session-Issues draw w.self m f.0 f.1;
        ok = register_session-Inv draw (some w.self) m i;
      })

  pub on_handshake-Outcome :
      (draw : ℕ → Option ℕ) (o : Option HandshakeMessage) (w : World)
      → RegistryOk w.manager
      → Fit w.manager
      → Outcome w (on_handshake L draw o w)
  unfolding on_handshake
  on_handshake-Outcome draw none w i f = inl (refuse-Minds L _ _ w)
  on_handshake-Outcome draw (some m) w i f =
      if_intro (Outcome w) (text_eq m.protocol_version protocol_version_text)
        (λ _. admit-Outcome draw w.manager w i f) (λ _. inl (refuse-Minds L _ _ w))
