-- ===== src/Server/Session/Footprint.antt =====
-- What the handlers of a session may change in the registry that all sessions share.
pub mod Output
pub mod Requests
pub mod Enrolment
pub mod Handshake
pub mod Reads
use cppsim.Prelude.{
  ℕ, ◌≤◌, ◌≡◌, ◌⊎◌, inl, inr, refl, Bool, true, false, ◌||◌, List, [], ◌∷◌, Option, none, some,
  Text, if_intro, arith, ◌∙◌, sym, text_eq, text_eq→eq, Bool-cases, is_empty, is_some, ap, subst,
}
use cppsim.Json.{Floats, JsonLib}
use cppsim.Server.SessionMap.{find}
use cppsim.Server.Manager.{Manager, unregister_session, get_session}
use cppsim.Server.Manager.Invariant.{Inv, unregister_session-Inv, unregister_session_lem}
use cppsim.Server.Session.State.{
  State, authenticated, unauthenticated, closed, Session, World, is_closed, is_closing, emit,
  cancel_timer, tcp_close, async_close, Effect,
}
use cppsim.Server.Session.Output.{
  queue_message, unregister, finish_close, do_close, close, do_write, write_next, write_done,
  on_write, on_close, count_error, queue_error, send_protocol_error, refuse,
}
use cppsim.Server.Session.Invariant.{RegistryOk}
use cppsim.Server.Session.Invariant.Output.{queue_message-same, unregister_session_part}

-- The handle under an id, in the registry that the weak pointer finds.
abbrev pub found : Text → Option (Manager ℕ) → Option ℕ
found j none = none
found j (some m) = find j m.sessions

-- The counters of generated ids have not gone back.
abbrev pub Later : Option (Manager ℕ) → Option (Manager ℕ) → Type 0
Later none none = Unit {0}
Later none (some m') = ⊥
Later (some m) none = ⊥
Later (some m) (some m') =
    (m.counters.counter ≤ m'.counters.counter)
    × (m.counters.fallback_counter ≤ m'.counters.fallback_counter)

-- The registry o' is o, except that the id may be gone.
pub record Uses (id : Text) (o o' : Option (Manager ℕ)) : Type 0 where
  pub ok : RegistryOk o'
  pub later : Later o o'
  pub finds : (j : Text) → (found j o' ≡ found j o) ⊎ ((j ≡ id) × (found j o' ≡ none))

-- A handler leaves the id and the handle of its session, and of the registry at most takes that id
-- away, and that only if it closes the session.
pub record Minds (v w : World) : Type 0 where
  pub session_id : w.session.session_id ≡ v.session.session_id
  pub self : w.self ≡ v.self
  pub greets : w.session.state ≡ unauthenticated → v.session.state ≡ unauthenticated
  pub closing : is_closing v.session ≡ true → is_closing w.session ≡ true
  pub closed : is_closed v.session.state ≡ true → is_closed w.session.state ≡ true
  pub registry : RegistryOk v.manager → Uses v.session.session_id v.manager w.manager
  pub kept :
      is_closed w.session.state ≡ false
      → found v.session.session_id w.manager ≡ found v.session.session_id v.manager

pub Later-refl : (o : Option (Manager ℕ)) → Later o o
Later-refl none = tt
Later-refl (some m) = (omega arith, omega arith)

pub Later-trans : (o p q : Option (Manager ℕ)) → Later o p → Later p q → Later o q
Later-trans none none none h k = tt
Later-trans none none (some m) h k = k
Later-trans none (some m) q h k = absurd h
Later-trans (some m) none none h k = absurd h
Later-trans (some m) (some l) none h k = absurd k
Later-trans (some m) none (some n) h k = absurd h
Later-trans (some m) (some l) (some n) h k = (omega arith, omega arith)

pub Uses-refl : (id : Text) (o : Option (Manager ℕ)) → RegistryOk o → Uses id o o
Uses-refl id o r = record { ok = r; later = Later-refl o; finds = λ j. inl refl }

Uses-same : (id : Text) (o o' : Option (Manager ℕ)) → o' ≡ o → RegistryOk o → Uses id o o'
Uses-same id o o' e r = subst (Uses id o) (sym e) (Uses-refl id o r)

Uses-trans : (id : Text) (o p q : Option (Manager ℕ)) → Uses id o p → Uses id p q → Uses id o q
Uses-trans id o p q h k = record {
  ok = k.ok;
  later = Later-trans o p q h.later k.later;
  finds = λ j. ground (arith, h.finds j, k.finds j);
}

-- Where the registry and the state are untouched.
pub quiet :
    {v w : World}
    → w.session.session_id ≡ v.session.session_id
    → w.manager ≡ v.manager
    → w.self ≡ v.self
    → w.session.state ≡ v.session.state
    → (is_closing v.session ≡ true → is_closing w.session ≡ true)
    → Minds v w
quiet {v} {w} e m i s c = record {
  session_id = e;
  self = i;
  greets = λ h. sym s ∙ h;
  closing = c;
  closed = λ h. rw s h;
  registry = Uses-same v.session.session_id v.manager w.manager m;
  kept = λ _. ap (found v.session.session_id) m;
}

-- Where the session is closed, and the registry is untouched.
pub shut :
    {v w : World}
    → w.session.session_id ≡ v.session.session_id
    → w.manager ≡ v.manager
    → w.self ≡ v.self
    → w.session.state ≡ closed
    → Minds v w
shut {v} {w} e m i s = record {
  session_id = e;
  self = i;
  greets = λ h. cc;
  closing = λ _. rw s refl;
  closed = λ _. rw s refl;
  registry = Uses-same v.session.session_id v.manager w.manager m;
  kept = λ _. ap (found v.session.session_id) m;
}

pub Minds-refl : (w : World) → Minds w w
Minds-refl w = quiet refl refl refl refl (λ e. e)

pub still_open :
    {v w : World}
    → Minds v w
    → is_closed w.session.state ≡ false
    → is_closed v.session.state ≡ false
still_open {v} k o = elim (Bool-cases (is_closed v.session.state)) [
  | inl shut_before ↦ cc (k.closed shut_before, o)
  | inr e ↦ e
]

pub Minds-trans : {u v w : World} → Minds u v → Minds v w → Minds u w
Minds-trans {u} {v} {w} h k = record {
  session_id = k.session_id ∙ h.session_id;
  self = k.self ∙ h.self;
  greets = λ e. h.greets (k.greets e);
  closing = λ e. k.closing (h.closing e);
  closed = λ e. k.closed (h.closed e);
  registry = λ r.
      let p = h.registry r in
      Uses-trans u.session.session_id u.manager v.manager w.manager p
        (subst (λ id. Uses id v.manager w.manager) h.session_id (k.registry p.ok));
  kept = λ o.
      subst (λ id. found id w.manager ≡ found id v.manager) h.session_id (k.kept o)
      ∙ h.kept (still_open k o);
}

pub emit-Minds : (e : Effect) (w : World) → Minds w (emit e w)
unfolding emit
emit-Minds e w = quiet refl refl refl refl (λ h. h)

unregister_session-Uses :
    (id : Text) (m : Manager ℕ) → Inv m → Uses id (some m) (some (unregister_session id m))
unfolding get_session
unregister_session-Uses id m i = record {
  ok = unregister_session-Inv id m i;
  later = unfold unregister_session in ground arith;
  finds = λ j. elim (Bool-cases (text_eq id j)) [
    | inl same ↦ inr (sym (text_eq→eq id j same), (unregister_session_lem id j m i).0 ∙ (rw same))
    | inr other ↦ inl ((unregister_session_lem id j m i).0 ∙ (rw other))
  ];
}

pub unregister_at :
    (o : Option (Manager ℕ)) (w : World)
    → RegistryOk o
    → Uses w.session.session_id o (unregister (record w { manager = o })).manager
unfolding unregister
unregister_at none w r =
    if_intro (λ (v : World). Uses w.session.session_id none v.manager)
      (is_empty w.session.session_id) (λ _. Uses-refl _ none r) (λ _. Uses-refl _ none r)
unregister_at (some m) w r =
    if_intro (λ (v : World). Uses w.session.session_id (some m) v.manager)
      (is_empty w.session.session_id) (λ _. Uses-refl _ (some m) r)
      (λ _. unregister_session-Uses w.session.session_id m r)

-- Of a closed session: its id is taken away.
pub unregister-Minds : (w : World) → is_closed w.session.state ≡ true → Minds w (unregister w)
unregister-Minds w e =
    let same = unregister_session_part w in
    record {
      session_id = ap (λ (s : Session). s.session_id) same;
      self = unfold unregister in ground arith;
      greets = λ h. ap (λ (s : Session). s.state) (sym same) ∙ h;
      closing = λ h. ap is_closing same ∙ h;
      closed = λ h. ap (λ (s : Session). is_closed s.state) same ∙ h;
      registry = unregister_at w.manager w;
      kept = λ h. cc (ap (λ (s : Session). is_closed s.state) same, e, h);
    }
