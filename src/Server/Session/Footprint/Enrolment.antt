-- ===== src/Server/Session/Footprint/Enrolment.antt =====
-- What it means that a handshake takes a new id for its session.
use cppsim.Prelude.{
  ℕ, ◌+◌, ◌^◌, ◌<◌, ◌≡◌, ◌⊎◌, inl, inr, refl, true, false, Option, none, some, Text, arith,
  is_empty, ◌∙◌,
}
use cppsim.Server.Manager.{Manager}
use cppsim.Server.Manager.Issues.{IssuedFrom}
use cppsim.Server.Session.State.{World, unauthenticated, is_closing, is_closed}
use cppsim.Server.Session.Output.{close}
use cppsim.Server.Session.Handlers.{Exit, returned}
use cppsim.Server.Session.Refusal.{close-Refused}
use cppsim.Server.Session.Invariant.{RegistryOk}
use cppsim.Server.Session.Footprint.{found, still_open, Later, Minds, Later-trans}

-- The counters are far from their wrap-around.
abbrev pub Fit : Option (Manager ℕ) → Type 0
Fit none = Unit {0}
Fit (some m) = (m.counters.counter + 3 < 2 ^ 64) × (m.counters.fallback_counter + 3 < 2 ^ 64)

-- The id was issued between two states of the registry.
abbrev pub IssuedBetween : Option (Manager ℕ) → Option (Manager ℕ) → Text → Type 0
IssuedBetween (some m) (some m') k = IssuedFrom m.counters m'.counters k
IssuedBetween none o k = ⊥
IssuedBetween (some m) none k = ⊥

-- The session has a new id, under which the registry has its handle, or nothing any more.
pub record Enrols (v w : World) : Type 0 where
  pub self : w.self ≡ v.self
  pub ok : RegistryOk w.manager
  pub later : Later v.manager w.manager
  pub named : is_empty w.session.session_id ≡ false
  pub free : found w.session.session_id v.manager ≡ none
  pub issued : IssuedBetween v.manager w.manager w.session.session_id
  pub own :
      (found w.session.session_id w.manager ≡ some v.self)
      ⊎ (found w.session.session_id w.manager ≡ none)
  pub kept : is_closed w.session.state ≡ false → found w.session.session_id w.manager ≡ some v.self
  pub others : (j : Text) → (found j w.manager ≡ found j v.manager) ⊎ (j ≡ w.session.session_id)

-- A session that has not been greeted is closing.
abbrev pub Settled : World → Type 0
Settled w = w.session.state ≡ unauthenticated → is_closing w.session ≡ true

pub record Enrolled (v : World) (r : World × Exit) : Type 0 where
  pub enrols : Enrols v r.0
  pub settled : r.1 ≡ returned → Settled r.0

abbrev pub Outcome : World → World × Exit → Type 0
Outcome v r = Minds v r.0 ⊎ Enrolled v r

IssuedBetween-Later :
    (o p q : Option (Manager ℕ)) (k : Text) → IssuedBetween o p k → Later p q → IssuedBetween o q k
IssuedBetween-Later none p q k i l = absurd i
IssuedBetween-Later (some m) none q k i l = absurd i
IssuedBetween-Later (some m) (some n) none k i l = absurd l
IssuedBetween-Later (some m) (some n) (some n') k (inl e) l = inl e
IssuedBetween-Later (some m) (some n) (some n') k (inr (inl h)) l = inr (inl (omega arith))
IssuedBetween-Later (some m) (some n) (some n') k (inr (inr (c, r, lo, hi, e))) l =
    inr (inr (c, r, lo, omega arith, e))

pub Enrols-Minds : {u v w : World} → Enrols u v → Minds v w → Enrols u w
Enrols-Minds {u} {v} {w} h k =
    let p = k.registry h.ok in
    let e = k.session_id in
    record {
      self = k.self ∙ h.self;
      ok = p.ok;
      later = Later-trans u.manager v.manager w.manager h.later p.later;
      named = rw e h.named;
      free = rw e h.free;
      issued = rw e (IssuedBetween-Later u.manager v.manager w.manager _ h.issued p.later);
      own = rw e (ground (arith, h.own, p.finds v.session.session_id));
      kept = λ o. rw e (k.kept o ∙ h.kept (still_open k o));
      others = λ j. rw e (ground (arith, h.others j, p.finds j));
    }

pub close_settles : (w : World) → Settled (close w)
close_settles w e =
    let c =
      (close-Refused w.session w
        (record { session_id = refl; sequence = refl; stack = refl; state = refl })).closing in
    ground arith
