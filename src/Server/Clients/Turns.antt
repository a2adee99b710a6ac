-- ===== src/Server/Clients/Turns.antt =====
-- What one step of a session does to the registry, and how the other clients see it.
use cppsim.Prelude.{
  ℕ, ◌^◌, ◌<◌, ◌≡◌, ◌≢◌, ◌⊎◌, inl, inr, true, false, [], Option, none, some, Text, arith, is_empty,
  ap, ◌∙◌, sym,
}
use cppsim.Json.{Floats, JsonLib}
use cppsim.Server.SessionIds.Unique.{generate_session_id_unique}
use cppsim.Server.Manager.{Manager}
use cppsim.Server.Manager.Fresh.{IsIssued}
use cppsim.Server.RuntimeConfig.{Limits}
use cppsim.Server.Session.State.{World, unauthenticated, is_closing}
use cppsim.Server.Session.Steps.{
  Phase, accepting, reading, idle, next_phase, Shares, Step, accepted, read, write_posted, written,
  timed, close_frame_sent, sent, close_asked, close_posted, shared,
}
use cppsim.Server.Session.Invariant.{RegistryOk}
use cppsim.Server.Session.Footprint.{found, Later, Minds}
use cppsim.Server.Session.Footprint.Output.{
  on_write-Minds, do_write-Minds, on_close-Minds, queue_message-Minds,
}
use cppsim.Server.Session.Footprint.Requests.{
  on_accept-Minds, on_deadline-Minds, request_close-Minds, close_on_strand-Minds,
}
use cppsim.Server.Session.Footprint.Enrolment.{Fit, IssuedBetween}
use cppsim.Server.Session.Footprint.Reads.{Joins, Behaves, on_read-Behaves}
use cppsim.Server.Clients.{IsOwn}

-- The counter of ids has not passed 2 ^ 32, and the fallback of the generator has never run.
abbrev pub Tame : Option (Manager ℕ) → Type 0
Tame none = Unit {0}
Tame (some m) = (m.counters.counter < 2 ^ 32) × (m.counters.fallback_counter ≡ 0)

pub Tame-Fit : (o : Option (Manager ℕ)) → Tame o → Fit o
Tame-Fit none h = tt
Tame-Fit (some m) h = (omega arith, omega arith)

-- A client that still waits for its accept or for a message, and is not greeted, has no id.
abbrev pub Unnamed : Phase × World → Type 0
Unnamed (p, w) = p ≢ idle → w.session.state ≡ unauthenticated → w.session.session_id ≡ []

-- The id is empty, or it was issued before.
abbrev pub Known : Option (Manager ℕ) → Text → Type 0
Known none k = Unit {0}
Known (some m) k = (k ≡ []) ⊎ IsIssued m.counters.counter k

-- An id that was issued just now was not known.
pub fresh_id :
    (o o' : Option (Manager ℕ)) (k j : Text)
    → Tame o
    → Tame o'
    → is_empty k ≡ false
    → IssuedBetween o o' k
    → Known o j
    → j ≢ k
fresh_id none o' k j t t' e i h q = absurd i
fresh_id (some m) none k j t t' e i h q = absurd i
fresh_id (some m) (some m') k j t t' e (inl z) h q = cc (ap is_empty z, e)
fresh_id (some m) (some m') k j t t' e (inr (inl z)) h q = absurd (omega arith)
fresh_id (some m) (some m') k j t t' e (inr (inr (d, r, lo, hi, p))) (inl z) q =
    cc (ap is_empty (sym q ∙ z), e)
fresh_id (some m) (some m') k j t t' e (inr (inr (d, r, lo, hi, p))) (inr (b, r', below, p')) q =
    generate_session_id_unique b d r' r (omega arith) (omega arith) (omega arith) (sym p' ∙ q ∙ p)

pub issued-Known :
    (o o' : Option (Manager ℕ)) (k : Text) → Tame o → Tame o' → IssuedBetween o o' k → Known o' k
issued-Known none o' k t t' i = absurd i
issued-Known (some m) none k t t' i = tt
issued-Known (some m) (some m') k t t' (inl z) = inl z
issued-Known (some m) (some m') k t t' (inr (inl z)) = absurd (omega arith)
issued-Known (some m) (some m') k t t' (inr (inr (d, r, lo, hi, p))) = inr (d, r, hi, p)

pub Known-Later : (o o' : Option (Manager ℕ)) (k : Text) → Later o o' → Known o k → Known o' k
Known-Later none none k l h = tt
Known-Later none (some m) k l h = absurd l
Known-Later (some m) none k l h = tt
Known-Later (some m) (some m') k l (inl e) = inl e
Known-Later (some m) (some m') k l (inr (d, r, below, p)) = inr (d, r, omega arith, p)

-- How a client whose id is untouched, or gone, sees a change of the registry.
pub seen :
    (id : Text) (o o' : Option (Manager ℕ))
    → RegistryOk o'
    → Later o o'
    → (found id o' ≡ found id o) ⊎ (found id o' ≡ none)
    → Shares id o o'
seen id none none r l f = tt
seen id none (some m') r l f = absurd l
seen id (some m) none r l f = absurd l
seen id (some m) (some m') r l f = (r, f)

-- A step of its own: what it does to the registry, and to the phase.
pub record Moves (s t : Phase × World) : Type 0 where
  pub behaves : Minds s.1 t.1 ⊎ (Joins s.1 t.1 × (s.0 ≢ idle))
  pub unnamed : Unnamed s → Unnamed t

named_by : (s t : Phase × World) → Minds s.1 t.1 → (t.0 ≢ idle → s.0 ≢ idle) → Moves s t
named_by s t m h = record {
  behaves = inl m;
  unnamed = λ u busy e. m.session_id ∙ u (h busy) (m.greets e);
}

next_phase-settled : (w : World) → is_closing w.session ≡ true → next_phase w ≡ idle
next_phase-settled w e = rw e

reading-ne-idle : reading ≢ idle
reading-ne-idle e = cc

accepting-ne-idle : accepting ≢ idle
accepting-ne-idle e = cc

module _ {F : Floats} (L : JsonLib F) (c : Limits) where
  read-Moves :
      (now : ℕ) (draw : ℕ → Option ℕ) (v w : World)
      → Behaves v w
      → Moves (reading, v) (next_phase w, w)
  read-Moves now draw v w (inl m) = named_by _ _ m (λ _. reading-ne-idle)
  read-Moves now draw v w (inr j) = record {
    behaves = inr (j, reading-ne-idle);
    unnamed = λ u busy e. absurd (busy (next_phase-settled w (j.settled e)));
  }

  pub Step-Moves :
      {s t : Phase × World} (st : Step L c s t)
      → IsOwn L c st
      → RegistryOk s.1.manager
      → Fit s.1.manager
      → Moves s t
  Step-Moves (accepted b w) own r f = named_by _ _ (on_accept-Minds b w) (λ _. accepting-ne-idle)
  Step-Moves (read now draw e w) own r f =
      read-Moves now draw w _ (on_read-Behaves L c now draw e w r f)
  Step-Moves (write_posted p w) own r f = named_by _ _ (do_write-Minds w) (λ h. h)
  Step-Moves (written p b n w) own r f = named_by _ _ (on_write-Minds b n w) (λ h. h)
  Step-Moves (timed p e w) own r f = named_by _ _ (on_deadline-Minds L e w) (λ h. h)
  Step-Moves (close_frame_sent p b w) own r f = named_by _ _ (on_close-Minds b w) (λ h. h)
  Step-Moves (sent p t w) own r f = named_by _ _ (queue_message-Minds t w) (λ h. h)
  Step-Moves (close_asked p w) own r f = named_by _ _ (request_close-Minds w) (λ h. h)
  Step-Moves (close_posted p w) own r f = named_by _ _ (close_on_strand-Minds w) (λ h. h)
  Step-Moves (shared p w o h) own r f = absurd own
