-- ===== src/Server/Clients/Coherence.antt =====
-- What holds of all clients and their registry between two turns.
pub mod Changes
pub mod Acts
pub mod Departures
pub mod Turns
use cppsim.Prelude.{
  ℕ, ◌==◌, ◌≡◌, ◌≢◌, ◌⊎◌, inl, inr, refl, Bool, true, false, List, [], Option, none, some, Text,
  is_empty, arith, Bool-cases, ==_iff, if◌then◌else◌,
}
use cppsim.Json.{Floats, JsonLib}
use cppsim.Server.Manager.{Manager}
use cppsim.Server.Manager.Invariant.{Inv, find_empty_key}
use cppsim.Server.RuntimeConfig.{Limits}
use cppsim.Server.Session.State.{is_closed}
use cppsim.Server.Session.Steps.{accepting, Reach}
use cppsim.Server.Session.Invariant.{RegistryOk}
use cppsim.Server.Session.Invariant.Steps.{new_world}
use cppsim.Server.Session.Footprint.{found}
use cppsim.Server.Clients.{Client, Clients, assign, view}
use cppsim.Server.Clients.Turns.{Unnamed, Known}

pub found_empty : (o : Option (Manager ℕ)) → RegistryOk o → found [] o ≡ none
found_empty none r = refl
found_empty (some m) r = find_empty_key m.sessions r.valid

pub assign_self : (i : ℕ) (o : Option Client) (f : ℕ → Option Client) → assign i o f i ≡ o
unfolding assign
assign_self i o f = rw ((==_iff i i).1 refl)

pub assign_other :
    (i j : ℕ) (o : Option Client) (f : ℕ → Option Client) → j ≢ i → assign i o f j ≡ f j
unfolding assign
assign_other i j o f ne = elim (Bool-cases (j == i)) [
  | inl e ↦ absurd (ne ((==_iff j i).0 e))
  | inr e ↦ rw e
]

-- The client in a slot after an assignment: the new one, or an old one elsewhere.
pub assign_cases :
    (i j : ℕ) (o : Option Client) (f : ℕ → Option Client) {y : Client}
    → assign i o f j ≡ some y
    → ((j ≡ i) × (o ≡ some y)) ⊎ ((j ≢ i) × (f j ≡ some y))
unfolding assign
assign_cases i j o f h = elim (Bool-cases (j == i)) [
  | inl e ↦ inl ((==_iff j i).0 e, rw e at h)
  | inr e ↦ inr (λ q. cc ((==_iff j i).1 q, e), rw e at h)
]

module _ {F : Floats} (L : JsonLib F) (c : Limits) where
  -- Client i has a history of its own, in which the others are steps of sharing. Its id was issued;
  -- until the stop, an open session that has an id is registered under it.
  pub record Member (o : Option (Manager ℕ)) (stopped : Bool) (i : ℕ) (x : Client) : Type 0 where
    pub history :
        (now : ℕ) × (m : Manager ℕ) × Inv m × Reach L c (accepting, new_world now i m) (view i o x)
    pub unnamed : Unnamed (view i o x)
    pub known : Known o x.session.session_id
    pub listed :
        stopped ≡ false
        → is_closed x.session.state ≡ false
        → is_empty x.session.session_id ≡ false
        → found x.session.session_id o ≡ some i

  -- No two clients have one id, and every entry of the registry is a client with its id.
  pub record IsCoherent (s : Clients) : Type 0 where
    pub ok : RegistryOk s.registry
    pub member : (i : ℕ) (x : Client) → s.slot i ≡ some x → Member s.registry s.stopped i x
    pub distinct :
        (i j : ℕ) (x y : Client)
        → s.slot i ≡ some x
        → s.slot j ≡ some y
        → x.session.session_id ≡ y.session.session_id
        → (i ≡ j) ⊎ (x.session.session_id ≡ [])
    pub owned :
        (k : Text) (i : ℕ)
        → found k s.registry ≡ some i
        → (x : Client) × (s.slot i ≡ some x) × (x.session.session_id ≡ k)
