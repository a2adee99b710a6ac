-- ===== src/Server/Clients/Coherence/Changes.antt =====
-- A step of one client, seen from the registry and from every other client.
use cppsim.Prelude.{
  ℕ, ◌≡◌, ◌≢◌, ◌⊎◌, inl, inr, Bool, false, [], Option, none, some, Text, is_empty, arith, ap, ◌∙◌,
  sym,
}
use cppsim.Json.{Floats, JsonLib}
use cppsim.Server.Manager.{Manager}
use cppsim.Server.RuntimeConfig.{Limits}
use cppsim.Server.Session.State.{is_closed}
use cppsim.Server.Session.Steps.{Phase, after, shared}
use cppsim.Server.Session.State.{World}
use cppsim.Server.Session.Invariant.{RegistryOk}
use cppsim.Server.Session.Footprint.{found, Later, Minds, still_open}
use cppsim.Server.Session.Footprint.Reads.{Joins}
use cppsim.Server.Clients.{Client, view}
use cppsim.Server.Clients.Turns.{Tame, Known, Known-Later, fresh_id, issued-Known, seen}
use cppsim.Server.Clients.Coherence.{Member}

-- The registry goes from o to o' by a step of client i, which has the id `id` before and `id'` after.
pub record Change (i : ℕ) (o o' : Option (Manager ℕ)) (id id' : Text) : Type 0 where
  pub ok : RegistryOk o'
  pub later : Later o o'
  pub names : (id' ≡ id) ⊎ ((id ≡ []) × ((j : Text) → Known o j → j ≢ id'))
  pub finds :
      (j : Text)
      → (found j o' ≡ found j o) ⊎ ((j ≡ id') × ((found j o' ≡ none) ⊎ (found j o' ≡ some i)))

-- The client itself after its step.
pub record After (i : ℕ) (s t : Phase × World) : Type 0 where
  pub self : t.1.self ≡ s.1.self
  pub known : Known t.1.manager t.1.session.session_id
  pub change : Change s.1.self s.1.manager t.1.manager s.1.session.session_id t.1.session.session_id
  pub listed :
      (is_closed s.1.session.state ≡ false
        → is_empty s.1.session.session_id ≡ false
        → found s.1.session.session_id s.1.manager ≡ some s.1.self)
      → is_closed t.1.session.state ≡ false
      → is_empty t.1.session.session_id ≡ false
      → found t.1.session.session_id t.1.manager ≡ some s.1.self

pub Minds-After :
    (i : ℕ) (s t : Phase × World)
    → RegistryOk s.1.manager
    → Known s.1.manager s.1.session.session_id
    → Minds s.1 t.1
    → After i s t
Minds-After i s t r k m =
    let u = m.registry r in
    let id = m.session_id in
    record {
      self = m.self;
      known = rw id (Known-Later s.1.manager t.1.manager _ u.later k);
      change = record {
        ok = u.ok;
        later = u.later;
        names = inl id;
        finds = λ j. rw id (ground (arith, u.finds j));
      };
      listed = λ before o e. rw id (m.kept o ∙ before (still_open m o) (ap is_empty (sym id) ∙ e));
    }

pub Joins-After :
    (i : ℕ) (s t : Phase × World)
    → Tame s.1.manager
    → Tame t.1.manager
    → s.1.session.session_id ≡ []
    → Joins s.1 t.1
    → After i s t
Joins-After i s t z z' n j =
    let h = j.enrols in
    record {
      self = h.self;
      known = issued-Known s.1.manager t.1.manager _ z z' h.issued;
      change = record {
        ok = h.ok;
        later = h.later;
        names = inr (n, λ k known. fresh_id _ _ _ k z z' h.named h.issued known);
        finds = λ k. ground (arith, h.others k, h.own);
      };
      listed = λ before o e. h.kept o;
    }

module _ {F : Floats} (L : JsonLib F) (c : Limits) where
  -- Where the registry holds for client j what it held, the client stays in order.
  pub Member-seen :
      (o o' : Option (Manager ℕ)) (b b' : Bool) (j : ℕ) (y : Client)
      → RegistryOk o'
      → Later o o'
      → (b' ≡ false → b ≡ false)
      → found y.session.session_id o' ≡ found y.session.session_id o
      → Member L c o b j y
      → Member L c o' b' j y
  Member-seen o o' b b' j y r l z f m = record {
    history = (
      m.history.0,
      m.history.1,
      m.history.2,
      after m.history.3
          (shared y.phase (view j o y).1 o' (seen y.session.session_id o o' r l (inl f))),
    );
    unnamed = m.unnamed;
    known = Known-Later o o' y.session.session_id l m.known;
    listed = λ run still e. f ∙ m.listed (z run) still e;
  }
