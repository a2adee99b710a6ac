-- ===== src/Server/Clients/Runs.antt =====
-- What holds of the clients of a server at any time.
use cppsim.Prelude.{ℕ, ◌≡◌, ◌⊎◌, inl, inr, false, [], some, Text, Bool-cases}
use cppsim.Json.{Floats, JsonLib}
use cppsim.Server.Manager.{Manager}
use cppsim.Server.Manager.Invariant.{Inv}
use cppsim.Server.RuntimeConfig.{Limits}
use cppsim.Server.Session.State.{is_closed}
use cppsim.Server.Session.Steps.{accepting, Reach}
use cppsim.Server.Session.Invariant.{IsConsistent}
use cppsim.Server.Session.Invariant.Steps.{new_world, session-IsConsistent}
use cppsim.Server.Session.Footprint.{found}
use cppsim.Server.Clients.{Client, Clients, no_clients, view, Run, here, after}
use cppsim.Server.Clients.Turns.{Tame}
use cppsim.Server.Clients.Coherence.{IsCoherent}
use cppsim.Server.Clients.Coherence.Turns.{Turn-IsCoherent, no_clients-IsCoherent}
use cppsim.Server.Clients.Coherence.Departures.{Released-found}

module _ {F : Floats} (L : JsonLib F) (c : Limits) where
  -- Throughout the run the counter of ids stays below 2 ^ 32, and the fallback never runs.
  abbrev pub StaysTame : {s t : Clients} → Run L c s t → Type 0
  StaysTame {s} here = Tame s.registry
  StaysTame (after {t} {u} r st) = StaysTame r × Tame u.registry

  last_Tame : {s t : Clients} (r : Run L c s t) → StaysTame r → Tame t.registry
  last_Tame here z = z
  last_Tame (after r st) z = z.1

  Run-IsCoherent :
      {s t : Clients} (r : Run L c s t) → StaysTame r → IsCoherent L c s → IsCoherent L c t
  Run-IsCoherent here z k = k
  Run-IsCoherent (after r st) z k =
      Turn-IsCoherent L c st (last_Tame r z.0) z.1 (Run-IsCoherent r z.0 k)

  pub coherent : {t : Clients} (r : Run L c no_clients t) → StaysTame r → IsCoherent L c t
  coherent r z = Run-IsCoherent r z (no_clients-IsCoherent L c)

  -- Starting with no clients, and while the counter of ids stays below 2 ^ 32 and the generator does
  -- not fall back: whatever all clients do, each client's session has come about by a history of its
  -- own, in which the others only use the registry as the session's own theorems suppose; it is
  -- consistent with the registry; and no other client has its id, unless that is empty.
  pub clients_refine :
      {t : Clients} (r : Run L c no_clients t) (i : ℕ) (x : Client)
      → StaysTame r
      → t.slot i ≡ some x
      → ((now : ℕ) × (m : Manager ℕ) × Inv m
          × Reach L c (accepting, new_world now i m) (view i t.registry x))
        × IsConsistent (view i t.registry x).1
        × ((j : ℕ) (y : Client)
            → t.slot j ≡ some y
            → x.session.session_id ≡ y.session.session_id
            → (i ≡ j) ⊎ (x.session.session_id ≡ []))
  clients_refine r i x z e =
      let k = coherent r z in
      let (now, m, ok, past) = (k.member i x e).history in
      (
        (now, m, ok, past),
        session-IsConsistent L c now i m ok past,
        λ j y e' q. k.distinct i j x y e e' q,
      )

  -- Under the same conditions every entry of the registry is an open client that has this id: no
  -- lookup ever finds a session that is closed or gone.
  pub registry_points_to_clients :
      {t : Clients} (r : Run L c no_clients t) (id : Text) (i : ℕ)
      → StaysTame r
      → found id t.registry ≡ some i
      → (x : Client) × (t.slot i ≡ some x)
        × (x.session.session_id ≡ id)
        × (is_closed x.session.state ≡ false)
  registry_points_to_clients {t} r id i z f =
      let k = coherent r z in
      let (x, e, q) = k.owned id i f in
      let (now, m, ok, past) = (k.member i x e).history in
      let consistent = session-IsConsistent L c now i m ok past in
      (
        x,
        e,
        q,
        elim (Bool-cases (is_closed x.session.state)) [
          | inl shut ↦
              cc (Released-found x.session.session_id t.registry (consistent.released shut), q, f)
          | inr still ↦ still
        ],
      )
