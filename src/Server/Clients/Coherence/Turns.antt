-- ===== src/Server/Clients/Coherence/Turns.antt =====
-- Clients that come and go, and the stop of the server, keep all clients in order.
use cppsim.Prelude.{
  ℕ, ◌≡◌, inl, inr, refl, Bool, true, [], Option, none, some, Text, arith, ap, ◌∙◌, subst,
}
use cppsim.Json.{Floats, JsonLib}
use cppsim.Server.SessionMap.{find}
use cppsim.Server.Manager.{Manager, get_session, stop_all}
use cppsim.Server.Manager.Invariant.{stop_all_lem}
use cppsim.Server.RuntimeConfig.{Limits}
use cppsim.Server.Session.State.{new_session}
use cppsim.Server.Session.Steps.{Shares, here, after, shared}
use cppsim.Server.Session.Invariant.{RegistryOk}
use cppsim.Server.Session.Footprint.{found, Later}
use cppsim.Server.Clients.{
  Client, Clients, assign, new_client, view, no_clients, Turn, joined, acted, left, halted, gone,
}
use cppsim.Server.Clients.Turns.{Tame, Known, Known-Later}
use cppsim.Server.Clients.Coherence.{Member, IsCoherent, assign_other, assign_cases}
use cppsim.Server.Clients.Coherence.Acts.{acted-IsCoherent}
use cppsim.Server.Clients.Coherence.Departures.{left-IsCoherent}

Known-empty : (o : Option (Manager ℕ)) → Known o []
Known-empty none = tt
Known-empty (some m) = inl refl

Shares-none : (id : Text) (o : Option (Manager ℕ)) → Shares id o none
Shares-none id none = tt
Shares-none id (some m) = tt

stop_all-found : (m : Manager ℕ) (k : Text) → found k (some (stop_all m).1) ≡ none
unfolding get_session
stop_all-found m k = (stop_all_lem m k).2

Shares-stop_all :
    (id : Text) (o : Option (Manager ℕ)) (m : Manager ℕ)
    → o ≡ some m
    → Shares id o (some (stop_all m).1)
Shares-stop_all id none m e = cc
Shares-stop_all id (some n) m e = ((stop_all_lem m id).3, inr (stop_all-found m id))

Later-stop_all :
    (o : Option (Manager ℕ)) (m : Manager ℕ) → o ≡ some m → Later o (some (stop_all m).1)
unfolding stop_all
Later-stop_all none m e = cc
Later-stop_all (some n) m e = let p : n ≡ m = cc in rw p (omega arith, omega arith)

new_id : (now : ℕ) {y : Client} → some (new_client now) ≡ some y → y.session.session_id ≡ []
unfolding new_session
new_id now e = ground arith

module _ {F : Floats} (L : JsonLib F) (c : Limits) where
  new_member :
      (i now : ℕ) (m : Manager ℕ) (o : Option (Manager ℕ)) (b : Bool)
      → o ≡ some m
      → RegistryOk o
      → Member L c o b i (new_client now)
  unfolding new_session
  new_member i now m o b e r = rw e (record {
    history = (now, m, rw e at r, here);
    unnamed = λ busy q. refl;
    known = inl refl;
    listed = λ run still z. cc;
  })

  joined-IsCoherent :
      (i now : ℕ) (m : Manager ℕ) (s : Clients)
      → s.slot i ≡ none
      → s.registry ≡ some m
      → IsCoherent L c s
      → IsCoherent L c (record s { slot = assign i (some (new_client now)) s.slot })
  joined-IsCoherent i now m s free e k = record {
    ok = k.ok;
    member = λ j y q. elim (assign_cases i j (some (new_client now)) s.slot q) [
      | inl (p, z) ↦
          let y_new : new_client now ≡ y = cc in
          rw p (
            subst (Member L c s.registry s.stopped i) y_new
              (new_member i now m s.registry s.stopped e k.ok))
      | inr (ne, z) ↦ k.member j y z
    ];
    distinct = λ a b y z ea eb q. elim (assign_cases i a (some (new_client now)) s.slot ea) [
      | inl (_, p) ↦ inr (new_id now p)
      | inr (_, p) ↦ elim (assign_cases i b (some (new_client now)) s.slot eb) [
        | inl (_, p') ↦ inr (q ∙ new_id now p')
        | inr (_, p') ↦ k.distinct a b y z p p' q
      ]
    ];
    owned = λ key h f.
        let (y, at, q) = k.owned key h f in
        (y, assign_other i h _ s.slot (λ p. cc (ap s.slot p, at, free)) ∙ at, q);
  }

  halted-IsCoherent :
      (m : Manager ℕ) (s : Clients)
      → s.registry ≡ some m
      → IsCoherent L c s
      → IsCoherent L c (record s { registry = some (stop_all m).1; stopped = true })
  halted-IsCoherent m s e k = record {
    ok = (stop_all_lem m []).3;
    member = λ j y at.
        let old = k.member j y at in
        let (now, first, ok, past) = old.history in
        record {
          history = (
            now,
            first,
            ok,
            after past (
                shared y.phase (view j s.registry y).1 (some (stop_all m).1)
                  (Shares-stop_all y.session.session_id s.registry m e)),
          );
          unnamed = old.unnamed;
          known =
              Known-Later s.registry _ y.session.session_id (Later-stop_all s.registry m e)
                old.known;
          listed = λ run. cc;
        };
    distinct = k.distinct;
    owned = λ key h f. cc (stop_all-found m key, f);
  }

  gone-IsCoherent :
      (s : Clients)
      → IsCoherent L c s
      → IsCoherent L c (record s { registry = none; stopped = true })
  gone-IsCoherent s k = record {
    ok = tt;
    member = λ j y at.
        let old = k.member j y at in
        let (now, first, ok, past) = old.history in
        record {
          history = (
            now,
            first,
            ok,
            after past (
                shared y.phase (view j s.registry y).1 none
                  (Shares-none y.session.session_id s.registry)),
          );
          unnamed = old.unnamed;
          known = tt;
          listed = λ run. cc;
        };
    distinct = k.distinct;
    owned = λ key h f. cc;
  }

  -- Every turn keeps all clients in order, if no counter has passed 2 ^ 32 before or after.
  pub Turn-IsCoherent :
      {s t : Clients}
      → Turn L c s t
      → Tame s.registry
      → Tame t.registry
      → IsCoherent L c s
      → IsCoherent L c t
  Turn-IsCoherent (joined i now m s free e) z z' k = joined-IsCoherent i now m s free e k
  Turn-IsCoherent (acted i x t s at st own) z z' k = acted-IsCoherent L c i x t s at st own z z' k
  Turn-IsCoherent (left i x s at) z z' k = left-IsCoherent L c i x s at k
  Turn-IsCoherent (halted m s e) z z' k = halted-IsCoherent m s e k
  Turn-IsCoherent (gone s) z z' k = gone-IsCoherent s k

  pub no_clients-IsCoherent : IsCoherent L c no_clients
  no_clients-IsCoherent = record {
    ok = record { sorted = tt; bounded = omega arith; valid = tt };
    member = λ i x e. cc;
    distinct = λ i j x y e e' q. cc;
    owned = λ k i e. unfold find in cc;
  }
