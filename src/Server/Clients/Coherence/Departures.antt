-- ===== src/Server/Clients/Coherence/Departures.antt =====
-- A client that is destroyed leaves the others in order.
use cppsim.Prelude.{ℕ, ◌≡◌, ◌≢◌, inl, inr, refl, Option, none, some, Text, ap, ◌∙◌, sym}
use cppsim.Json.{Floats, JsonLib}
use cppsim.Server.Manager.{Manager}
use cppsim.Server.RuntimeConfig.{Limits}
use cppsim.Server.Session.Events.{destroy}
use cppsim.Server.Session.Invariant.{Released}
use cppsim.Server.Session.Invariant.Steps.{destroy-Released}
use cppsim.Server.Session.Footprint.{found}
use cppsim.Server.Session.Footprint.Requests.{destroy-Uses}
use cppsim.Server.Clients.{Client, Clients, assign, view}
use cppsim.Server.Clients.Coherence.{IsCoherent, found_empty, assign_other, assign_cases}
use cppsim.Server.Clients.Coherence.Changes.{Member-seen}
use cppsim.Server.Clients.Coherence.Acts.{some_injective}

pub Released-found : (id : Text) (o : Option (Manager ℕ)) → Released id o → found id o ≡ none
Released-found id none r = refl
Released-found id (some m) r = r

module _ {F : Floats} (L : JsonLib F) (c : Limits) where
  -- The destructor takes the id of its session from the registry, and no other.
  left_gone :
      (i : ℕ) (x : Client) (s : Clients)
      → s.slot i ≡ some x
      → IsCoherent L c s
      → found x.session.session_id (destroy (view i s.registry x).1).manager ≡ none
  left_gone i x s at k =
      let (now, first, ok, past) = (k.member i x at).history in
      Released-found _ _ (destroy-Released L c now i first ok past).0

  left_found :
      (i j : ℕ) (x y : Client) (s : Clients)
      → s.slot i ≡ some x
      → s.slot j ≡ some y
      → j ≢ i
      → IsCoherent L c s
      → found y.session.session_id (destroy (view i s.registry x).1).manager
        ≡ found y.session.session_id s.registry
  left_found i j x y s at e ne k =
      let u = destroy-Uses (view i s.registry x).1 k.ok in
      elim (u.finds y.session.session_id) [
        | inl same ↦ same
        | inr (q, _) ↦ elim (k.distinct j i y x e at q) [
          | inl z ↦ absurd (ne z)
          | inr z ↦ rw z (found_empty _ u.ok ∙ sym (found_empty s.registry k.ok))
        ]
      ]

  pub left-IsCoherent :
      (i : ℕ) (x : Client) (s : Clients)
      → s.slot i ≡ some x
      → IsCoherent L c s
      → IsCoherent L c (record s {
        slot = assign i none s.slot;
        registry = (destroy (view i s.registry x).1).manager;
      })
  left-IsCoherent i x s at k =
      let o : Option (Manager ℕ) = (destroy (view i s.registry x).1).manager in
      let u = destroy-Uses (view i s.registry x).1 k.ok in
      record {
        ok = u.ok;
        member = λ j y q. elim (assign_cases i j none s.slot q) [
          | inl (_, z) ↦ cc
          | inr (ne, z) ↦
              Member-seen L c s.registry o s.stopped s.stopped j y u.ok u.later (λ h. h)
                (left_found i j x y s at z ne k) (k.member j y z)
        ];
        distinct = λ a b y z ea eb q. elim (assign_cases i a none s.slot ea) [
          | inl (_, p) ↦ cc
          | inr (_, p) ↦ elim (assign_cases i b none s.slot eb) [
            | inl (_, p') ↦ cc
            | inr (_, p') ↦ k.distinct a b y z p p' q
          ]
        ];
        owned = λ key h f. elim (u.finds key) [
          | inr (_, absent) ↦ cc
          | inl same ↦
              let (y, e, q) = k.owned key h (sym same ∙ f) in
              (
                y,
                assign_other i h none s.slot (λ p.
                      let y_is : y ≡ x = some_injective (sym e ∙ ap s.slot p ∙ at) in
                      cc (left_gone i x s at k, f, y_is, q))
                    ∙ e,
                q,
              )
        ];
      }
