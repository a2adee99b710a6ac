-- ===== src/Server/Clients/Coherence/Acts.antt =====
-- A step of one client keeps all clients in order.
use cppsim.Prelude.{
  ℕ, ◌==◌, ◌≡◌, ◌≢◌, ◌⊎◌, inl, inr, [], Option, some, Text, arith, ap, ◌∙◌, sym, subst, Bool-cases,
  ==_iff,
}
use cppsim.Json.{Floats, JsonLib}
use cppsim.Server.RuntimeConfig.{Limits}
use cppsim.Server.Session.State.{World, unauthenticated}
use cppsim.Server.Session.Steps.{Phase, accepting, idle, Step, Reach, after}
use cppsim.Server.Session.Invariant.{RegistryOk}
use cppsim.Server.Session.Invariant.Steps.{new_world}
use cppsim.Server.Session.Footprint.{found}
use cppsim.Server.Clients.{Client, Clients, assign, view, client_of, IsOwn}
use cppsim.Server.Clients.Turns.{Tame, Tame-Fit, Known, Moves, Step-Moves}
use cppsim.Server.Clients.Coherence.{
  Member, IsCoherent, found_empty, assign_self, assign_other, assign_cases,
}
use cppsim.Server.Clients.Coherence.Changes.{Change, After, Minds-After, Joins-After, Member-seen}

Moves-After :
    (i : ℕ) (s t : Phase × World)
    → Tame s.1.manager
    → Tame t.1.manager
    → RegistryOk s.1.manager
    → Known s.1.manager s.1.session.session_id
    → (s.0 ≢ idle → s.1.session.state ≡ unauthenticated → s.1.session.session_id ≡ [])
    → Moves s t
    → After i s t
Moves-After i s t z z' r k u m = elim m.behaves [
  | inl minds ↦ Minds-After i s t r k minds
  | inr (joins, busy) ↦ Joins-After i s t z z' (u busy joins.was) joins
]

abbrev pub id_of : Client → Text
id_of x = x.session.session_id

pub some_injective : {y z : Client} → some y ≡ some z → y ≡ z
some_injective e = cc

module _ {F : Floats} (L : JsonLib F) (c : Limits) (i : ℕ) (x : Client) (t : Phase × World)
    (s : Clients) (at : s.slot i ≡ some x) (k : IsCoherent L c s)
    (ch : Change i s.registry t.1.manager x.session.session_id t.1.session.session_id) where
  -- The entry of another client stays.
  other_found :
      (j : ℕ) (y : Client)
      → s.slot j ≡ some y
      → j ≢ i
      → found y.session.session_id t.1.manager ≡ found y.session.session_id s.registry
  other_found j y e ne = elim (ch.finds y.session.session_id) [
    | inl same ↦ same
    | inr (q, _) ↦ elim ch.names [
      | inl kept ↦ elim (k.distinct j i y x e at (q ∙ kept)) [
        | inl z ↦ absurd (ne z)
        | inr z ↦ rw z (found_empty t.1.manager ch.ok ∙ sym (found_empty s.registry k.ok))
      ]
      | inr (_, fresh) ↦ absurd (fresh y.session.session_id (k.member j y e).known q)
    ]
  ]

  -- Of another client and this one.
  distinct_from :
      (j : ℕ) (y : Client)
      → s.slot j ≡ some y
      → j ≢ i
      → y.session.session_id ≡ t.1.session.session_id
      → y.session.session_id ≡ []
  distinct_from j y e ne q = elim ch.names [
    | inl kept ↦ elim (k.distinct j i y x e at (q ∙ kept)) [ inl z ↦ absurd (ne z) | inr z ↦ z ]
    | inr (_, fresh) ↦ absurd (fresh y.session.session_id (k.member j y e).known q)
  ]

  abbrev slots : ℕ → Option Client
  slots = assign i (some (client_of t)) s.slot

  distinct_after :
      (a b : ℕ) (y z : Client)
      → slots a ≡ some y
      → slots b ≡ some z
      → y.session.session_id ≡ z.session.session_id
      → (a ≡ b) ⊎ (y.session.session_id ≡ [])
  distinct_after a b y z ea eb q = elim (assign_cases i a (some (client_of t)) s.slot ea) [
    | inl (pa, qa) ↦ elim (assign_cases i b (some (client_of t)) s.slot eb) [
      | inl (pb, qb) ↦ inl (pa ∙ sym pb)
      | inr (nb, qb) ↦
          inr
            (let e : client_of t ≡ y = cc in q ∙ distinct_from b z qb nb (sym q ∙ sym (ap id_of e)))
    ]
    | inr (na, qa) ↦ elim (assign_cases i b (some (client_of t)) s.slot eb) [
      | inl (pb, qb) ↦
          inr (let e : client_of t ≡ z = cc in distinct_from a y qa na (q ∙ sym (ap id_of e)))
      | inr (nb, qb) ↦ k.distinct a b y z qa qb q
    ]
  ]

  owned_after :
      (key : Text) (h : ℕ)
      → found key t.1.manager ≡ some h
      → (y : Client) × (slots h ≡ some y) × (y.session.session_id ≡ key)
  owned_after key h f = elim (ch.finds key) [
    | inl same ↦
        let (y, e, q) = k.owned key h (sym same ∙ f) in
        elim (Bool-cases (h == i)) [
          | inl z ↦
              (let p : h ≡ i = (==_iff h i).0 z in
                let same_client : y ≡ x = some_injective (sym e ∙ ap s.slot p ∙ at) in
                elim ch.names [
                  | inl kept ↦ (
                    client_of t,
                    rw p (assign_self i (some (client_of t)) s.slot),
                    kept ∙ sym (ap id_of same_client) ∙ q,
                  )
                  | inr (none_yet, _) ↦
                      let no_key : key ≡ [] = sym q ∙ ap id_of same_client ∙ none_yet in
                      cc (
                        ap (λ id. found id s.registry) no_key,
                        found_empty s.registry k.ok,
                        same,
                        f,
                      )
                ])
          | inr z ↦ (y, assign_other i h _ s.slot (λ p. cc ((==_iff h i).1 p, z)) ∙ e, q)
        ]
    | inr (q, inl none_left) ↦ cc
    | inr (q, inr mine) ↦
        let p : h ≡ i = ground arith in
        (client_of t, rw p (assign_self i (some (client_of t)) s.slot), sym q)
  ]

  other_member :
      (j : ℕ) (y : Client) → s.slot j ≡ some y → j ≢ i → Member L c t.1.manager s.stopped j y
  other_member j y e ne =
      Member-seen L c s.registry t.1.manager s.stopped s.stopped j y ch.ok ch.later (λ z. z)
        (other_found j y e ne) (k.member j y e)

  -- All clients are in order after the step, if this one is.
  act-IsCoherent :
      Member L c t.1.manager s.stopped i (client_of t)
      → IsCoherent L c
          (record s { slot = assign i (some (client_of t)) s.slot; registry = t.1.manager })
  act-IsCoherent m = record {
    ok = ch.ok;
    member = λ j y e. elim (assign_cases i j (some (client_of t)) s.slot e) [
      | inl (p, q) ↦ rw p (subst (Member L c t.1.manager s.stopped i) (some_injective q) m)
      | inr (ne, q) ↦ other_member j y q ne
    ];
    distinct = distinct_after;
    owned = owned_after;
  }

module _ {F : Floats} (L : JsonLib F) (c : Limits) where
  -- A step of a client keeps all clients in order, if no counter has passed 2 ^ 32 before or after.
  pub acted-IsCoherent :
      (i : ℕ) (x : Client) (t : Phase × World) (s : Clients)
      → s.slot i ≡ some x
      → (st : Step L c (view i s.registry x) t) → IsOwn L c st
      → Tame s.registry
      → Tame t.1.manager
      → IsCoherent L c s
      → IsCoherent L c
          (record s { slot = assign i (some (client_of t)) s.slot; registry = t.1.manager })
  acted-IsCoherent i x t s at st own z z' k =
      let m = k.member i x at in
      let mv = Step-Moves L c st own k.ok (Tame-Fit s.registry z) in
      let a = Moves-After i (view i s.registry x) t z z' k.ok m.known m.unnamed mv in
      let (now, first, ok, past) = m.history in
      act-IsCoherent L c i x t s at k a.change (record {
        history = (
          now,
          first,
          ok,
          subst (λ j. Reach L c (accepting, new_world now i first) (t.0, record (t.1) { self = j }))
              a.self (after past st),
        );
        unnamed = mv.unnamed m.unnamed;
        known = a.known;
        listed = λ run. a.listed (m.listed run);
      })
