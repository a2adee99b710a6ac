-- ===== src/Server/Clients/Shutdown.antt =====
-- stop_all of connection_manager with the sessions that it closes: the registry is emptied, and then
-- each session that it held is asked to close.
use cppsim.Prelude.{
  ℕ, ◌==◌, ◌≡◌, ◌⊎◌, inl, inr, refl, true, false, List, [], ◌∷◌, Option, none, some, Text, ap,
  subst, ◌∙◌, map, is_empty, text_eq, Bool-cases, ==_iff,
}
use cppsim.Json.{Floats, JsonLib}
use cppsim.Server.SessionMap.{find}
use cppsim.Server.Manager.{Manager, stop_all}
use cppsim.Server.RuntimeConfig.{Limits}
use cppsim.Server.Session.State.{is_closed}
use cppsim.Server.Session.Events.{request_close}
use cppsim.Server.Session.Steps.{close_asked}
use cppsim.Server.Session.Footprint.{found}
use cppsim.Server.Clients.{
  Client, Clients, assign, view, client_of, no_clients, Run, after, acted, halted,
}
use cppsim.Server.Clients.Coherence.{assign_self, assign_other}
use cppsim.Server.Clients.Runs.{StaysTame, coherent}

-- close() of the session in a slot, as another thread calls it.
unfoldable pub ask_at : ℕ → Option Client → Clients → Clients
ask_at i none s = s
ask_at i (some x) s = record s {
  slot = assign i (some (client_of (x.phase, request_close (view i s.registry x).1))) s.slot;
}

unfoldable pub ask_close : ℕ → Clients → Clients
unfolding ask_at
ask_close i s = ask_at i (s.slot i) s

unfoldable pub close_each : List ℕ → Clients → Clients
close_each [] s = s
close_each (i ∷ is) s = close_each is (ask_close i s)

unfoldable pub stop_clients : Manager ℕ → Clients → Clients
unfolding close_each
stop_clients m s =
    close_each (stop_all m).0 (record s { registry = some (stop_all m).1; stopped = true })

-- The client has been asked to close.
abbrev pub IsAsked : Clients → ℕ → Type 0
IsAsked s i = (x : Client) × (s.slot i ≡ some x) × (x.session.close_requested ≡ true)

-- The number is in the list.
abbrev Holds : ℕ → List ℕ → Type 0
Holds i [] = ⊥
Holds i (j ∷ js) = (j ≡ i) ⊎ Holds i js

find-Holds :
    (k : Text) (i : ℕ) (m : List (Text × ℕ)) → find k m ≡ some i → Holds i (map (λ e. e.1) m)
unfolding find
find-Holds k i [] e = cc
find-Holds k i ((j, n) ∷ m) e = elim (Bool-cases (text_eq j k)) [
  | inl same ↦ (let q : some n ≡ some i = rw same at e in inl (cc))
  | inr other ↦ inr (find-Holds k i m (rw other at e))
]

-- Asking one client to close keeps the clients, and those that were asked.
record Keeps (s t : Clients) : Type 0 where
  present : (i : ℕ) (x : Client) → s.slot i ≡ some x → (y : Client) × (t.slot i ≡ some y)
  asked : (i : ℕ) → IsAsked s i → IsAsked t i

Keeps-refl : (s : Clients) → Keeps s s
Keeps-refl s = record { present = λ i x e. (x, e); asked = λ i a. a }

Keeps-trans : (s t u : Clients) → Keeps s t → Keeps t u → Keeps s u
Keeps-trans s t u h k = record {
  present = λ i x e. let (y, e') = h.present i x e in k.present i y e';
  asked = λ i a. k.asked i (h.asked i a);
}

placed :
    (s : Clients) (j : ℕ) (x : Client)
    → x.session.close_requested ≡ true
    → Keeps s (record s { slot = assign j (some x) s.slot })
placed s j x a = record {
  present = λ i y e. elim (Bool-cases (i == j)) [
    | inl same ↦ (x, rw ((==_iff i j).0 same) (assign_self j (some x) s.slot))
    | inr other ↦ (y, assign_other j i (some x) s.slot (λ p. cc ((==_iff i j).1 p, other)) ∙ e)
  ];
  asked = λ i (y, e, b). elim (Bool-cases (i == j)) [
    | inl same ↦ (x, rw ((==_iff i j).0 same) (assign_self j (some x) s.slot), a)
    | inr other ↦ (y, assign_other j i (some x) s.slot (λ p. cc ((==_iff i j).1 p, other)) ∙ e, b)
  ];
}

ask_at-Keeps : (j : ℕ) (o : Option Client) (s : Clients) → Keeps s (ask_at j o s)
unfolding ask_at request_close
ask_at-Keeps j none s = Keeps-refl s
ask_at-Keeps j (some x) s = placed s j _ refl

close_each-Keeps : (is : List ℕ) (s : Clients) → Keeps s (close_each is s)
unfolding close_each ask_close
close_each-Keeps [] s = Keeps-refl s
close_each-Keeps (j ∷ is) s =
    Keeps-trans s (ask_close j s) _ (ask_at-Keeps j (s.slot j) s)
      (close_each-Keeps is (ask_close j s))

ask_at-IsAsked :
    (i : ℕ) (o : Option Client) (x : Client) (s : Clients) → o ≡ some x → IsAsked (ask_at i o s) i
unfolding ask_at request_close
ask_at-IsAsked i none x s e = cc
ask_at-IsAsked i (some y) x s e = (_, assign_self i _ s.slot, refl)

close_each-IsAsked :
    (is : List ℕ) (i : ℕ) (x : Client) (s : Clients)
    → Holds i is
    → s.slot i ≡ some x
    → IsAsked (close_each is s) i
unfolding close_each ask_close
close_each-IsAsked [] i x s h e = absurd h
close_each-IsAsked (j ∷ is) i x s (inl p) e =
    (close_each-Keeps is (ask_close j s)).asked i
      (subst (IsAsked (ask_close j s)) p (ask_at-IsAsked j (s.slot j) x s (ap s.slot p ∙ e)))
close_each-IsAsked (j ∷ is) i x s (inr h) e =
    let (y, e') = (ask_at-Keeps j (s.slot j) s).present i x e in
    close_each-IsAsked is i y (ask_close j s) h e'

module _ {F : Floats} (L : JsonLib F) (c : Limits) where
  ask_at-Run :
      (i : ℕ) (o : Option Client) {s : Clients} (t : Clients)
      → t.slot i ≡ o
      → Run L c s t
      → Run L c s (ask_at i o t)
  unfolding ask_at request_close
  ask_at-Run i none t e r = r
  ask_at-Run i (some x) t e r = after r (
      acted i x (x.phase, request_close (view i t.registry x).1) t e
        (close_asked x.phase (view i t.registry x).1) tt)

  close_each-Run :
      (is : List ℕ) {s : Clients} (t : Clients) → Run L c s t → Run L c s (close_each is t)
  unfolding close_each ask_close
  close_each-Run [] t r = r
  close_each-Run (i ∷ is) t r = close_each-Run is (ask_close i t) (ask_at-Run i (t.slot i) t refl r)

  registered_handle :
      (o : Option (Manager ℕ)) (m : Manager ℕ) (k : Text) (i : ℕ)
      → o ≡ some m
      → found k o ≡ some i
      → Holds i (stop_all m).0
  unfolding stop_all
  registered_handle none m k i e f = cc
  registered_handle (some n) m k i e f =
      let same : n ≡ m = cc in
      subst (λ (l : Manager ℕ). Holds i (map (λ e. e.1) l.sessions)) same
        (find-Holds k i n.sessions f)

  -- Starting with no clients, while the counter of ids stays below 2 ^ 32 and the generator does not
  -- fall back, and before any other stop: stop_all leaves every client that has an id and is not
  -- closed asked to close, and what it does are turns of the clients, so that all clients stay
  -- those of a run.
  pub stop_asks_all :
      {t : Clients} (r : Run L c no_clients t) (m : Manager ℕ) (i : ℕ) (x : Client)
      → StaysTame L c r
      → t.stopped ≡ false
      → t.registry ≡ some m
      → t.slot i ≡ some x
      → is_closed x.session.state ≡ false
      → is_empty x.session.session_id ≡ false
      → IsAsked (stop_clients m t) i × Run L c no_clients (stop_clients m t)
  unfolding stop_clients
  stop_asks_all {t} r m i x z run e at still named =
      let f = ((coherent L c r z).member i x at).listed run still named in
      let emptied : Clients = record t { registry = some (stop_all m).1; stopped = true } in
      (
        close_each-IsAsked (stop_all m).0 i x emptied
            (registered_handle t.registry m x.session.session_id i e f) at,
        close_each-Run (stop_all m).0 emptied (after r (halted m t e)),
      )
