-- ===== src/Server/Clients/Capacity.antt =====
-- How many clients play at once.
use cppsim.Prelude.{
  ℕ, ◌+◌, ◌≤◌, ◌≡◌, ◌≢◌, inl, inr, false, List, [], ◌∷◌, Option, none, some, Text, arith, ap, sym,
  ◌∙◌, All, length, text_eq, text_eq→eq, Bool-cases,
}
use cppsim.Json.{Floats, JsonLib}
use cppsim.Server.Config.{max_connections}
use cppsim.Server.SessionMap.{find, erase, length-erase, find-erase_ne}
use cppsim.Server.Manager.{Manager}
use cppsim.Server.RuntimeConfig.{Limits}
use cppsim.Server.Session.State.{authenticated}
use cppsim.Server.Session.Invariant.{RegistryOk}
use cppsim.Server.Session.Footprint.{found}
use cppsim.Server.Clients.{Client, Clients, no_clients, Run}
use cppsim.Server.Clients.Runs.{StaysTame, coherent, clients_refine}

-- No number stands twice.
abbrev pub Distinct : List ℕ → Type 0
Distinct [] = Unit {0}
Distinct (i ∷ is) = All (λ j. i ≢ j) is × Distinct is

-- The handle stands under some key.
abbrev Filed : List (Text × ℕ) → ℕ → Type 0
Filed m i = (k : Text) × (find k m ≡ some i)

Filed-erase :
    (m : List (Text × ℕ)) (k : Text) (i j : ℕ)
    → find k m ≡ some i
    → i ≢ j
    → Filed m j
    → Filed (erase k m) j
Filed-erase m k i j e ne (l, f) = elim (Bool-cases (text_eq k l)) [
  | inl same ↦
      let q : k ≡ l = text_eq→eq k l same in
      let r : some i ≡ some j = sym e ∙ ap (λ t. find t m) q ∙ f in absurd (ne (cc))
  | inr other ↦ (l, find-erase_ne l k m other ∙ f)
]

All-Filed-erase :
    (m : List (Text × ℕ)) (k : Text) (i : ℕ) (is : List ℕ)
    → find k m ≡ some i
    → All (λ j. i ≢ j) is
    → All (Filed m) is
    → All (Filed (erase k m)) is
All-Filed-erase m k i [] e d a = tt
All-Filed-erase m k i (j ∷ is) e d a =
    (Filed-erase m k i j e d.0 a.0, All-Filed-erase m k i is e d.1 a.1)

-- Different handles stand under different keys.
length-Filed-le :
    (m : List (Text × ℕ)) (is : List ℕ) → Distinct is → All (Filed m) is → length is ≤ length m
length-Filed-le m [] d a = omega arith
length-Filed-le m (i ∷ is) d ((k, e), a) =
    let rest = length-Filed-le (erase k m) is d.1 (All-Filed-erase m k i is e d.0 a) in
    let shorter : length m ≡ length (erase k m) + 1 = length-erase k m ∙ (rw e) in
    omega (arith, shorter, rest)

registered_bounded :
    (o : Option (Manager ℕ)) (is : List ℕ)
    → RegistryOk o
    → Distinct is
    → All (λ i. (k : Text) × (found k o ≡ some i)) is
    → length is ≤ max_connections
registered_bounded none [] r d a = omega arith
registered_bounded none (i ∷ is) r d ((k, e), a) = cc
registered_bounded (some m) is r d a = omega (arith, length-Filed-le m.sessions is d a, r.bounded)

-- Client i is authenticated.
abbrev pub IsPlaying : Clients → ℕ → Type 0
IsPlaying s i = (x : Client) × (s.slot i ≡ some x) × (x.session.state ≡ authenticated)

module _ {F : Floats} (L : JsonLib F) (c : Limits) where
  playing_found :
      {t : Clients} (r : Run L c no_clients t) (i : ℕ)
      → StaysTame L c r
      → t.stopped ≡ false
      → IsPlaying t i
      → (k : Text) × (found k t.registry ≡ some i)
  playing_found r i z run (x, e, a) =
      let sound = (clients_refine L c r i x z e).1.sound in
      (
        x.session.session_id,
        ((coherent L c r z).member i x e).listed run (rw a) (sound.identified a),
      )

  All-found :
      {t : Clients} (r : Run L c no_clients t) (is : List ℕ)
      → StaysTame L c r
      → t.stopped ≡ false
      → All (IsPlaying t) is
      → All (λ i. (k : Text) × (found k t.registry ≡ some i)) is
  All-found r [] z run a = tt
  All-found r (i ∷ is) z run (p, a) = (playing_found r i z run p, All-found r is z run a)

  -- Starting with no clients, and while the counter of ids stays below 2 ^ 32 and the generator does
  -- not fall back: whatever the clients do, at most 1000 of them are authenticated at once, until
  -- the server stops.
  pub playing_bounded :
      {t : Clients} (r : Run L c no_clients t) (is : List ℕ)
      → StaysTame L c r
      → t.stopped ≡ false
      → Distinct is
      → All (IsPlaying t) is
      → length is ≤ max_connections
  playing_bounded {t} r is z run d a =
      registered_bounded t.registry is (coherent L c r z).ok d (All-found r is z run a)
