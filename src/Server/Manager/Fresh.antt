-- ===== src/Server/Manager/Fresh.antt =====
-- While the 64-bit counter has not passed 2 ^ 32, a generated id is never taken.
use cppsim.Prelude.{
  ℕ, suc, ◌<◌, ◌^◌, ◌≡◌, refl, List, [], ◌∷◌, Option, none, some, Text, length, is_some, arith, inl,
  inr, Bool-cases, text_eq, text_ltb, text_eq→eq, ap, sym, ◌∙◌,
}
use cppsim.Server.Config.{max_connections}
use cppsim.Server.SessionMap.{find, place}
use cppsim.Server.SessionIds.{Counters, generate_session_id}
use cppsim.Server.SessionIds.Format.{generate_session_id-valid}
use cppsim.Server.SessionIds.Unique.{generate_session_id_unique}
use cppsim.Server.Manager.{Manager, emplace, success, register_loop, register_session}
use cppsim.Server.Manager.Register.{valid_guards, emplace_lem}

-- The id k was generated, not by the fallback, when the counter was below n.
abbrev pub IsIssued : ℕ → Text → Type 0
IsIssued n k = (c : Counters) × (r : ℕ) × (c.counter < n) × (k ≡ (generate_session_id c (some r)).0)

counter_next :
    (c : Counters) (r : ℕ)
    → c.counter < 2 ^ 32
    → (generate_session_id c (some r)).1.counter ≡ suc c.counter
unfolding generate_session_id
counter_next c r h = omega arith

module _ {S : Type 0} where
  abbrev pub AllIssued : ℕ → List (Text × S) → Type 0
  AllIssued n [] = Unit {0}
  AllIssued n ((k, s) ∷ m) = IsIssued n k × AllIssued n m

  find_fresh :
      (c : Counters) (r : ℕ) (m : List (Text × S))
      → c.counter < 2 ^ 32
      → AllIssued c.counter m
      → find (generate_session_id c (some r)).0 m ≡ none
  unfolding find
  find_fresh c r [] h a = refl
  find_fresh c r ((k, s) ∷ m) h ((d, q, below, e), rest) =
      elim (Bool-cases (text_eq k (generate_session_id c (some r)).0)) [
        | inl same ↦ absurd (
            generate_session_id_unique d c q r (omega arith) h (omega arith)
              (sym e ∙ text_eq→eq k _ same))
        | inr other ↦ rw other (find_fresh c r m h rest)
      ]

  AllIssued-mono : (n : ℕ) (m : List (Text × S)) → AllIssued n m → AllIssued (suc n) m
  AllIssued-mono n [] a = tt
  AllIssued-mono n ((k, s) ∷ m) ((d, q, below, e), rest) =
      ((d, q, omega arith, e), AllIssued-mono n m rest)

  place-AllIssued :
      (n : ℕ) (k : Text) (s : S) (m : List (Text × S))
      → IsIssued n k
      → AllIssued n m
      → AllIssued n (place k s m)
  unfolding place
  place-AllIssued n k s [] i a = (i, tt)
  place-AllIssued n k s ((j, r) ∷ m) i a = elim (Bool-cases (text_ltb k j)) [
    | inl before ↦ rw before (i, a)
    | inr after ↦ rw after (a.0, place-AllIssued n k s m i a.1)
  ]

  emplace_fresh :
      (id : Text) (s : S) (m : List (Text × S))
      → length m < max_connections
      → find id m ≡ none
      → emplace id s m ≡ success (place id s m)
  emplace_fresh id s m room free = elim (emplace_lem id s m) [
    | inl (_, full) ↦ absurd (omega arith)
    | inr (inl (_, taken)) ↦ cc (ap is_some free, taken)
    | inr (inr (e, _, _)) ↦ e
  ]

  register_round :
      (n : ℕ) (draw : ℕ → Option ℕ) (r : ℕ) (s : S) (m : Manager S)
      → draw n ≡ some r
      → length m.sessions < max_connections
      → find (generate_session_id m.counters (some r)).0 m.sessions ≡ none
      → register_loop (suc n) draw s m ≡ (
        (generate_session_id m.counters (some r)).0,
        record {
          sessions = place (generate_session_id m.counters (some r)).0 s m.sessions;
          counters = (generate_session_id m.counters (some r)).1;
        },
      )
  unfolding register_loop
  register_round n draw r s m d room free =
      let id = (generate_session_id m.counters (some r)).0 in
      let (nonempty, short) = valid_guards id (generate_session_id-valid m.counters (some r)) in
      rw (d, register_loop) (rw (nonempty, short, emplace_fresh id s m.sessions room free) (rw d))

  -- With room, a generator that does not throw, a counter below 2 ^ 32 and keys that all came from
  -- earlier counter values, the first attempt registers s, and the keys still come from earlier
  -- counter values: no registration is ever refused for a collision.
  pub register_session_fresh :
      (draw : ℕ → Option ℕ) (r : ℕ) (s : S) (m : Manager S)
      → draw 2 ≡ some r
      → m.counters.counter < 2 ^ 32
      → length m.sessions < max_connections
      → AllIssued m.counters.counter m.sessions
      → let id = (generate_session_id m.counters (some r)).0 in
        let m' = (register_session draw (some s) m).1 in
        ((register_session draw (some s) m).0 ≡ id)
        × (m'.sessions ≡ place id s m.sessions)
        × AllIssued m'.counters.counter m'.sessions
  unfolding register_session
  register_session_fresh draw r s m d h room a =
      let c = m.counters in
      let id = (generate_session_id c (some r)).0 in
      let free = find_fresh c r m.sessions h a in
      rw (register_round 2 draw r s m d room free) (
        refl,
        refl,
        rw (counter_next c r h) (
            place-AllIssued (suc c.counter) id s m.sessions (c, r, omega arith, refl)
              (AllIssued-mono c.counter m.sessions a)),
      )
