-- ===== src/Server/Manager/Issues.antt =====
-- From which counter values a registration takes its id.
use cppsim.Prelude.{
  ℕ, zero, suc, ◌+◌, ◌^◌, ◌<◌, ◌≤◌, ◌≡◌, ◌⊎◌, inl, inr, refl, List, [], Option, none, some, Text,
  length, is_empty, ltb, arith, if_intro,
}
use cppsim.Protocol.SessionId.{max_session_id_length}
use cppsim.Server.SessionIds.{Counters, generate_session_id}
use cppsim.Server.Manager.{
  Manager, EmplaceResult, success, at_capacity, collision, emplace, register_loop, register_session,
}

-- The counters have gone from c to d, in n calls of the generator at most.
pub record Advances (n : ℕ) (c d : Counters) : Type 0 where
  pub low : c.counter ≤ d.counter
  pub high : d.counter ≤ c.counter + n
  pub fallback_low : c.fallback_counter ≤ d.fallback_counter
  pub fallback_high : d.fallback_counter ≤ c.fallback_counter + n

-- The id k is empty, or the fallback ran, or k was generated on the way from c to d.
abbrev pub IssuedFrom : Counters → Counters → Text → Type 0
IssuedFrom c d k =
    (k ≡ [])
    ⊎ (c.fallback_counter < d.fallback_counter)
    ⊎ ((e : Counters) × (r : ℕ) × (c.counter ≤ e.counter)
        × (e.counter < d.counter)
        × (k ≡ (generate_session_id e (some r)).0))

-- An id generated from c leaves d.
record Generates (c : Counters) (g : Text × Counters) : Type 0 where
  advances : Advances 1 c g.1
  issued : IssuedFrom c g.1 g.0

generate_session_id-Generates :
    (c : Counters) (o : Option ℕ)
    → c.counter + 1 < 2 ^ 64
    → c.fallback_counter + 1 < 2 ^ 64
    → Generates c (generate_session_id c o)
unfolding generate_session_id
generate_session_id-Generates c none h k = record {
  advances = record {
    low = omega arith;
    high = omega arith;
    fallback_low = omega arith;
    fallback_high = omega arith;
  };
  issued = inr (inl (omega arith));
}
generate_session_id-Generates c (some r) h k = record {
  advances = record {
    low = omega arith;
    high = omega arith;
    fallback_low = omega arith;
    fallback_high = omega arith;
  };
  issued = inr (inr (c, r, omega arith, omega arith, refl));
}

IssuedFrom-later :
    (c d e : Counters) (k : Text) → Advances 1 c d → IssuedFrom d e k → IssuedFrom c e k
IssuedFrom-later c d e k a (inl h) = inl h
IssuedFrom-later c d e k a (inr (inl h)) = inr (inl (omega arith))
IssuedFrom-later c d e k a (inr (inr (f, r, lo, hi, q))) = inr (inr (f, r, omega arith, hi, q))

module _ {S : Type 0} where
  -- What holds of the three outcomes holds of the branch.
  emplace_intro :
      {A : Type 0} (P : A → Type 0) (x : EmplaceResult S) {f : List (Text × S) → A} {y z : A}
      → ((table : List (Text × S)) → P (f table))
      → P y
      → P z
      → P (elim x [ success table ↦ f table | at_capacity ↦ y | collision ↦ z ])
  emplace_intro P (success table) h k l = h table
  emplace_intro P at_capacity h k l = k
  emplace_intro P collision h k l = l

  -- A registration by n attempts at most.
  pub record Issues (n : ℕ) (m : Manager S) (r : Text × Manager S) : Type 0 where
    pub advances : Advances n m.counters r.1.counters
    pub issued : IssuedFrom m.counters r.1.counters r.0

  register_loop-Issues :
      (n : ℕ) (draw : ℕ → Option ℕ) (s : S) (m : Manager S)
      → m.counters.counter + n < 2 ^ 64
      → m.counters.fallback_counter + n < 2 ^ 64
      → Issues n m (register_loop n draw s m)
  unfolding register_loop
  register_loop-Issues zero draw s m h k = record {
    advances = record {
      low = omega arith;
      high = omega arith;
      fallback_low = omega arith;
      fallback_high = omega arith;
    };
    issued = inl refl;
  }
  register_loop-Issues (suc n) draw s m h k =
      let g = generate_session_id m.counters (draw n) in
      let m' : Manager S = record m { counters = g.1 } in
      let once = generate_session_id-Generates m.counters (draw n) (omega arith) (omega arith) in
      let a = once.advances in
      let widened : Advances (suc n) m.counters g.1 = record {
        low = a.low;
        high = omega arith;
        fallback_low = a.fallback_low;
        fallback_high = omega arith;
      } in
      let stopped : Issues (suc n) m ([], m') = record { advances = widened; issued = inl refl } in
      let more = register_loop-Issues n draw s m' (omega arith) (omega arith) in
      if_intro (Issues (suc n) m) (is_empty g.0) (λ _. stopped)
        (λ _.
          if_intro (Issues (suc n) m) (ltb max_session_id_length (length g.0)) (λ _. stopped)
            (λ _.
              emplace_intro (Issues (suc n) m) (emplace g.0 s m.sessions)
                (λ _. record { advances = widened; issued = once.issued }) stopped
                (record {
                  advances = record {
                    low = omega (arith, more.advances.low);
                    high = omega (arith, more.advances.high);
                    fallback_low = omega (arith, more.advances.fallback_low);
                    fallback_high = omega (arith, more.advances.fallback_high);
                  };
                  issued = IssuedFrom-later m.counters g.1 _ _ a more.issued;
                })))

  -- The counters go on by 3 at most, and an id that is not empty, nor the fallback's, was generated
  -- from a counter value on the way.
  pub register_session-Issues :
      (draw : ℕ → Option ℕ) (s : S) (m : Manager S)
      → m.counters.counter + 3 < 2 ^ 64
      → m.counters.fallback_counter + 3 < 2 ^ 64
      → Issues 3 m (register_session draw (some s) m)
  unfolding register_session
  register_session-Issues draw s m h k = register_loop-Issues 3 draw s m h k
