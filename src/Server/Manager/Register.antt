-- ===== src/Server/Manager/Register.antt =====
-- What registration does to the registry, on every branch.
use cppsim.Prelude.{
  ℕ, zero, suc, ◌<◌, ◌≤◌, ◌≡◌, ◌≢◌, refl, true, false, List, [], Option, none, some, Text, ltb, leb,
  is_empty, if◌then◌else◌, length, is_some, arith, ◌⊎◌, inl, inr, Option-cases, Bool-cases, text_eq,
  ap, leb→le, leb_false→lt,
}
use cppsim.Protocol.SessionId.{max_session_id_length, validate_session_id_format}
use cppsim.Server.Config.{max_connections}
use cppsim.Server.SessionMap.{find, place, try_emplace, find-place, length-place}
use cppsim.Server.SessionIds.{generate_session_id}
use cppsim.Server.SessionIds.Format.{generate_session_id-valid}
use cppsim.Server.Manager.{
  Manager, success, at_capacity, collision, emplace, register_loop, register_session, get_session,
  session_count,
}

pub valid_guards :
    (id : Text)
    → validate_session_id_format id ≡ true
    → (is_empty id ≡ false) × (ltb max_session_id_length (length id) ≡ false)
unfolding validate_session_id_format
valid_guards id h = ground arith

module _ {ℓ} {S : Type ℓ} where
  -- A registration that fails leaves the sessions alone; one that succeeds adds one entry.
  abbrev pub Registered : S → List (Text × S) → Text × Manager S → Type ℓ
  Registered s old r =
      ((r.0 ≡ []) × (r.1.sessions ≡ old))
      ⊎ ((validate_session_id_format r.0 ≡ true)
          × (length old < max_connections)
          × (find r.0 old ≡ none)
          × (r.1.sessions ≡ place r.0 s old))

  pub emplace_lem :
      (id : Text) (s : S) (m : List (Text × S))
      → ((emplace id s m ≡ at_capacity) × (max_connections ≤ length m))
        ⊎ ((emplace id s m ≡ collision) × (is_some (find id m) ≡ true))
        ⊎ ((emplace id s m ≡ success (place id s m))
            × (length m < max_connections)
            × (find id m ≡ none))
  unfolding emplace try_emplace
  emplace_lem id s m = elim (Bool-cases (leb max_connections (length m))) [
    | inl full ↦ inl (rw full refl, leb→le _ _ full)
    | inr room ↦ elim (Option-cases (find id m)) [
      | inl free ↦
          inr (inr (rw (room, free, emplace, try_emplace) refl, leb_false→lt _ _ room, free))
      | inr (x, taken) ↦ inr (inl (rw (room, taken, emplace, try_emplace) refl, rw taken refl))
    ]
  ]

  register_loop-Registered :
      (n : ℕ) (draw : ℕ → Option ℕ) (s : S) (m : Manager S)
      → Registered s m.sessions (register_loop n draw s m)
  unfolding register_loop
  register_loop-Registered zero draw s m = inl (refl, refl)
  register_loop-Registered (suc n) draw s m = ground (
    arith,
    emplace_lem (generate_session_id m.counters (draw n)).0 s m.sessions,
    generate_session_id-valid m.counters (draw n),
    valid_guards (generate_session_id m.counters (draw n)).0,
    register_loop-Registered n draw s
        (record m { counters = (generate_session_id m.counters (draw n)).1 }),
  )

  -- Registering s fails and changes no session, or it returns an id in the format of the protocol
  -- that was free, while there was room, and adds s under that id.
  pub register_session-Registered :
      (draw : ℕ → Option ℕ) (s : S) (m : Manager S)
      → Registered s m.sessions (register_session draw (some s) m)
  unfolding register_session
  register_session-Registered draw s m = register_loop-Registered 3 draw s m

  -- After a successful registration get_session gives s for the new id, and what it gave before for
  -- any other id; the count has grown by one.
  pub get_session-register_session :
      (draw : ℕ → Option ℕ) (s : S) (m : Manager S) (j : Text)
      → (register_session draw (some s) m).0 ≢ []
      → let r = register_session draw (some s) m in
        (get_session j r.1 ≡ (if text_eq r.0 j then some s else get_session j m))
        × (session_count r.1 ≡ suc (session_count m))
  unfolding get_session session_count
  get_session-register_session draw s m j ne = elim (register_session-Registered draw s m) [
    | inl (e, _) ↦ absurd (ne e)
    | inr (_, _, free, e) ↦ rw e (
      find-place j (register_session draw (some s) m).0 s m.sessions free,
      length-place (register_session draw (some s) m).0 s m.sessions,
    )
  ]

  -- A registration that returns the empty id has left the sessions as they were.
  pub register_session_failed :
      (draw : ℕ → Option ℕ) (s : S) (m : Manager S)
      → (register_session draw (some s) m).0 ≡ []
      → (register_session draw (some s) m).1.sessions ≡ m.sessions
  register_session_failed draw s m e = elim (register_session-Registered draw s m) [
    | inl (_, same) ↦ same
    | inr (valid, _, _, _) ↦
        cc (ap is_empty e, (valid_guards (register_session draw (some s) m).0 valid).0)
  ]
