-- ===== src/Server/Manager/Invariant.antt =====
-- What holds of the registry between two calls, and what its removals and registrations then do.
use cppsim.Prelude.{
  ℕ, ◌+◌, ◌<◌, ◌≤◌, ◌≡◌, refl, true, List, [], ◌∷◌, Option, none, some, Text, if◌then◌else◌, length,
  is_some, arith, inl, inr, Option-cases, Bool-cases, text_eq, text_eq→eq, length-map, sym,
}
use cppsim.Protocol.SessionId.{validate_session_id_format}
use cppsim.Server.Config.{max_connections}
use cppsim.Server.SessionMap.{
  find, place, erase, length-place, length-erase, find-erase_ne, erase_absent,
}
use cppsim.Server.SessionMap.Order.{IsSorted, place-IsSorted, erase-IsSorted, find-erase}
use cppsim.Server.Manager.{
  Manager, register_session, unregister_session, get_session, session_count, stop_all,
}
use cppsim.Server.Manager.Register.{valid_guards, register_session-Registered}

module _ {S : Type 0} where
  -- Every key is in the protocol's format.
  abbrev pub AllValid : List (Text × S) → Type 0
  AllValid [] = Unit {0}
  AllValid ((k, s) ∷ m) = (validate_session_id_format k ≡ true) × AllValid m

  pub record Inv (m : Manager S) : Type 0 where
    pub sorted : IsSorted m.sessions
    pub bounded : length m.sessions ≤ max_connections
    pub valid : AllValid m.sessions

  place-AllValid :
      (k : Text) (s : S) (m : List (Text × S))
      → validate_session_id_format k ≡ true
      → AllValid m
      → AllValid (place k s m)
  unfolding place
  place-AllValid k s [] v h = (v, tt)
  place-AllValid k s ((j, r) ∷ m) v h = ground (arith, place-AllValid k s m)

  erase-AllValid : (k : Text) (m : List (Text × S)) → AllValid m → AllValid (erase k m)
  unfolding erase
  erase-AllValid k [] h = tt
  erase-AllValid k ((j, r) ∷ m) h = ground (arith, erase-AllValid k m)

  place-Inv :
      (m m' : Manager S) (id : Text) (s : S)
      → validate_session_id_format id ≡ true
      → length m.sessions < max_connections
      → find id m.sessions ≡ none
      → m'.sessions ≡ place id s m.sessions
      → Inv m
      → Inv m'
  place-Inv m m' id s v room free e i = record {
    sorted = rw e (place-IsSorted id s m.sessions free i.sorted);
    bounded = rw (e, length-place id s m.sessions) room;
    valid = rw e (place-AllValid id s m.sessions v i.valid);
  }

  same-Inv : (m m' : Manager S) → m'.sessions ≡ m.sessions → Inv m → Inv m'
  same-Inv m m' e i = record {
    sorted = rw e i.sorted;
    bounded = rw e i.bounded;
    valid = rw e i.valid;
  }

  -- A registration keeps the invariant: the keys are in order, of the protocol's format, and at
  -- most 1000.
  pub register_session-Inv :
      (draw : ℕ → Option ℕ) (s : Option S) (m : Manager S)
      → Inv m
      → Inv (register_session draw s m).1
  register_session-Inv draw none m i = same-Inv m _ (unfold register_session in refl) i
  register_session-Inv draw (some s) m i = elim (register_session-Registered draw s m) [
    | inl (_, e) ↦ same-Inv m _ e i
    | inr (v, room, free, e) ↦ place-Inv m _ (register_session draw (some s) m).0 s v room free e i
  ]

  pub unregister_session-Inv : (id : Text) (m : Manager S) → Inv m → Inv (unregister_session id m)
  unfolding unregister_session
  unregister_session-Inv id m i = ground (
    arith,
    erase-IsSorted id m.sessions,
    erase-AllValid id m.sessions,
    length-erase id m.sessions,
  )

  pub find_empty_key : (m : List (Text × S)) → AllValid m → find [] m ≡ none
  unfolding find text_eq
  find_empty_key [] h = refl
  find_empty_key (([], r) ∷ m) h = cc ((valid_guards [] h.0).0)
  find_empty_key ((b ∷ bs, r) ∷ m) h = find_empty_key m h.1

  -- The early returns of unregister_session make no difference: it erases.
  unregister_session-erase :
      (id : Text) (m : Manager S) → Inv m → (unregister_session id m).sessions ≡ erase id m.sessions
  unfolding unregister_session
  unregister_session-erase [] m i =
      sym (erase_absent [] m.sessions (find_empty_key m.sessions i.valid))
  unregister_session-erase (b ∷ bs) m i = elim (Option-cases (find (b ∷ bs) m.sessions)) [
    | inl e ↦ rw e (sym (erase_absent (b ∷ bs) m.sessions e))
    | inr (x, e) ↦ rw e refl
  ]

  pub find-unregister_session :
      (id : Text) (m : Manager S) → Inv m → find id (unregister_session id m).sessions ≡ none
  find-unregister_session id m i =
      rw (unregister_session-erase id m i) (find-erase id m.sessions i.sorted)

  find-erase_if :
      (id j : Text) (m : List (Text × S))
      → IsSorted m
      → find j (erase id m) ≡ (if text_eq id j then none else find j m)
  find-erase_if id j m h = elim (Bool-cases (text_eq id j)) [
    | inl same ↦ rw same (rw (← text_eq→eq id j same) (find-erase id m h))
    | inr other ↦ rw other (find-erase_ne j id m other)
  ]

  -- In a registry that keeps the invariant, unregistering an id removes its lookup and no other, and
  -- takes one off the count if the id was registered.
  pub unregister_session_lem :
      (id j : Text) (m : Manager S)
      → Inv m
      → let m' = unregister_session id m in
        (get_session j m' ≡ (if text_eq id j then none else get_session j m))
        × (session_count m ≡ session_count m' + (if is_some (get_session id m) then 1 else 0))
  unfolding get_session session_count
  unregister_session_lem id j m i =
      rw (unregister_session-erase id m i)
        (find-erase_if id j m.sessions i.sorted, length-erase id m.sessions)

  -- Stopping hands over every session, in the order of the ids, and leaves none registered.
  pub stop_all_lem :
      (m : Manager S) (j : Text)
      → let r = stop_all m in
        (length r.0 ≡ session_count m)
        × (session_count r.1 ≡ 0)
        × (get_session j r.1 ≡ none)
        × Inv r.1
  unfolding stop_all session_count get_session find
  stop_all_lem m j = (
    length-map (λ e. e.1) m.sessions,
    refl,
    refl,
    record { sorted = tt; bounded = omega arith; valid = tt },
  )
