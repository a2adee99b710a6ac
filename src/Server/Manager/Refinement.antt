-- ===== src/Server/Manager/Refinement.antt =====
-- The registry as its clients see it: a store of sessions under ids, with no order and no counters.
-- The methods of connection_manager refine it.
use cppsim.Prelude.{
  ℕ, suc, ◌+◌, ◌<◌, ◌≡◌, ◌≢◌, refl, sym, ◌∙◌, ap, true, false, List, [], ◌∷◌, Option, none, some,
  Text, text_eq, if◌then◌else◌, length, is_some, is_empty, inl, inr, arith,
}
use cppsim.Protocol.SessionId.{validate_session_id_format}
use cppsim.Server.Config.{max_connections}
use cppsim.Server.SessionMap.{find}
use cppsim.Server.Manager.{
  Manager, empty_manager, register_session, unregister_session, get_session, session_count,
  stop_all,
}
use cppsim.Server.Manager.Register.{
  valid_guards, register_session-Registered, get_session-register_session,
}
use cppsim.Server.Manager.Invariant.{
  Inv, register_session-Inv, unregister_session-Inv, unregister_session_lem, stop_all_lem,
}

-- The calls that change the registry. `draw` is what the generator of ids draws.
pub data Command (S : Type 0) : Type 0 where
  register : (ℕ → Option ℕ) → S → Command S
  unregister : Text → Command S
  stop : Command S

-- What a client learns: the id it got, or the failure; the sessions that it has to close.
pub data Answer (S : Type 0) : Type 0 where
  accepted : Text → Answer S
  refused done : Answer S
  stopped : List S → Answer S

abbrev pub answer_of : {S : Type 0} → Text → Answer S
answer_of [] = refused
answer_of (c ∷ cs) = accepted (c ∷ cs)

unfoldable pub perform : {S : Type 0} → Command S → Manager S → Answer S × Manager S
perform (register draw s) m = let r = register_session draw (some s) m in (answer_of r.0, r.1)
perform (unregister id) m = (done, unregister_session id m)
perform stop m = let r = stop_all m in (stopped r.0, r.1)

unfoldable pub perform_all :
    {S : Type 0} → List (Command S) → Manager S → List (Answer S) × Manager S
unfolding perform
perform_all [] m = ([], m)
perform_all (c ∷ cs) m =
    let r = perform c m in let rest = perform_all cs r.1 in (r.0 ∷ rest.0, rest.1)

-- The abstract view.
pub record Store (S : Type 0) : Type 0 where
  pub get : Text → Option S
  pub size : ℕ

abbrev pub put : {S : Type 0} → Text → Option S → Store S → ℕ → Store S
put id o v n = record { get = λ j. if text_eq id j then o else v.get j; size = n }

-- What the store promises. A new id is well-formed and was free, and there was room. Removing an
-- id that is not there changes nothing. Stopping hands over as many sessions as there were.
pub data Allows {S : Type 0} (v : Store S) : Command S → Answer S → Store S → Type 0 where
  accepts :
      (draw : ℕ → Option ℕ) (s : S) (id : Text)
      → validate_session_id_format id ≡ true
      → v.get id ≡ none
      → v.size < max_connections
      → Allows v (register draw s) (accepted id) (put id (some s) v (suc v.size))
  refuses : (draw : ℕ → Option ℕ) (s : S) → Allows v (register draw s) refused v
  removes :
      (id : Text) (n : ℕ)
      → v.size ≡ n + (if is_some (v.get id) then 1 else 0)
      → Allows v (unregister id) done (put id none v n)
  stops :
      (ss : List S)
      → length ss ≡ v.size
      → Allows v stop (stopped ss) (record { get = λ j. none; size = 0 })

pub data AllowsAll {S : Type 0}
    : Store S → List (Command S) → List (Answer S) → Store S → Type 0 where
  finished : (v : Store S) → AllowsAll v [] [] v
  further :
      {u v w : Store S} {c : Command S} {a : Answer S} {cs : List (Command S)}
      {rest : List (Answer S)}
      → Allows u c a v
      → AllowsAll v cs rest w
      → AllowsAll u (c ∷ cs) (a ∷ rest) w

-- The registry keeps its invariant and shows what the store shows.
pub record Represents {S : Type 0} (m : Manager S) (v : Store S) : Type 0 where
  pub inv : Inv m
  pub lookups : (j : Text) → get_session j m ≡ v.get j
  pub sizes : session_count m ≡ v.size

module _ {S : Type 0} where
  -- One call: an allowed step of the store to one that the registry then represents.
  abbrev Simulates : Command S → Store S → Answer S × Manager S → Type 0
  Simulates c v r = (v' : Store S) × Allows v c r.0 v' × Represents r.1 v'

  answer_of-accepted : (id : Text) → is_empty id ≡ false → answer_of {S = S} id ≡ accepted id
  answer_of-accepted [] h = cc
  answer_of-accepted (c ∷ cs) h = refl

  register-Simulates :
      (draw : ℕ → Option ℕ) (s : S) (m : Manager S) (v : Store S)
      → Represents m v
      → Simulates (register draw s) v (perform (register draw s) m)
  unfolding perform get_session session_count
  register-Simulates draw s m v r =
      let id = (register_session draw (some s) m).0 in
      let m' = (register_session draw (some s) m).1 in
      let kept = register_session-Inv draw (some s) m r.inv in
      elim (register_session-Registered draw s m) [
        | inl (e, same) ↦ (
          v,
          rw e (refuses draw s),
          record { inv = kept; lookups = λ j. rw same (r.lookups j); sizes = rw same r.sizes },
        )
        | inr (valid, room, free, _) ↦
            let new : id ≢ [] = λ e. cc (ap is_empty e, (valid_guards id valid).0) in
            (
              put id (some s) v (suc v.size),
              rw (answer_of-accepted id (valid_guards id valid).0)
                  (accepts draw s id valid (sym (r.lookups id) ∙ free) (rw (sym r.sizes) room)),
              record {
                inv = kept;
                lookups =
                    λ j. rw (sym (r.lookups j)) (get_session-register_session draw s m j new).0;
                sizes = (get_session-register_session draw s m id new).1 ∙ ap suc r.sizes;
              },
            )
      ]

  perform-Simulates :
      (c : Command S) (m : Manager S) (v : Store S) → Represents m v → Simulates c v (perform c m)
  unfolding perform
  perform-Simulates (register draw s) m v r = register-Simulates draw s m v r
  perform-Simulates (unregister id) m v r = (
    put id none v (session_count (unregister_session id m)),
    removes id (session_count (unregister_session id m))
        (rw (sym (r.lookups id), sym r.sizes) (unregister_session_lem id id m r.inv).1),
    record {
      inv = unregister_session-Inv id m r.inv;
      lookups = λ j. rw (sym (r.lookups j)) (unregister_session_lem id j m r.inv).0;
      sizes = refl;
    },
  )
  perform-Simulates stop m v r =
      let e = stop_all_lem m [] in
      (
        record { get = λ j. none; size = 0 },
        stops (stop_all m).0 (e.0 ∙ r.sizes),
        record { inv = e.3; lookups = λ j. (stop_all_lem m j).2; sizes = e.1 },
      )

  -- From a registry that shows what a store shows, any calls in any order give the answers that the
  -- store allows for them, and leave the registry showing the store that they lead to: the order of
  -- the map and the counters of the ids are not seen.
  pub perform_all-AllowsAll :
      (cs : List (Command S)) (m : Manager S) (v : Store S)
      → Represents m v
      → (v' : Store S) × AllowsAll v cs (perform_all cs m).0 v' × Represents (perform_all cs m).1 v'
  unfolding perform_all
  perform_all-AllowsAll [] m v r = (v, finished v, r)
  perform_all-AllowsAll (c ∷ cs) m v r =
      let (u, one, ru) = perform-Simulates c m v r in
      let (w, rest, rw') = perform_all-AllowsAll cs (perform c m).1 u ru in
      (w, further one rest, rw')

  -- The registry of a new server shows the empty store.
  pub empty_manager-Represents :
      Represents (empty_manager {S = S}) (record { get = λ j. none; size = 0 })
  unfolding get_session find session_count
  empty_manager-Represents = record {
    inv = record { sorted = tt; bounded = omega arith; valid = tt };
    lookups = λ j. refl;
    sizes = refl;
  }
