-- ===== src/Server/Session/Invariant/Output.antt =====
-- Sending, writing and closing keep the invariant.
use cppsim.Prelude.{
  ℕ, ◌≡◌, refl, Bool, true, false, ◌||◌, List, [], ◌∷◌, Option, none, some, Text, arith,
  length-append, if_intro, subst, sym, ap,
}
use cppsim.Server.Manager.{Manager}
use cppsim.Server.Manager.Invariant.{
  unregister_session-Inv, find-unregister_session, find_empty_key,
}
use cppsim.Server.Session.State.{
  State, authenticated, unauthenticated, closed, Session, World, is_closed, emit, cancel_timer,
}
use cppsim.Server.Session.Output.{
  queue_message, unregister, finish_close, do_close, close, do_write, write_next, write_done,
  on_write,
}
use cppsim.Server.Session.Invariant.{IsSound, RegistryOk, Released, IsConsistent}

-- What sending leaves alone.
pub record SameButOutput (v w : World) : Type 0 where
  pub state : w.session.state ≡ v.session.state
  pub session_id : w.session.session_id ≡ v.session.session_id
  pub manager : w.manager ≡ v.manager
  pub close_requested : w.session.close_requested ≡ v.session.close_requested
  pub close_initiated : w.session.close_initiated ≡ v.session.close_initiated
  pub sequence : w.session.last_sequence_number ≡ v.session.last_sequence_number
  pub stack : w.session.current_stack ≡ v.session.current_stack

pub queue_message-same : (t : Text) (w : World) → SameButOutput w (queue_message t w).0
unfolding queue_message
queue_message-same t w = ground arith

queue_message-IsSound :
    (t : Text) (w : World) → IsSound w.session → IsSound (queue_message t w).0.session
unfolding queue_message
queue_message-IsSound t w s = ground (arith, length-append {0} w.session.write_queue (t ∷ []))

pub queue_message-IsConsistent :
    (t : Text) (w : World) → IsConsistent w → IsConsistent (queue_message t w).0
unfolding queue_message
queue_message-IsConsistent t w c = record {
  sound = queue_message-IsSound t w c.sound;
  registry = ground arith;
  released = ground arith;
}

-- Unregistering touches the registry alone, and leaves the id unregistered.
pub unregister_registry :
    (w : World)
    → RegistryOk w.manager
    → RegistryOk (unregister w).manager × Released w.session.session_id (unregister w).manager
unfolding unregister
unregister_registry w r = go w.session.session_id w.manager r
  where
    go :
        (id : Text) (o : Option (Manager ℕ))
        → RegistryOk o
        → RegistryOk
            (unregister
              (record w { session = record (w.session) { session_id = id }; manager = o })).manager
          × Released id
              (unregister (record w {
                session = record (w.session) { session_id = id };
                manager = o;
              })).manager
    go [] none r = (tt, tt)
    go [] (some m) r = (r, find_empty_key m.sessions r.valid)
    go (b ∷ bs) none r = (tt, tt)
    go (b ∷ bs) (some m) r =
        (unregister_session-Inv (b ∷ bs) m r, find-unregister_session (b ∷ bs) m r)

pub unregister_session_part : (w : World) → (unregister w).session ≡ w.session
unfolding unregister
unregister_session_part w = ground arith

-- A close that begins leaves the fields in order and the session unregistered.
finish_close_parts :
    (prev : State) (w : World)
    → RegistryOk w.manager
    → (prev ≡ closed → Released w.session.session_id w.manager)
    → ((finish_close prev w).session ≡ w.session)
      × RegistryOk (finish_close prev w).manager
      × Released w.session.session_id (finish_close prev w).manager
unfolding finish_close
finish_close_parts unauthenticated w r z =
    let (ok, free) = unregister_registry (emit cancel_timer w) (unfold emit in r) in
    (unregister_session_part (emit cancel_timer w), ok, free)
finish_close_parts authenticated w r z =
    let (ok, free) = unregister_registry (emit cancel_timer w) (unfold emit in r) in
    (unregister_session_part (emit cancel_timer w), ok, free)
finish_close_parts closed w r z = (refl, r, z refl)

-- The fields once a close has begun.
abbrev begun : World → World
begun w = record w { session = record (w.session) { close_initiated = true; state = closed } }

close_begins : (w : World) → IsConsistent w → IsConsistent (finish_close w.session.state (begun w))
close_begins w c =
    let (same, ok, free) =
      finish_close_parts w.session.state (begun w) c.registry (λ e. c.released (ground arith)) in
    record {
      sound = subst IsSound (sym same) (ground arith);
      registry = ok;
      released = λ _.
          subst (λ id. Released id (finish_close w.session.state (begun w)).manager)
            (ap (λ (s : Session). s.session_id) (sym same)) free;
    }

pub do_close-IsConsistent : (w : World) → IsConsistent w → IsConsistent (do_close w)
unfolding do_close
do_close-IsConsistent w c =
    if_intro IsConsistent w.session.close_initiated (λ _. c) (λ _. close_begins w c)

-- Asking for a close, and stopping the pipeline of a session that has nothing to write.
pub close-IsConsistent : (w : World) → IsConsistent w → IsConsistent (close w)
unfolding close
close-IsConsistent w c =
    let asked : World = record w { session = record (w.session) { close_requested = true } } in
    let c' : IsConsistent asked = record {
      sound = ground arith;
      registry = c.registry;
      released = c.released;
    } in
    if_intro IsConsistent (is_closed w.session.state || w.session.writing) (λ _. c')
      (λ _. do_close-IsConsistent asked c')

pub do_write-IsConsistent : (w : World) → IsConsistent w → IsConsistent (do_write w)
unfolding do_write write_next
do_write-IsConsistent w c = record {
  sound = ground arith;
  registry = ground arith;
  released = ground arith;
}

write_done-IsConsistent :
    (q : List Text) (w : World)
    → IsConsistent w
    → w.session.write_queue ≡ q
    → IsConsistent (write_done q w)
unfolding write_done
write_done-IsConsistent [] w c e =
    let stopped : World = record w { session = record (w.session) { writing = false } } in
    let c' : IsConsistent stopped = record {
      sound = ground arith;
      registry = c.registry;
      released = c.released;
    } in
    if_intro IsConsistent w.session.close_requested (λ _. do_close-IsConsistent stopped c')
      (λ _. c')
write_done-IsConsistent (t ∷ ts) w c e = record {
  sound = ground arith;
  registry = c.registry;
  released = c.released;
}

pub on_write-IsConsistent :
    (failed : Bool) (bytes : ℕ) (w : World)
    → IsConsistent w
    → IsConsistent (on_write failed bytes w)
unfolding on_write
on_write-IsConsistent true bytes w c =
    do_close-IsConsistent _
      (record { sound = ground arith; registry = c.registry; released = c.released })
on_write-IsConsistent false bytes w c =
    write_done-IsConsistent w.session.write_queue _
      (record { sound = ground arith; registry = c.registry; released = c.released }) refl
