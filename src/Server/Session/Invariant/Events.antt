-- ===== src/Server/Session/Invariant/Events.antt =====
-- The handlers that Asio calls keep the invariant.
use cppsim.Prelude.{
  ℕ, ◌+◌, ◌≡◌, Bool, true, false, [], Option, none, some, Text, arith, if_intro, subst, sym,
}
use cppsim.Json.{Floats, JsonLib}
use cppsim.Server.Manager.{Manager}
use cppsim.Server.Manager.Invariant.{find_empty_key}
use cppsim.Server.RuntimeConfig.{Limits}
use cppsim.Server.Session.State.{
  State, authenticated, unauthenticated, closed, Session, World, is_closed, is_closing, emit,
  cancel_timer, restart_timer,
}
use cppsim.Server.Session.Output.{unregister}
use cppsim.Server.Session.Traffic.{
  slide, window_of, check_rate_limit_or_close, check_suspicious_activity,
}
use cppsim.Server.Session.Handlers.{
  Exit, returned, threw, handle_handshake_message, handle_authenticated_message,
}
use cppsim.Server.Session.Events.{
  ReadResult, peer_closed, read_error, received, TimerResult, aborted, failed, expired, do_read,
  on_accept, drop_connection, read_on, finish_read, dispatch, count_received, inspect, on_message,
  on_read, expire, on_deadline,
}
use cppsim.Server.Session.Invariant.{IsSound, RegistryOk, Released, IsConsistent, Leaves}
use cppsim.Server.Session.Invariant.Output.{unregister_registry, unregister_session_part}
use cppsim.Server.Session.Invariant.Handlers.{refuse-IsConsistent, on_handshake-IsConsistent}
use cppsim.Server.Session.Invariant.Requests.{on_header-IsConsistent}

do_read-IsConsistent : (w : World) → IsConsistent w → IsConsistent (do_read w)
unfolding do_read
do_read-IsConsistent w c =
    if_intro IsConsistent (is_closing w.session) (λ _. c)
      (λ _. record { sound = c.sound; registry = c.registry; released = c.released })

read_on-IsConsistent : (c : Limits) (w : World) → IsConsistent w → IsConsistent (read_on c w)
unfolding read_on
read_on-IsConsistent c w i =
    if_intro IsConsistent (is_closing w.session) (λ _. i)
      (λ _.
        do_read-IsConsistent (emit (restart_timer c.ws_idle_timeout) w)
          (unfold emit in record { sound = i.sound; registry = i.registry; released = i.released }))

drop_connection-IsConsistent : (w : World) → IsConsistent w → IsConsistent (drop_connection w)
unfolding drop_connection
drop_connection-IsConsistent w c =
    let v : World =
      emit cancel_timer (record w { session = record (w.session) { state = closed } }) in
    let (ok, free) = unregister_registry v (unfold emit in c.registry) in
    let same = unregister_session_part v in
    record {
      sound = subst IsSound (sym same) (unfold emit in ground arith);
      registry = ok;
      released = λ _.
          subst (λ (s : Session). Released s.session_id (unregister v).manager) (sym same) free;
    }

Released-empty : (o : Option (Manager ℕ)) → RegistryOk o → Released [] o
Released-empty none r = tt
Released-empty (some m) r = find_empty_key m.sessions r.valid

pub on_accept-IsConsistent :
    (b : Bool) (w : World)
    → w.session.session_id ≡ []
    → IsConsistent w
    → IsConsistent (on_accept b w)
unfolding on_accept
on_accept-IsConsistent true w e c =
    if_intro IsConsistent (is_closed w.session.state) (λ _. c)
      (λ _.
        unfold emit in
        record {
          sound = ground arith;
          registry = c.registry;
          released = λ _. rw e (Released-empty w.manager c.registry);
        })
on_accept-IsConsistent false w e c =
    if_intro IsConsistent (is_closing w.session) (λ _. c) (λ _. do_read-IsConsistent w c)

-- The world after a check, open if it was passed.
record Passes (r : World × Bool) : Type 0 where
  consistent : IsConsistent r.0
  still_open : r.1 ≡ true → is_closed r.0.session.state ≡ false

module _ {F : Floats} (L : JsonLib F) (c : Limits) where
  finish_read-IsConsistent :
      (r : World × Exit) → IsConsistent r.0 → IsConsistent (finish_read L c r)
  unfolding finish_read
  finish_read-IsConsistent (w, returned) i = read_on-IsConsistent c w i
  finish_read-IsConsistent (w, threw) i = refuse-IsConsistent L _ _ w i

  dispatch-IsConsistent :
      (draw : ℕ → Option ℕ) (s : State) (t : Text) (w : World)
      → is_closed w.session.state ≡ false
      → IsConsistent w
      → Leaves (dispatch L c draw s t w)
  unfolding dispatch handle_handshake_message handle_authenticated_message
  dispatch-IsConsistent draw unauthenticated t w o i = on_handshake-IsConsistent L draw _ w i o
  dispatch-IsConsistent draw authenticated t w o i = on_header-IsConsistent L c _ w i
  dispatch-IsConsistent draw closed t w o i = on_header-IsConsistent L c _ w i

  inspect-IsConsistent :
      (now : ℕ) (draw : ℕ → Option ℕ) (s : State) (t : Text) (w : World)
      → is_closed w.session.state ≡ false
      → IsConsistent w
      → IsConsistent (inspect L c now draw s t w)
  unfolding inspect check_suspicious_activity
  inspect-IsConsistent now draw s t w o i =
      let v : World = record w {
        session = record (w.session) {
          message_count = w.session.message_count + 1;
          last_activity = now;
        };
      } in
      let i' : IsConsistent v = record {
        sound = ground arith;
        registry = i.registry;
        released = i.released;
      } in
      if_intro IsConsistent (check_suspicious_activity now w).1
        (λ _. refuse-IsConsistent L _ _ v i')
        (λ _. finish_read-IsConsistent _ (dispatch-IsConsistent draw s t v o i').consistent)

  check_rate_limit-Passes :
      (now : ℕ) (w : World)
      → is_closed w.session.state ≡ false
      → IsConsistent w
      → Passes (check_rate_limit_or_close L c now w)
  unfolding check_rate_limit_or_close
  check_rate_limit-Passes now w o i =
      let q = slide c.max_messages_per_window (window_of c) now w.session.message_timestamps in
      let v : World = record w { session = record (w.session) { message_timestamps = q.0 } } in
      let i' : IsConsistent v = record {
        sound = ground arith;
        registry = i.registry;
        released = i.released;
      } in
      if_intro Passes q.1
        (λ _. record { consistent = refuse-IsConsistent L _ _ v i'; still_open = λ h. cc })
        (λ _. record { consistent = i'; still_open = λ _. o })

  on_message-IsConsistent :
      (now : ℕ) (draw : ℕ → Option ℕ) (s : State) (t : Text) (w : World)
      → is_closed w.session.state ≡ false
      → IsConsistent w
      → IsConsistent (on_message L c now draw s t w)
  unfolding on_message
  on_message-IsConsistent now draw s t w o i =
      let v : World = count_received L t w in
      let i' : IsConsistent v =
        unfold count_received in
        record { sound = ground arith; registry = i.registry; released = i.released } in
      let p = check_rate_limit-Passes now v (unfold count_received in o) i' in
      if_intro IsConsistent (check_rate_limit_or_close L c now v).1
        (λ passed. inspect-IsConsistent now draw s t _ (p.still_open passed) p.consistent)
        (λ _. p.consistent)

  pub on_read-IsConsistent :
      (now : ℕ) (draw : ℕ → Option ℕ) (r : ReadResult) (w : World)
      → IsConsistent w
      → IsConsistent (on_read L c now draw r w)
  unfolding on_read
  on_read-IsConsistent now draw peer_closed w i =
      if_intro IsConsistent (is_closed w.session.state) (λ _. i)
        (λ _. drop_connection-IsConsistent w i)
  on_read-IsConsistent now draw read_error w i =
      if_intro IsConsistent (is_closed w.session.state) (λ _. i)
        (λ _. drop_connection-IsConsistent w i)
  on_read-IsConsistent now draw (received t) w i =
      if_intro IsConsistent (is_closed w.session.state) (λ _. i)
        (λ o. on_message-IsConsistent now draw w.session.state t w o i)

  expire-IsConsistent : (s : State) (w : World) → IsConsistent w → IsConsistent (expire L s w)
  unfolding expire
  expire-IsConsistent unauthenticated w i = refuse-IsConsistent L _ _ w i
  expire-IsConsistent authenticated w i = refuse-IsConsistent L _ _ w i
  expire-IsConsistent closed w i = i

  pub on_deadline-IsConsistent :
      (r : TimerResult) (w : World) → IsConsistent w → IsConsistent (on_deadline L r w)
  unfolding on_deadline
  on_deadline-IsConsistent aborted w i =
      if_intro IsConsistent (is_closing w.session) (λ _. i)
        (λ _. record { sound = i.sound; registry = i.registry; released = i.released })
  on_deadline-IsConsistent failed w i =
      if_intro IsConsistent (is_closing w.session) (λ _. i)
        (λ _. record { sound = i.sound; registry = i.registry; released = i.released })
  on_deadline-IsConsistent expired w i = expire-IsConsistent w.session.state w i
