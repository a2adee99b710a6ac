-- ===== src/Server/Session/Footprint/Requests.antt =====
-- The handlers of requests, of the timer and of a failed accept or read: they take at most their own
-- id from the registry.
use cppsim.Prelude.{
  refl, Bool, true, false, Option, none, some, Text, ℤ, leb_ℤ, to_u64, sub_u64, is_empty, length,
  arith, text_eq, ltb, if_intro, not,
}
use cppsim.Json.{Floats, JsonLib}
use cppsim.Protocol.SessionId.{max_session_id_length}
use cppsim.Protocol.MessageTypes
use cppsim.Protocol.Messages.{
  ActionMessage, ReloadRequestMessage, DisconnectMessage, ParsedMessageHeader,
}
use cppsim.Server.RuntimeConfig.{Limits}
use cppsim.Server.Session.State.{
  World, State, unauthenticated, authenticated, closed, is_closed, is_closing, emit, cancel_timer,
}
use cppsim.Server.Session.Output.{queue_message}
use cppsim.Server.Session.Handlers.{
  Exit, validate_session_id, sequence, on_action, commit_stack, respond_reload, reload, on_reload,
  on_disconnect, on_header,
}
use cppsim.Server.Session.Events.{
  TimerResult, aborted, failed, expired, do_read, on_accept, drop_connection, read_on, expire,
  on_deadline, request_close, close_on_strand, destroy,
}
use cppsim.Server.Session.Invariant.{RegistryOk}
use cppsim.Server.Session.Footprint.{
  Minds, Uses, Uses-refl, quiet, shut, unregister_at, Minds-refl, Minds-trans, emit-Minds,
  unregister-Minds,
}
use cppsim.Server.Session.Footprint.Output.{
  do_close-Minds, close-Minds, queue_message-Minds, refuse-Minds,
}

pub drop_connection-Minds : (w : World) → Minds w (drop_connection w)
unfolding drop_connection
drop_connection-Minds w =
    Minds-trans (shut refl refl refl refl) (unregister-Minds _ (unfold emit in refl))

pub do_read-Minds : (w : World) → Minds w (do_read w)
unfolding do_read emit
do_read-Minds w =
    if_intro (Minds w) (is_closing w.session) (λ _. Minds-refl w)
      (λ _. quiet refl refl refl refl (λ e. e))

pub on_accept-Minds : (b : Bool) (w : World) → Minds w (on_accept b w)
unfolding on_accept
on_accept-Minds true w =
    if_intro (Minds w) (is_closed w.session.state) (λ _. Minds-refl w)
      (λ _. Minds-trans (shut refl refl refl refl) (emit-Minds cancel_timer _))
on_accept-Minds false w =
    if_intro (Minds w) (is_closing w.session) (λ _. Minds-refl w) (λ _. do_read-Minds w)

pub read_on-Minds : (c : Limits) (w : World) → Minds w (read_on c w)
unfolding read_on
read_on-Minds c w =
    if_intro (Minds w) (is_closing w.session) (λ _. Minds-refl w)
      (λ _. Minds-trans (emit-Minds _ w) (do_read-Minds _))

pub request_close-Minds : (w : World) → Minds w (request_close w)
unfolding request_close
request_close-Minds w = quiet refl refl refl refl (λ _. ground arith)

pub close_on_strand-Minds : (w : World) → Minds w (close_on_strand w)
unfolding close_on_strand
close_on_strand-Minds w =
    if_intro (Minds w) w.session.writing (λ _. Minds-refl w) (λ _. do_close-Minds w)

-- The destructor of a session that is still open takes its id away too.
pub destroy-Uses :
    (w : World) → RegistryOk w.manager → Uses w.session.session_id w.manager (destroy w).manager
unfolding destroy emit
destroy-Uses w r =
    if_intro (λ (v : World). Uses w.session.session_id w.manager v.manager)
      (is_closed w.session.state) (λ _. Uses-refl _ _ r)
      (λ _. unregister_at w.manager (emit cancel_timer w) r)

module _ {F : Floats} (L : JsonLib F) where
  expire-Minds : (s : State) (w : World) → Minds w (expire L s w)
  unfolding expire
  expire-Minds unauthenticated w = refuse-Minds L _ _ w
  expire-Minds authenticated w = refuse-Minds L _ _ w
  expire-Minds closed w = Minds-refl w

  pub on_deadline-Minds : (r : TimerResult) (w : World) → Minds w (on_deadline L r w)
  unfolding on_deadline
  on_deadline-Minds aborted w =
      if_intro (Minds w) (is_closing w.session) (λ _. Minds-refl w) (λ _. emit-Minds _ w)
  on_deadline-Minds failed w =
      if_intro (Minds w) (is_closing w.session) (λ _. Minds-refl w) (λ _. emit-Minds _ w)
  on_deadline-Minds expired w = expire-Minds w.session.state w

  validate_session_id-Minds : (t : Text) (w : World) → Minds w (validate_session_id L t w).0
  unfolding validate_session_id
  validate_session_id-Minds t w =
      let P : World × Bool → Type 0 = λ r. Minds w r.0 in
      if_intro P (is_empty t) (λ _. refuse-Minds L _ _ w)
        (λ _.
          if_intro P (ltb max_session_id_length (length t)) (λ _. refuse-Minds L _ _ w)
            (λ _.
              if_intro P (not (text_eq t w.session.session_id)) (λ _. refuse-Minds L _ _ w)
                (λ _. Minds-refl w)))

  sequence-Minds : (c : Limits) (seq : ℤ) (w : World) → Minds w (sequence L c seq w)
  unfolding sequence
  sequence-Minds c seq w =
      if_intro (Minds w) (leb_ℤ seq w.session.last_sequence_number) (λ _. refuse-Minds L _ _ w)
        (λ _.
          if_intro (Minds w)
            (ltb (to_u64 c.max_sequence_gap)
              (sub_u64 (to_u64 seq) (to_u64 w.session.last_sequence_number)))
            (λ _. refuse-Minds L _ _ w) (λ _. quiet refl refl refl refl (λ e. e)))

  on_action-Minds :
      (c : Limits) (o : Option ActionMessage) (w : World) → Minds w (on_action L c o w)
  unfolding on_action
  on_action-Minds c none w = refuse-Minds L _ _ w
  on_action-Minds c (some m) w =
      let k = validate_session_id-Minds m.session_id w in
      if_intro (Minds w) (validate_session_id L m.session_id w).1
        (λ _. Minds-trans k (sequence-Minds c m.sequence_number _)) (λ _. k)

  commit_stack-Minds :
      (n : ℤ) (v : World) (r : World × Bool) → Minds v r.0 → Minds v (commit_stack L n r).0
  unfolding commit_stack
  commit_stack-Minds n v (w, true) h = Minds-trans h (quiet refl refl refl refl (λ e. e))
  commit_stack-Minds n v (w, false) h = Minds-trans h (close-Minds w)

  respond_reload-Minds : (n : ℤ) (o : Option Text) (w : World) → Minds w (respond_reload L n o w).0
  unfolding respond_reload
  respond_reload-Minds n none w = Minds-refl w
  respond_reload-Minds n (some t) w =
      commit_stack-Minds n w (queue_message t w) (queue_message-Minds t w)

  on_reload-Minds : (o : Option ReloadRequestMessage) (w : World) → Minds w (on_reload L o w).0
  unfolding on_reload reload
  on_reload-Minds none w = refuse-Minds L _ _ w
  on_reload-Minds (some m) w =
      let k = validate_session_id-Minds m.session_id w in
      if_intro (λ (r : World × Exit). Minds w r.0) (validate_session_id L m.session_id w).1
        (λ _. Minds-trans k (respond_reload-Minds _ _ _)) (λ _. k)

  on_disconnect-Minds : (o : Option DisconnectMessage) (w : World) → Minds w (on_disconnect L o w)
  unfolding on_disconnect
  on_disconnect-Minds none w = refuse-Minds L _ _ w
  on_disconnect-Minds (some m) w =
      let k = validate_session_id-Minds m.session_id w in
      if_intro (Minds w) (validate_session_id L m.session_id w).1
        (λ _. Minds-trans k (close-Minds _)) (λ _. k)

  pub on_header-Minds :
      (c : Limits) (o : Option (ParsedMessageHeader (L.Json))) (w : World)
      → Minds w (on_header L c o w).0
  unfolding on_header
  on_header-Minds c none w = refuse-Minds L _ _ w
  on_header-Minds c (some h) w =
      let P : World × Exit → Type 0 = λ r. Minds w r.0 in
      if_intro P (text_eq h.message_type MessageTypes.action) (λ _. on_action-Minds c _ w)
        (λ _.
          if_intro P (text_eq h.message_type MessageTypes.reload_request) (λ _. on_reload-Minds _ w)
            (λ _.
              if_intro P (text_eq h.message_type MessageTypes.disconnect)
                (λ _. on_disconnect-Minds _ w) (λ _. refuse-Minds L _ _ w)))
