-- ===== src/Server/Session/Invariant/Requests.antt =====
-- The handlers of an authenticated client's requests keep the invariant.
use cppsim.Prelude.{
  ◌≡◌, refl, Bool, true, false, ◌||◌, Option, none, some, Text, ℤ, pos, ◌≤ℤ◌, ◌+ℤ◌, min_ℤ, leb_ℤ,
  to_u64, sub_u64, is_empty, length, arith, text_eq, ltb, if_intro, not, require, ◌>>◌, ltb_ℤ,
}
use cppsim.Json.{Floats, JsonLib}
use cppsim.Protocol.SessionId.{max_session_id_length}
use cppsim.Protocol.MessageTypes
use cppsim.Protocol.Messages.{
  max_amount, ActionMessage, ReloadRequestMessage, DisconnectMessage, ParsedMessageHeader,
}
use cppsim.Protocol.Parse.{parse_reload_from_envelope, validate_reload, validate_session_id_field}
use cppsim.Server.RuntimeConfig.{Limits}
use cppsim.Server.Session.State.{World}
use cppsim.Server.Session.Output.{queue_message}
use cppsim.Server.Session.Handlers.{
  validate_session_id, sequence, on_action, commit_stack, respond_reload, reload, on_reload,
  on_disconnect, on_header,
}
use cppsim.Server.Session.Invariant.{IsConsistent, Leaves}
use cppsim.Server.Session.Invariant.Output.{queue_message-IsConsistent, close-IsConsistent}
use cppsim.Server.Session.Invariant.Handlers.{refuse-IsConsistent, refused}

module _ {F : Floats} (L : JsonLib F) where
  validate_session_id-IsConsistent :
      (t : Text) (w : World) → IsConsistent w → Leaves (validate_session_id L t w)
  unfolding validate_session_id
  validate_session_id-IsConsistent t w c =
      if_intro Leaves (is_empty t) (λ _. refused L _ _ w c)
        (λ _.
          if_intro Leaves (ltb max_session_id_length (length t)) (λ _. refused L _ _ w c)
            (λ _.
              if_intro Leaves (not (text_eq t w.session.session_id)) (λ _. refused L _ _ w c)
                (λ _. record { consistent = c })))

  sequence-IsConsistent :
      (c : Limits) (seq : ℤ) (w : World) → IsConsistent w → IsConsistent (sequence L c seq w)
  unfolding sequence
  sequence-IsConsistent c seq w i =
      if_intro IsConsistent (leb_ℤ seq w.session.last_sequence_number)
        (λ _. refuse-IsConsistent L _ _ w i)
        (λ newer.
          let i' : IsConsistent
              (record w { session = record (w.session) { last_sequence_number = seq } }) =
            record { sound = ground arith; registry = i.registry; released = i.released } in
          if_intro IsConsistent
            (ltb (to_u64 c.max_sequence_gap)
              (sub_u64 (to_u64 seq) (to_u64 w.session.last_sequence_number)))
            (λ _. refuse-IsConsistent L _ _ w i) (λ _. i'))

  on_action-IsConsistent :
      (c : Limits) (o : Option ActionMessage) (w : World)
      → IsConsistent w
      → IsConsistent (on_action L c o w)
  unfolding on_action
  on_action-IsConsistent c none w i = refuse-IsConsistent L _ _ w i
  on_action-IsConsistent c (some m) w i =
      let i' = (validate_session_id-IsConsistent m.session_id w i).consistent in
      if_intro IsConsistent (validate_session_id L m.session_id w).1
        (λ _. sequence-IsConsistent c m.sequence_number _ i') (λ _. i')

  commit_stack-IsConsistent :
      (n : ℤ) (r : World × Bool)
      → pos 0 ≤ℤ n
      → n ≤ℤ max_amount
      → IsConsistent r.0
      → Leaves (commit_stack L n r)
  unfolding commit_stack
  commit_stack-IsConsistent n (w, true) lo hi c = record {
    consistent = record { sound = ground arith; registry = c.registry; released = c.released };
  }
  commit_stack-IsConsistent n (w, false) lo hi c = record { consistent = close-IsConsistent w c }

  respond_reload-IsConsistent :
      (n : ℤ) (o : Option Text) (w : World)
      → pos 0 ≤ℤ n
      → n ≤ℤ max_amount
      → IsConsistent w
      → Leaves (respond_reload L n o w)
  unfolding respond_reload
  respond_reload-IsConsistent n none w lo hi c = record { consistent = c }
  respond_reload-IsConsistent n (some t) w lo hi c =
      commit_stack-IsConsistent n (queue_message t w) lo hi (queue_message-IsConsistent t w c)

  -- The new stack lies between 0 and the maximum, and int64_t holds the sum.
  new_stack_range :
      (stack amount : ℤ)
      → pos 0 ≤ℤ stack
      → pos 0 ≤ℤ amount
      → (pos 0 ≤ℤ min_ℤ (stack +ℤ amount) max_amount)
        × (min_ℤ (stack +ℤ amount) max_amount ≤ℤ max_amount)
  new_stack_range stack amount h k = ground arith

  reload-IsConsistent :
      (amount : ℤ) (w : World) → pos 0 ≤ℤ amount → IsConsistent w → Leaves (reload L amount w)
  unfolding reload
  reload-IsConsistent amount w h c =
      let (lo, hi) = new_stack_range w.session.current_stack amount c.sound.stack_low h in
      respond_reload-IsConsistent _ _ w lo hi c

  -- Every request that the parser lets through has an amount of at least 1.
  abbrev Positive : Option ReloadRequestMessage → Type 0
  Positive none = Unit {0}
  Positive (some m) = pos 0 ≤ℤ m.requested_amount

  both_required :
      (a b : Bool) (m : ReloadRequestMessage)
      → (b ≡ true → pos 0 ≤ℤ m.requested_amount)
      → Positive (require a >> (require b >> some m))
  both_required true true m h = h refl
  both_required true false m h = tt
  both_required false b m h = tt

  parsed-Positive : (o : Option ReloadRequestMessage) → Positive (validate_reload o)
  unfolding validate_reload
  parsed-Positive none = tt
  parsed-Positive (some m) =
      both_required (validate_session_id_field m.session_id)
        (not (leb_ℤ m.requested_amount (pos 0) || ltb_ℤ max_amount m.requested_amount)) m
        (λ h. ground arith)

  on_reload-IsConsistent :
      (o : Option ReloadRequestMessage) (w : World)
      → Positive o
      → IsConsistent w
      → Leaves (on_reload L o w)
  unfolding on_reload
  on_reload-IsConsistent none w p c = refused L _ _ w c
  on_reload-IsConsistent (some m) w p c =
      let c' = (validate_session_id-IsConsistent m.session_id w c).consistent in
      if_intro Leaves (validate_session_id L m.session_id w).1
        (λ _. reload-IsConsistent m.requested_amount _ p c') (λ _. record { consistent = c' })

  on_disconnect-IsConsistent :
      (o : Option DisconnectMessage) (w : World)
      → IsConsistent w
      → IsConsistent (on_disconnect L o w)
  unfolding on_disconnect
  on_disconnect-IsConsistent none w c = refuse-IsConsistent L _ _ w c
  on_disconnect-IsConsistent (some m) w c =
      let c' = (validate_session_id-IsConsistent m.session_id w c).consistent in
      if_intro IsConsistent (validate_session_id L m.session_id w).1 (λ _. close-IsConsistent _ c')
        (λ _. c')

  pub on_header-IsConsistent :
      (c : Limits) (o : Option (ParsedMessageHeader (L.Json))) (w : World)
      → IsConsistent w
      → Leaves (on_header L c o w)
  unfolding on_header parse_reload_from_envelope
  on_header-IsConsistent c none w i = refused L _ _ w i
  on_header-IsConsistent c (some h) w i =
      if_intro Leaves (text_eq h.message_type MessageTypes.action)
        (λ _. record { consistent = on_action-IsConsistent c _ w i })
        (λ _.
          if_intro Leaves (text_eq h.message_type MessageTypes.reload_request)
            (λ _. on_reload-IsConsistent _ w (parsed-Positive _) i)
            (λ _.
              if_intro Leaves (text_eq h.message_type MessageTypes.disconnect)
                (λ _. record { consistent = on_disconnect-IsConsistent _ w i })
                (λ _. refused L _ _ w i)))
