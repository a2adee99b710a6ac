-- ===== src/Server/Session/Requests.antt =====
-- The requests of an authenticated client: which are accepted, and what they change.
use cppsim.Prelude.{
  ◌≤◌, ◌≡◌, ◌⊎◌, inl, inr, refl, Bool, true, false, not, Option, none, some, Text, if_intro, arith,
  ℤ, pos, negsuc, ◌≤ℤ◌, ◌<ℤ◌, ◌+ℤ◌, leb_ℤ, to_u64, sub_u64, ltb, length, is_empty, text_eq,
  text_eq→eq, text_eq_refl, Option-cases, Bool-cases, IsInt64, min_ℤ,
}
use cppsim.Json.{Floats, JsonLib}
use cppsim.Protocol.SessionId.{max_session_id_length}
use cppsim.Protocol.Messages.{ActionMessage, ReloadRequestMessage, max_amount}
use cppsim.Server.RuntimeConfig.{Limits}
use cppsim.Server.Session.State.{Session, World}
use cppsim.Server.Session.Output.{queue_message}
use cppsim.Protocol.Parse.{serialize_reload_response}
use cppsim.Server.Session.Handlers.{
  Exit, returned, threw, commit_stack, respond_reload, reload, validate_session_id, sequence,
  on_action, on_reload,
}
use cppsim.Server.Session.Refusal.{Refused, refuse-Refused, close-Refused, queue_message-Kept}

-- The id is the session's own.
abbrev pub IsOwnId : Text → Session → Type 0
IsOwnId id s = (is_empty id ≡ false) × (length id ≤ max_session_id_length) × (id ≡ s.session_id)

-- The next sequence number is above the last one, by the gap at most.
abbrev pub IsNext : Limits → ℤ → ℤ → Type 0
IsNext c last seq = (last <ℤ seq) × (seq ≤ℤ last +ℤ c.max_sequence_gap)

module _ {F : Floats} (L : JsonLib F) where
  validate_session_id_lem :
      (id : Text) (w : World)
      → ((validate_session_id L id w ≡ (w, true)) × IsOwnId id w.session)
        ⊎ (((validate_session_id L id w).1 ≡ false)
            × ¬ IsOwnId id w.session
            × Refused w.session (validate_session_id L id w).0.session)
  unfolding validate_session_id
  validate_session_id_lem id w =
      if_intro P (is_empty id) (λ e. inr (refl, λ h. cc, refuse-Refused L _ _ w))
        (λ e.
          if_intro P (ltb max_session_id_length (length id))
            (λ long. inr (refl, λ h. ground arith, refuse-Refused L _ _ w))
            (λ short.
              if_intro P (not (text_eq id w.session.session_id))
                (λ other. inr (refl, λ h. cc (text_eq_refl id), refuse-Refused L _ _ w))
                (λ same. inl (
                  refl,
                  (e, ground arith, text_eq→eq id w.session.session_id (ground (arith, same))),
                ))))
    where
      P : World × Bool → Type 0
      P r =
          ((r ≡ (w, true)) × IsOwnId id w.session)
          ⊎ ((r.1 ≡ false) × ¬ IsOwnId id w.session × Refused w.session r.0.session)

  -- The subtraction on uint64_t finds the distance of the two sequence numbers.
  gap_lem :
      (c : Limits) (last seq : ℤ)
      → negsuc 0 ≤ℤ last
      → IsInt64 last
      → IsInt64 seq
      → pos 0 ≤ℤ c.max_sequence_gap
      → IsInt64 c.max_sequence_gap
      → last <ℤ seq
      → (ltb (to_u64 c.max_sequence_gap) (sub_u64 (to_u64 seq) (to_u64 last)) ≡ false
          → seq ≤ℤ last +ℤ c.max_sequence_gap)
        × (ltb (to_u64 c.max_sequence_gap) (sub_u64 (to_u64 seq) (to_u64 last)) ≡ true
            → ¬ (seq ≤ℤ last +ℤ c.max_sequence_gap))
  gap_lem c last seq low il is glow ig h = (λ e. ground arith, λ e k. ground arith)

  abbrev SequenceOutcome : Limits → ℤ → World → World → Type 0
  SequenceOutcome c seq w v =
      (IsNext c w.session.last_sequence_number seq
        × (v ≡ record w { session = record (w.session) { last_sequence_number = seq } }))
      ⊎ ((¬ IsNext c w.session.last_sequence_number seq) × Refused w.session v.session)

  sequence_lem :
      (c : Limits) (seq : ℤ) (w : World)
      → negsuc 0 ≤ℤ w.session.last_sequence_number
      → IsInt64 w.session.last_sequence_number
      → IsInt64 seq
      → pos 0 ≤ℤ c.max_sequence_gap
      → IsInt64 c.max_sequence_gap
      → SequenceOutcome c seq w (sequence L c seq w)
  unfolding sequence
  sequence_lem c seq w low il is glow ig =
      let last = w.session.last_sequence_number in
      if_intro (SequenceOutcome c seq w) (leb_ℤ seq last)
        (λ old. inr (λ h. ground arith, refuse-Refused L _ _ w))
        (λ new.
          let g = gap_lem c last seq low il is glow ig (ground arith) in
          if_intro (SequenceOutcome c seq w)
            (ltb (to_u64 c.max_sequence_gap) (sub_u64 (to_u64 seq) (to_u64 last)))
            (λ far. inr (λ h. g.1 far h.1, refuse-Refused L _ _ w))
            (λ near. inl ((ground arith, g.0 near), refl)))

  -- In a session whose last sequence number is -1 or more, with a gap limit that is not negative and
  -- all numbers in the range of int64_t, a valid action is accepted if and only if it carries the
  -- session's own id and a sequence number above the last one by the limit at most; then only the
  -- last sequence number changes, to that of the action. Otherwise the session is asked to close, and
  -- the close has begun or a write is under way, at whose end it begins; its id, its last sequence
  -- number and its stack stay.
  pub on_action_lem :
      (c : Limits) (m : ActionMessage) (w : World)
      → negsuc 0 ≤ℤ w.session.last_sequence_number
      → IsInt64 w.session.last_sequence_number
      → IsInt64 m.sequence_number
      → pos 0 ≤ℤ c.max_sequence_gap
      → IsInt64 c.max_sequence_gap
      → ((IsOwnId m.session_id w.session
            × IsNext c w.session.last_sequence_number m.sequence_number)
          × (on_action L c (some m) w ≡ record w {
            session = record (w.session) { last_sequence_number = m.sequence_number };
          }))
        ⊎ ((¬ (
              IsOwnId m.session_id w.session
              × IsNext c w.session.last_sequence_number m.sequence_number))
            × Refused w.session (on_action L c (some m) w).session)
  unfolding on_action
  on_action_lem c m w low il is glow ig = elim (validate_session_id_lem m.session_id w) [
    | inl (e, own) ↦ rw e (elim (sequence_lem c m.sequence_number w low il is glow ig) [
      | inl (next, r) ↦ inl ((own, next), r)
      | inr (not_next, r) ↦ inr (λ h. not_next h.1, r)
    ])
    | inr (e, not_own, r) ↦ rw e (inr (λ h. not_own h.0, r))
  ]

  -- The stack that a reload asks for: at most the maximum.
  abbrev refilled : ℤ → World → ℤ
  refilled amount w = min_ℤ (w.session.current_stack +ℤ amount) max_amount

  abbrev granting : ℤ → World → Option Text
  granting amount w =
      serialize_reload_response L (record { granted = true; new_stack = refilled amount w })

  -- How a reload ends: its answer is queued and the stack is the new one; or the serializer threw
  -- and nothing has changed; or the answer was not queued, the session closes and the stack stays.
  pub data Reloaded (amount : ℤ) (w : World) : World × Exit → Type 0 where
    committed :
        (t : Text)
        → granting amount w ≡ some t
        → (queue_message t w).1 ≡ true
        → Reloaded amount w (
          record ((queue_message t w).0) {
            session = record ((queue_message t w).0.session) { current_stack = refilled amount w };
          },
          returned,
        )
    unserialized : granting amount w ≡ none → Reloaded amount w (w, threw)
    unqueued :
        (t : Text) (v : World)
        → granting amount w ≡ some t
        → (queue_message t w).1 ≡ false
        → Refused w.session v.session
        → Reloaded amount w (v, returned)

  reload-Reloaded : (amount : ℤ) (w : World) → Reloaded amount w (reload L amount w)
  unfolding reload respond_reload commit_stack
  reload-Reloaded amount w = elim (Option-cases (granting amount w)) [
    | inl e ↦ rw e (unserialized e)
    | inr (t, e) ↦ rw e (elim (Bool-cases (queue_message t w).1) [
      | inl queued ↦ rw queued (committed t e queued)
      | inr full ↦
          rw full (unqueued t _ e full (close-Refused w.session _ (queue_message-Kept t w)))
    ])
  ]

  -- A valid reload request with the session's own id raises the stack by the amount, to the maximum at
  -- most, exactly if the answer that grants this stack could be queued; otherwise the stack stays. A
  -- request with another id is refused, and the stack stays.
  pub on_reload_lem :
      (m : ReloadRequestMessage) (w : World)
      → (IsOwnId m.session_id w.session × Reloaded m.requested_amount w (on_reload L (some m) w))
        ⊎ ((¬ IsOwnId m.session_id w.session)
            × ((on_reload L (some m) w).1 ≡ returned)
            × Refused w.session (on_reload L (some m) w).0.session)
  unfolding on_reload
  on_reload_lem m w = elim (validate_session_id_lem m.session_id w) [
    | inl (e, own) ↦ rw e (inl (own, reload-Reloaded m.requested_amount w))
    | inr (e, not_own, r) ↦ rw e (inr (not_own, refl, r))
  ]
