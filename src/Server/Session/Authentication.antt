-- ===== src/Server/Session/Authentication.antt =====
-- How the handlers that do not read a message move the state of a session.
pub mod Histories
pub mod Reads
use cppsim.Prelude.{
  ℕ, ◌+◌, ◌≡◌, ◌≢◌, ◌⊎◌, inl, inr, refl, Bool, true, false, ◌||◌, List, [], ◌∷◌, Option, none, some,
  Text, codes, if◌then◌else◌, if_intro, ap, ◌∙◌, sym, subst, arith, is_empty, text_eq, text_eq→eq,
  Bool-cases, Option-cases,
}
use cppsim.Json.{Floats, JsonLib}
use cppsim.Protocol.Messages.{protocol_version_text, HandshakeMessage, ParsedMessageHeader}
use cppsim.Protocol.Parse.{parse_handshake}
use cppsim.Server.Manager.{Manager, register_session}
use cppsim.Server.RuntimeConfig.{Limits}
use cppsim.Server.Session.State.{
  State, authenticated, unauthenticated, closed, Session, World, is_closed, is_closing, emit,
  cancel_timer,
}
use cppsim.Server.Session.Output.{
  queue_message, unregister, finish_close, close, refuse, do_close, do_write, write_next,
  write_done, on_write, on_close,
}
use cppsim.Server.Session.Traffic.{
  slide, window_of, check_rate_limit_or_close, check_suspicious_activity,
}
use cppsim.Server.Session.Handlers.{
  Exit, returned, threw, greeted, respond_handshake, welcome, admit, on_handshake,
  handle_handshake_message, handle_authenticated_message,
}
use cppsim.Server.Session.Events.{
  ReadResult, peer_closed, read_error, received, TimerResult, aborted, failed, expired, do_read,
  on_accept, drop_connection, read_on, finish_read, dispatch, count_received, inspect, on_message,
  on_read, expire, on_deadline, request_close, close_on_strand,
}
use cppsim.Server.Session.Steps.{
  Phase, next_phase, accepting, reading, idle, Shares, Step, accepted, read, write_posted, written,
  timed, close_frame_sent, sent, close_asked, close_posted, shared, Reach, here, after,
}
use cppsim.Server.Session.State.{new_session}
use cppsim.Server.Session.Invariant.Steps.{new_world}
use cppsim.Server.Session.Invariant.Output.{queue_message-same, unregister_session_part}
use cppsim.Server.Session.Refusal.{
  Refused, refuse-Refused, close-Refused, finish_close-session, queue_message-Kept,
}

-- A handshake of this server's version was read from the text.
abbrev pub Greets : {F : Floats} → JsonLib F → Text → Type 0
Greets L t =
    (m : HandshakeMessage) × (parse_handshake L t ≡ some m)
    × (m.protocol_version ≡ protocol_version_text)

-- The session is in the state it was in, or closed.
abbrev pub Calm : World → World → Type 0
Calm v w = (w.session.state ≡ v.session.state) ⊎ (w.session.state ≡ closed)

-- Or it has a reason P.
abbrev pub Moves : Type 0 → World → World → Type 0
Moves P v w = Calm v w ⊎ P

pub Calm-trans : (u v w : World) → Calm u v → Calm v w → Calm u w
Calm-trans u v w h (inr e) = inr e
Calm-trans u v w (inl h) (inl e) = inl (e ∙ h)
Calm-trans u v w (inr h) (inl e) = inr (e ∙ h)

pub do_close-Calm : (w : World) → Calm w (do_close w)
unfolding do_close
do_close-Calm w =
    if_intro (Calm w) w.session.close_initiated (λ _. inl refl)
      (λ _. inr (
        ap (λ (s : Session). s.state)
          (finish_close-session w.session.state (record w {
            session = record (w.session) { close_initiated = true; state = closed };
          }))))

write_done-Calm : (q : List Text) (w : World) → Calm w (write_done q w)
unfolding write_done emit
write_done-Calm [] w =
    if_intro (Calm w) w.session.close_requested
      (λ _. do_close-Calm (record w { session = record (w.session) { writing = false } }))
      (λ _. inl refl)
write_done-Calm (t ∷ ts) w = inl refl

pub on_write-Calm : (b : Bool) (n : ℕ) (w : World) → Calm w (on_write b n w)
unfolding on_write
on_write-Calm true n w = do_close-Calm (record w {
  session = record (w.session) { writing = false; close_requested = true; write_queue = [] };
})
on_write-Calm false n w = write_done-Calm w.session.write_queue _

pub do_write-Calm : (w : World) → Calm w (do_write w)
unfolding do_write write_next emit
do_write-Calm w = ground arith

pub drop_connection-Calm : (w : World) → Calm w (drop_connection w)
unfolding drop_connection emit
drop_connection-Calm w = inr (
    ap (λ (s : Session). s.state)
      (unregister_session_part
        (emit cancel_timer (record w { session = record (w.session) { state = closed } }))))

pub on_accept-Calm : (b : Bool) (w : World) → Calm w (on_accept b w)
unfolding on_accept do_read emit
on_accept-Calm true w = ground arith
on_accept-Calm false w = ground arith

pub read_on-Calm : (c : Limits) (w : World) → Calm w (read_on c w)
unfolding read_on do_read emit
read_on-Calm c w = ground arith
