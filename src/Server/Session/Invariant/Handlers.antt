-- ===== src/Server/Session/Invariant/Handlers.antt =====
-- An answer with an error, and every handler of a handshake, keep the invariant.
use cppsim.Prelude.{
  ℕ, ◌≡◌, refl, Bool, true, false, Option, none, some, Text, is_empty, arith, text_eq, if_intro,
}
use cppsim.Json.{Floats, JsonLib}
use cppsim.Protocol.Messages.{protocol_version_text, HandshakeMessage}
use cppsim.Server.Manager.{Manager}
use cppsim.Server.Manager.Invariant.{Inv, register_session-Inv}
use cppsim.Server.Session.State.{World, is_closed, is_closing}
use cppsim.Server.Session.Output.{
  queue_message, count_error, queue_error, send_protocol_error, refuse,
}
use cppsim.Server.Session.Handlers.{greeted, respond_handshake, welcome, admit, on_handshake}
use cppsim.Server.Session.Invariant.{RegistryOk, IsConsistent, Leaves}
use cppsim.Server.Session.Invariant.Output.{
  queue_message-same, queue_message-IsConsistent, close-IsConsistent,
}

-- What is queued shows that the session is not closing.
pub queue_message_open :
    (t : Text) (w : World) → (queue_message t w).1 ≡ true → is_closing w.session ≡ false
unfolding queue_message
queue_message_open t w h = ground arith

module _ {F : Floats} (L : JsonLib F) where
  count_error-IsConsistent : (r : World × Bool) → IsConsistent r.0 → IsConsistent (count_error L r)
  unfolding count_error
  count_error-IsConsistent (w, true) c = c
  count_error-IsConsistent (w, false) c = record {
    sound = ground arith;
    registry = c.registry;
    released = c.released;
  }

  queue_error-IsConsistent :
      (o : Option Text) (w : World) → IsConsistent w → IsConsistent (queue_error L o w)
  unfolding queue_error
  queue_error-IsConsistent none w c = c
  queue_error-IsConsistent (some t) w c =
      count_error-IsConsistent (queue_message t w) (queue_message-IsConsistent t w c)

  pub refuse-IsConsistent :
      (code message : Text) (w : World) → IsConsistent w → IsConsistent (refuse L code message w)
  unfolding refuse send_protocol_error
  refuse-IsConsistent code message w c = close-IsConsistent _ (queue_error-IsConsistent _ w c)

  pub refused :
      {A : Type 0} {a : A} (code message : Text) (w : World)
      → IsConsistent w
      → Leaves (refuse L code message w, a)
  refused code message w c = record { consistent = refuse-IsConsistent code message w c }

  greeted-IsConsistent :
      (r : World × Bool)
      → IsConsistent r.0
      → (r.1 ≡ true → is_closed r.0.session.state ≡ false)
      → is_empty r.0.session.session_id ≡ false
      → Leaves (greeted L r)
  unfolding greeted
  greeted-IsConsistent (w, true) c h e = record {
    consistent = record {
      sound = ground (arith, h refl);
      registry = c.registry;
      released = λ f. cc;
    };
  }
  greeted-IsConsistent (w, false) c h e = record { consistent = close-IsConsistent w c }

  respond_handshake-IsConsistent :
      (o : Option Text) (w : World)
      → IsConsistent w
      → is_empty w.session.session_id ≡ false
      → Leaves (respond_handshake L o w)
  unfolding respond_handshake
  respond_handshake-IsConsistent none w c e = record { consistent = c }
  respond_handshake-IsConsistent (some t) w c e =
      let same = queue_message-same t w in
      greeted-IsConsistent (queue_message t w) (queue_message-IsConsistent t w c)
        (λ q. ground (arith, same.state, queue_message_open t w q)) (rw same.session_id e)

  welcome-IsConsistent :
      (r : Text × Manager ℕ) (w : World)
      → IsConsistent w
      → Inv r.1
      → is_closed w.session.state ≡ false
      → Leaves (welcome L r w)
  unfolding welcome
  welcome-IsConsistent (id, m) w c i o =
      let kept : IsConsistent (record w { manager = some m }) = record {
        sound = c.sound;
        registry = i;
        released = λ f. cc (o, f);
      } in
      let named : is_empty id ≡ false
          → IsConsistent
              (record w { manager = some m; session = record (w.session) { session_id = id } }) =
        λ e. record { sound = ground arith; registry = i; released = λ f. cc (o, f) } in
      if_intro Leaves (is_empty id) (λ _. refused _ _ _ kept)
        (λ e. respond_handshake-IsConsistent _ _ (named e) e)

  admit-IsConsistent :
      (draw : ℕ → Option ℕ) (o : Option (Manager ℕ)) (w : World)
      → IsConsistent w
      → RegistryOk o
      → is_closed w.session.state ≡ false
      → Leaves (admit L draw o w)
  unfolding admit
  admit-IsConsistent draw none w c r o = refused _ _ w c
  admit-IsConsistent draw (some m) w c r o =
      welcome-IsConsistent _ w c (register_session-Inv draw (some w.self) m r) o

  pub on_handshake-IsConsistent :
      (draw : ℕ → Option ℕ) (o : Option HandshakeMessage) (w : World)
      → IsConsistent w
      → is_closed w.session.state ≡ false
      → Leaves (on_handshake L draw o w)
  unfolding on_handshake
  on_handshake-IsConsistent draw none w c o = refused _ _ w c
  on_handshake-IsConsistent draw (some m) w c o =
      if_intro Leaves (text_eq m.protocol_version protocol_version_text)
        (λ _. admit-IsConsistent draw w.manager w c c.registry o) (λ _. refused _ _ w c)
