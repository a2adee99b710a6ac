-- ===== src/Server/Session/Admission/Welcome.antt =====
-- handle_handshake_message on its path without errors.
use cppsim.Prelude.{
  ℕ, ◌<◌, ◌≡◌, refl, Bool, true, false, List, [], ◌∷◌, ◌++◌, Option, some, Text, arith, length, leb,
  is_empty, text_eq, if_intro, ◌∙◌,
}
use cppsim.Json.{Floats, JsonLib}
use cppsim.Protocol.Messages.{HandshakeMessage, protocol_version_text}
use cppsim.Protocol.Parse.{parse_handshake, serialize_handshake_response}
use cppsim.Server.Config.{placeholder_seat, placeholder_stack, max_write_queue_size}
use cppsim.Server.Manager.{Manager, register_session}
use cppsim.Server.Session.State.{authenticated, unauthenticated, World, is_closing, emit}
use cppsim.Server.Session.Output.{queue_message}
use cppsim.Server.Session.Handlers.{
  Exit, returned, greeted, respond_handshake, welcome, admit, on_handshake,
  handle_handshake_message,
}

-- The session plays under the id, and the answer is the last message of the queue.
pub record Admitted (queue : List Text) (id answer : Text) (m : Manager ℕ) (w : World)
    : Type 0 where
  pub state : w.session.state ≡ authenticated
  pub staying : w.session.close_requested ≡ false
  pub session_id : w.session.session_id ≡ id
  pub write_queue : w.session.write_queue ≡ queue ++ answer ∷ []
  pub manager : w.manager ≡ some m

-- An open session with room in its queue takes a message.
record Queued (t : Text) (w : World) (r : World × Bool) : Type 0 where
  taken : r.1 ≡ true
  close_requested : r.0.session.close_requested ≡ w.session.close_requested
  session_id : r.0.session.session_id ≡ w.session.session_id
  write_queue : r.0.session.write_queue ≡ w.session.write_queue ++ t ∷ []
  manager : r.0.manager ≡ w.manager

queue_message-Queued :
    (t : Text) (w : World)
    → is_closing w.session ≡ false
    → length w.session.write_queue < max_write_queue_size
    → Queued t w (queue_message t w)
unfolding queue_message emit
queue_message-Queued t w open_session room = rw open_session (
    if_intro (Queued t w) (leb max_write_queue_size (length w.session.write_queue))
      (λ full. absurd (ground arith))
      (λ _.
        if_intro (Queued t w) w.session.writing
          (λ _. record {
            taken = refl;
            close_requested = refl;
            session_id = refl;
            write_queue = refl;
            manager = refl;
          })
          (λ _. record {
            taken = refl;
            close_requested = refl;
            session_id = refl;
            write_queue = refl;
            manager = refl;
          })))

module _ {F : Floats} (L : JsonLib F) where
  abbrev pub greeting_of : Text → Option Text
  greeting_of id = serialize_handshake_response L (record {
    session_id = id;
    seat_number = placeholder_seat;
    starting_stack = placeholder_stack;
  })

  -- What a handler leaves that admits the session.
  pub record Welcomes (queue : List Text) (id answer : Text) (m : Manager ℕ) (r : World × Exit)
      : Type 0 where
    pub admitted : Admitted queue id answer m r.0
    pub ends : r.1 ≡ returned

  greeted-Welcomes :
      (t : Text) (w : World) (r : World × Bool) (m : Manager ℕ)
      → w.session.close_requested ≡ false
      → w.manager ≡ some m
      → Queued t w r
      → Welcomes w.session.write_queue w.session.session_id t m (greeted L r)
  unfolding greeted
  greeted-Welcomes t w (v, true) m open_session e q = record {
    admitted = record {
      state = refl;
      staying = q.close_requested ∙ open_session;
      session_id = q.session_id;
      write_queue = q.write_queue;
      manager = q.manager ∙ e;
    };
    ends = refl;
  }
  greeted-Welcomes t w (v, false) m open_session e q = let h = q.taken in cc

  welcome-Welcomes :
      (id answer : Text) (m : Manager ℕ) (w : World)
      → is_empty id ≡ false
      → greeting_of id ≡ some answer
      → is_closing w.session ≡ false
      → w.session.close_requested ≡ false
      → length w.session.write_queue < max_write_queue_size
      → Welcomes w.session.write_queue id answer m (welcome L (id, m) w)
  unfolding welcome respond_handshake
  welcome-Welcomes id answer m w nonempty e open_session staying room =
      let v : World = record w {
        session = record (w.session) { session_id = id };
        manager = some m;
      } in
      rw (nonempty, e)
        (greeted-Welcomes answer v (queue_message answer v) m staying refl
          (queue_message-Queued answer v open_session room))

  -- The conditions on a session, a registry and a message under which the handshake goes through.
  pub record CanAdmit (draw : ℕ → Option ℕ) (g : Manager ℕ) (t answer : Text) (w : World)
      : Type 0 where
    pub state : w.session.state ≡ unauthenticated
    pub staying : w.session.close_requested ≡ false
    pub room : length w.session.write_queue < max_write_queue_size
    pub message : HandshakeMessage
    pub parsed : parse_handshake L t ≡ some message
    pub version : message.protocol_version ≡ protocol_version_text
    pub manager : w.manager ≡ some g
    pub registered : is_empty (register_session draw (some w.self) g).0 ≡ false
    pub answered : greeting_of (register_session draw (some w.self) g).0 ≡ some answer

  pub handle_handshake_message-Welcomes :
      (draw : ℕ → Option ℕ) (g : Manager ℕ) (t answer : Text) (w : World)
      → CanAdmit draw g t answer w
      → let r = register_session draw (some w.self) g in
        Welcomes w.session.write_queue r.0 answer r.1 (handle_handshake_message L draw t w)
  unfolding handle_handshake_message on_handshake admit text_eq welcome
  handle_handshake_message-Welcomes draw g t answer w c =
      let r = register_session draw (some w.self) g in
      let open_session : is_closing w.session ≡ false = rw (c.state, c.staying) refl in
      rw (c.parsed) (
        rw (c.version) (
          rw (c.manager) (
            welcome-Welcomes r.0 answer r.1 w c.registered c.answered open_session c.staying
              c.room)))
