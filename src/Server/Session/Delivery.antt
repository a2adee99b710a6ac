-- ===== src/Server/Session/Delivery.antt =====
-- A close that waits for the write queue: what is queued is sent first, in its order.
pub mod Strand
use cppsim.Server.SessionMetrics.{increment_messages_sent, increment_bytes_sent}
use cppsim.Prelude.{
  ℕ, zero, suc, ◌≡◌, ◌<◌, refl, Bool, true, false, ltb, length-append, arith, if◌then◌else◌, List,
  [], ◌∷◌, ◌++◌, none, some, Text, length, is_empty, if_intro, ap, ◌∙◌, sym,
}
use cppsim.Server.Manager.{unregister_session}
use cppsim.Server.Session.State.{
  State, unauthenticated, authenticated, closed, Session, World, Effect, post_write, async_write,
  async_read, async_accept, async_close, tcp_close, cancel_timer, arm_timer, restart_timer,
  is_closed, emit,
}
use cppsim.Server.Session.Output.{
  unregister, finish_close, do_close, do_write, write_next, write_done, on_write,
}
use cppsim.Server.Session.Refusal.{finish_close-session}

-- The messages that were given to async_write, the earliest first.
unfoldable pub sent : List Effect → List Text
sent [] = []
sent (async_write t ∷ es) = sent es ++ t ∷ []
sent (post_write ∷ es) = sent es
sent (async_read ∷ es) = sent es
sent (async_accept ∷ es) = sent es
sent (async_close ∷ es) = sent es
sent (tcp_close ∷ es) = sent es
sent (cancel_timer ∷ es) = sent es
sent (arm_timer ∷ es) = sent es
sent (restart_timer n ∷ es) = sent es

-- How often do_write was posted.
unfoldable pub posts : List Effect → ℕ
posts [] = 0
posts (post_write ∷ es) = suc (posts es)
posts (async_write t ∷ es) = posts es
posts (async_read ∷ es) = posts es
posts (async_accept ∷ es) = posts es
posts (async_close ∷ es) = posts es
posts (tcp_close ∷ es) = posts es
posts (cancel_timer ∷ es) = posts es
posts (arm_timer ∷ es) = posts es
posts (restart_timer n ∷ es) = posts es

-- The strand runs do_write only if the handler between these worlds has posted it.
unfoldable pub run_posted : World → World → World
run_posted v w = if ltb (posts v.effects) (posts w.effects) then do_write w else w

-- A write has begun between these worlds.
unfoldable pub goes_on : World → World → Bool
goes_on v w = ltb (length (sent v.effects)) (length (sent w.effects))

-- The write in progress succeeds, and so does each write that begins after it, as long as one
-- begins, for this many writes at most; `bytes` says how many bytes each of them has sent.
unfoldable pub finish_writes : (ℕ → ℕ) → ℕ → World → World
finish_writes bytes zero w = w
finish_writes bytes (suc n) w =
    let v = run_posted w (on_write false (bytes n) w) in
    let rest = finish_writes bytes n v in if goes_on w v then rest else v

-- The world with this queue, a write in progress and a close that was asked for.
abbrev pub closing_with : List Text → World → World
closing_with q w = record w {
  session = record (w.session) { write_queue = q; writing = true; close_requested = true };
}

unregister-effects : (w : World) → (unregister w).effects ≡ w.effects
unfolding unregister
unregister-effects w =
    if_intro (λ (v : World). v.effects ≡ w.effects) (is_empty w.session.session_id) (λ _. refl)
      (λ _.
        elim w.manager
          as (λ o.
            (elim o as (λ _. World) [
              | none ↦ w
              | some m ↦ record w { manager = some (unregister_session w.session.session_id m) }
            ]).effects
            ≡ w.effects) [ none ↦ refl | some m ↦ refl ])

finish_close-sent : (s : State) (w : World) → sent (finish_close s w).effects ≡ sent w.effects
unfolding finish_close emit sent
finish_close-sent unauthenticated w = ap sent (unregister-effects (emit cancel_timer w))
finish_close-sent authenticated w = ap sent (unregister-effects (emit cancel_timer w))
finish_close-sent closed w = refl

finish_close-posts : (s : State) (w : World) → posts (finish_close s w).effects ≡ posts w.effects
unfolding finish_close emit posts
finish_close-posts unauthenticated w = ap posts (unregister-effects (emit cancel_timer w))
finish_close-posts authenticated w = ap posts (unregister-effects (emit cancel_timer w))
finish_close-posts closed w = refl

-- The session is closed, with nothing left, and q was sent after what was sent before.
pub record Delivered (q : List Text) (w v : World) : Type 0 where
  pub state : v.session.state ≡ closed
  pub queue : v.session.write_queue ≡ []
  pub output : sent v.effects ≡ sent w.effects ++ q

pub append_nil : (xs : List Text) → xs ++ [] ≡ xs
append_nil [] = refl
append_nil (x ∷ xs) = ap (λ ys. x ∷ ys) (append_nil xs)

pub append_next : (xs : List Text) (y : Text) (zs : List Text) → (xs ++ y ∷ []) ++ zs ≡ xs ++ y ∷ zs
append_next [] y zs = refl
append_next (x ∷ xs) y zs = ap (λ ts. x ∷ ts) (append_next xs y zs)

do_close-session :
    (w : World)
    → w.session.close_initiated ≡ false
    → ((do_close w).session ≡ record (w.session) { close_initiated = true; state = closed })
      × (sent (do_close w).effects ≡ sent w.effects)
      × (posts (do_close w).effects ≡ posts w.effects)
unfolding do_close
do_close-session w i =
    let v : World = record w {
      session = record (w.session) { close_initiated = true; state = closed };
    } in
    if_intro
      (λ (u : World).
        (u.session ≡ record (w.session) { close_initiated = true; state = closed })
        × (sent u.effects ≡ sent w.effects)
        × (posts u.effects ≡ posts w.effects))
      w.session.close_initiated (λ e. cc)
      (λ _. (
        finish_close-session w.session.state v,
        finish_close-sent w.session.state v,
        finish_close-posts w.session.state v,
      ))

ltb_self : (n : ℕ) → ltb n n ≡ false
ltb_self n = ground arith

-- A write after which nothing is posted and no write begins is the last one.
last_write :
    (bytes : ℕ → ℕ) (n : ℕ) (w : World)
    → let u = on_write false (bytes n) w in
      posts u.effects ≡ posts w.effects
      → sent u.effects ≡ sent w.effects
      → finish_writes bytes (suc n) w ≡ u
unfolding finish_writes run_posted goes_on
last_write bytes n w p q =
    rw (p, ltb_self (posts w.effects), q, ltb_self (length (sent w.effects))) refl

-- A write after which do_write is posted and begins another.
next_write :
    (bytes : ℕ → ℕ) (n : ℕ) (t : Text) (w : World)
    → let u = on_write false (bytes n) w in
      posts u.effects ≡ suc (posts w.effects)
      → sent (do_write u).effects ≡ sent w.effects ++ t ∷ []
      → finish_writes bytes (suc n) w ≡ finish_writes bytes n (do_write u)
unfolding finish_writes run_posted goes_on
next_write bytes n t w p q =
    let posted : ltb (posts w.effects) (suc (posts w.effects)) ≡ true = ground arith in
    let begun : ltb (length (sent w.effects)) (length (sent w.effects ++ t ∷ [])) ≡ true =
      ground (arith, length-append (sent w.effects) (t ∷ [])) in
    rw (p, posted, q, begun) refl

-- do_write of an open session begins the write of its first message.
pub do_write-begins :
    (t : Text) (ts : List Text) (w : World)
    → is_closed w.session.state ≡ false
    → do_write (closing_with (t ∷ ts) w)
      ≡ closing_with ts (record w { effects = async_write t ∷ w.effects })
unfolding do_write write_next emit
do_write-begins t ts w o = rw o refl

-- A session that is not closed and was asked to close during a write sends all that is queued, in
-- the order of the queue, if the writes succeed and as many of them end as there are messages in
-- the queue and the one in progress, where the strand runs do_write only when it was posted; then
-- the session is closed and its queue is empty.
pub finish_writes_lem :
    (bytes : ℕ → ℕ) (n : ℕ) (q : List Text) (w : World)
    → w.session.close_initiated ≡ false
    → is_closed w.session.state ≡ false
    → length q < n
    → Delivered q w (finish_writes bytes n (closing_with q w))
finish_writes_lem bytes zero q w i o h = absurd (omega arith)
finish_writes_lem bytes (suc n) [] w i o h =
    let m = increment_messages_sent 1 w.session.metrics in
    let v : World = record w {
      session = record (w.session) {
        close_requested = true;
        write_queue = [];
        writing = false;
        metrics = increment_bytes_sent (bytes n) m;
      };
    } in
    let r = do_close-session v i in
    let e : on_write false (bytes n) (closing_with [] w) ≡ do_close v =
      unfold on_write write_done in refl in
    rw (last_write bytes n (closing_with [] w) (rw e (r.2)) (rw e (r.1)), e)
      (record {
        state = ap (λ (s : Session). s.state) r.0;
        queue = ap (λ (s : Session). s.write_queue) r.0;
        output = r.1 ∙ sym (append_nil (sent w.effects));
      })
finish_writes_lem bytes (suc n) (t ∷ ts) w i o h =
    let m = increment_messages_sent 1 w.session.metrics in
    let u : World = record w {
      session = record (w.session) { metrics = increment_bytes_sent (bytes n) m };
      effects = post_write ∷ w.effects;
    } in
    let v : World = record u { effects = async_write t ∷ post_write ∷ w.effects } in
    let e : on_write false (bytes n) (closing_with (t ∷ ts) w) ≡ closing_with (t ∷ ts) u =
      unfold on_write write_done emit in refl in
    let b : do_write (on_write false (bytes n) (closing_with (t ∷ ts) w)) ≡ closing_with ts v =
      ap do_write e ∙ do_write-begins t ts u o in
    let d = finish_writes_lem bytes n ts v i o (omega arith) in
    rw
      (
        next_write bytes n t (closing_with (t ∷ ts) w) (rw e (unfold posts in refl))
            (rw b (unfold sent in refl)),
        b,
      )
      (record {
        state = d.state;
        queue = d.queue;
        output = d.output ∙ (unfold sent in append_next (sent w.effects) t ts);
      })
