-- ===== src/Server/WebsocketServer/Pending/Accepts.antt =====
-- The end of an accept leaves at most one operation of the accept loop pending.
use cppsim.Prelude.{
  ℕ, suc, ◌+◌, ◌<◌, ◌≤◌, ◌≡◌, inl, inr, Bool, true, false, ◌||◌, ◌∙◌, Option, none, some, refl,
  arith, if_intro, Bool-cases,
}
use cppsim.Server.WebsocketServer.{
  Server, transient, connected, unserved, request, do_accept, cancel, back_off, on_accept,
}
use cppsim.Server.WebsocketServer.Pending.{asked, Loop, mark_fired, waiting}

-- At most one operation is pending, and exactly one until the loop is broken.
pub record IsSingle (l : Loop) : Type 0 where
  pub bound : asked l.server.requests + waiting l.server.backoff_timer l.fired ≤ suc l.ended
  pub exact :
      l.broken ≡ false
      → (asked l.server.requests + waiting l.server.backoff_timer l.fired ≡ suc l.ended)
        × (l.server.stopped ≡ false)
        × (l.server.alive ≡ true)
        × (l.server.is_open ≡ true)
  pub past : (t : ℕ) → l.fired t ≡ true → t < l.server.timers

waiting_le : (o : Option ℕ) (f : ℕ → Bool) → waiting o f ≤ 1
waiting_le none f = omega arith
waiting_le (some t) f = ground arith

pub waiting_mark : (o : Option ℕ) (t : ℕ) (f : ℕ → Bool) → waiting o (mark_fired t f) ≤ waiting o f
waiting_mark none t f = omega arith
waiting_mark (some u) t f = ground arith

-- What a new timer leaves of the server.
record Renewed (s t : Server) : Type 0 where
  asks : asked t.requests ≡ asked s.requests
  timer : t.backoff_timer ≡ some s.timers
  timers : t.timers ≡ suc s.timers
  stopped : t.stopped ≡ s.stopped
  alive : t.alive ≡ s.alive
  is_open : t.is_open ≡ s.is_open

Renewed-from : (o : Option ℕ) (s : Server) → Renewed s (back_off (record s { backoff_timer = o }))
unfolding back_off cancel request asked
Renewed-from none s = record {
  asks = refl;
  timer = refl;
  timers = refl;
  stopped = refl;
  alive = refl;
  is_open = refl;
}
Renewed-from (some t) s = record {
  asks = refl;
  timer = refl;
  timers = refl;
  stopped = refl;
  alive = refl;
  is_open = refl;
}

unfired : (l : Loop) → IsSingle l → l.fired l.server.timers ≡ false
unfired l i = elim (Bool-cases (l.fired l.server.timers)) [
  | inl e ↦ absurd (omega (arith, i.past l.server.timers e))
  | inr e ↦ e
]

-- An error that is not fatal, while the acceptor is open.
backed_off :
    (l : Loop)
    → l.ended < asked l.server.requests
    → IsSingle l
    → (b : Bool) → (b ≡ false → l.broken ≡ false)
    → IsSingle (record l { server = back_off l.server; ended = suc l.ended; broken = b })
backed_off l h i b whole =
    let n = Renewed-from l.server.backoff_timer l.server in
    let w : waiting (back_off l.server).backoff_timer l.fired ≡ 1 =
      rw (n.timer) (rw (unfired l i) refl) in
    record {
      bound = rw (w, n.asks) (omega (arith, i.bound));
      exact = λ e.
          let (q, s, a, o) = i.exact (whole e) in
          (rw (w, n.asks) (omega (arith, q, h)), n.stopped ∙ s, n.alive ∙ a, n.is_open ∙ o);
      past = λ t f. rw (n.timers) (omega (arith, i.past t f));
    }

pub transient-IsSingle :
    (l : Loop)
    → l.ended < asked l.server.requests
    → IsSingle l
    → IsSingle (record l {
      server = on_accept transient l.server;
      ended = suc l.ended;
      broken = l.broken || false;
    })
unfolding on_accept
transient-IsSingle l h i =
    if_intro
      (λ s. IsSingle (record l { server = s; ended = suc l.ended; broken = l.broken || false }))
      l.server.is_open (λ _. backed_off l h i _ (λ e. ground arith))
      (λ shut. record {
        bound = omega (arith, i.bound);
        exact = λ e. ground (arith, i.exact);
        past = i.past;
      })

pub connected-IsSingle :
    (l : Loop)
    → l.ended < asked l.server.requests
    → IsSingle l
    → IsSingle (record l {
      server = on_accept connected l.server;
      ended = suc l.ended;
      broken = l.broken || false;
    })
unfolding on_accept do_accept request asked
connected-IsSingle l h i = record {
  bound = ground (arith, i.bound, waiting_le l.server.backoff_timer l.fired);
  exact = λ b. ground (arith, i.bound, i.exact, waiting_le l.server.backoff_timer l.fired);
  past = λ t f. ground (arith, i.past t f);
}

pub unserved-IsSingle :
    (l : Loop)
    → l.ended < asked l.server.requests
    → IsSingle l
    → IsSingle (record l {
      server = on_accept unserved l.server;
      ended = suc l.ended;
      broken = l.broken || false;
    })
unfolding on_accept do_accept request asked
unserved-IsSingle l h i = record {
  bound = ground (arith, i.bound, waiting_le l.server.backoff_timer l.fired);
  exact = λ b. ground (arith, i.bound, i.exact, waiting_le l.server.backoff_timer l.fired);
  past = λ t f. ground (arith, i.past t f);
}
