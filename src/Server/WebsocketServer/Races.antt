-- ===== src/Server/WebsocketServer/Races.antt =====
-- stop of src/server/websocket_server.cpp on one thread, while handlers of on_accept run on others:
-- the sections of both, each one step.
use cppsim.Prelude.{
  ℕ, suc, ◌+◌, ◌≤◌, ◌≡◌, refl, ◌∙◌, Bool, true, false, not, ◌||◌, ◌&&◌, Option, none, some, arith,
  if◌then◌else◌, if_intro,
}
use cppsim.Server.Manager.{stop_all}
use cppsim.Server.WebsocketServer.{
  AcceptResult, cancelled, fatal, transient, back_off, is_current, start_session, close_acceptor,
  Server, connected, unserved, request, do_accept, cancel, on_accept, on_timer, stop, close_all,
}
use cppsim.Server.WebsocketServer.Shutdown.{started, started-close_all}

-- The sections of stop after its exchange of stopped_.
unfoldable pub mark : Server → Server
mark s = record s { stopped = true }

unfoldable pub silence : Server → Server
silence s = record s { alive = false }

unfoldable pub drop_timer : Server → Server
unfolding cancel
drop_timer s = record (cancel s.backoff_timer s) { backoff_timer = none }

unfoldable pub close_listener : Server → Server
unfolding request
close_listener s = request close_acceptor (record s { is_open = false })

unfoldable pub stop_sessions : Server → Server
unfolding close_all
stop_sessions s =
    let r = stop_all s.manager in record s { manager = r.1; requests = close_all r.0 s.requests }

-- The sections of on_accept with a socket: the reset, and the start of the session.
unfoldable pub reset_backoff : Server → Server
reset_backoff s = record s { backoff_seconds = 1; backoff_timer = none }

unfoldable pub serve : Server → Server
unfolding request do_accept
serve s = do_accept (request start_session s)

cancel-manager : (o : Option ℕ) (s : Server) → (cancel o s).manager ≡ s.manager
unfolding cancel request
cancel-manager none s = refl
cancel-manager (some t) s = refl

-- One after the other, the sections are stop and on_accept.
stop-sections :
    (s : Server)
    → s.stopped ≡ false
    → stop s ≡ stop_sessions (close_listener (drop_timer (silence (mark s))))
unfolding stop mark silence drop_timer close_listener stop_sessions request
stop-sections s h =
    rw h (rw (cancel-manager s.backoff_timer (record s { stopped = true; alive = false })) refl)

on_accept-sections :
    (s : Server)
    → on_accept connected s
      ≡ (let t = reset_backoff s in if t.stopped || not t.alive then t else serve t)
unfolding on_accept reset_backoff serve
on_accept-sections s = refl

abbrev pub is_error : AcceptResult → Bool
is_error cancelled = true
is_error fatal = true
is_error transient = true
is_error connected = false
is_error unserved = false

-- The server with the handlers that have a socket: before the guard, past its read of stopped_, and
-- past the whole guard.
pub record Race : Type 0 where
  pub server : Server
  pub guarding : ℕ
  pub checking : ℕ
  pub serving : ℕ

pub data RaceStep : Race → Race → Type 0 where
  socket_came :
      (r : Race)
      → RaceStep r (record r { server = reset_backoff r.server; guarding = suc r.guarding })
  accept_failed :
      (a : AcceptResult) (r : Race)
      → is_error a ≡ true
      → RaceStep r (record r { server = on_accept a r.server })
  saw_stopped :
      (r : Race) (n : ℕ)
      → r.guarding ≡ suc n
      → r.server.stopped ≡ true
      → RaceStep r (record r { guarding = n })
  saw_running :
      (r : Race) (n : ℕ)
      → r.guarding ≡ suc n
      → r.server.stopped ≡ false
      → RaceStep r (record r { guarding = n; checking = suc r.checking })
  saw_dead :
      (r : Race) (n : ℕ)
      → r.checking ≡ suc n
      → r.server.alive ≡ false
      → RaceStep r (record r { checking = n })
  saw_alive :
      (r : Race) (n : ℕ)
      → r.checking ≡ suc n
      → r.server.alive ≡ true
      → RaceStep r (record r { checking = n; serving = suc r.serving })
  served :
      (r : Race) (n : ℕ)
      → r.serving ≡ suc n
      → RaceStep r (record r { server = serve r.server; serving = n })
  unable_to_serve :
      (r : Race) (n : ℕ)
      → r.serving ≡ suc n
      → RaceStep r (record r { server = do_accept r.server; serving = n })
  timed_out :
      (failed : Bool) (t : ℕ) (r : Race)
      → RaceStep r (record r { server = on_timer failed t r.server })
  marked : (r : Race) → RaceStep r (record r { server = mark r.server })
  silenced : (r : Race) → RaceStep r (record r { server = silence r.server })
  timer_dropped : (r : Race) → RaceStep r (record r { server = drop_timer r.server })
  listener_closed : (r : Race) → RaceStep r (record r { server = close_listener r.server })
  sessions_stopped : (r : Race) → RaceStep r (record r { server = stop_sessions r.server })

pub data RaceReach (r : Race) : Race → Type 0 where
  here : RaceReach r r
  after : {s t : Race} → RaceReach r s → RaceStep s t → RaceReach r t

-- The handlers past their read of stopped_.
abbrev pub committed : Race → ℕ
committed r = r.checking + r.serving

-- The server is as stopped as it was, and has started nothing.
abbrev Still : Server → Server → Type 0
Still s t = (t.stopped ≡ s.stopped) × (started t.requests ≡ started s.requests)

cancel-Still : (o : Option ℕ) (s : Server) → Still s (cancel o s)
unfolding cancel request started
cancel-Still none s = (refl, refl)
cancel-Still (some t) s = (refl, refl)

on_accept-Still : (a : AcceptResult) (s : Server) → is_error a ≡ true → Still s (on_accept a s)
unfolding on_accept back_off request started
on_accept-Still cancelled s e = (refl, refl)
on_accept-Still fatal s e = (refl, refl)
on_accept-Still transient s e =
    if_intro (Still s) s.is_open (λ _. cancel-Still s.backoff_timer s) (λ _. (refl, refl))
on_accept-Still connected s e = cc
on_accept-Still unserved s e = cc

on_timer-Still : (failed : Bool) (t : ℕ) (s : Server) → Still s (on_timer failed t s)
unfolding on_timer do_accept request started
on_timer-Still true t s = (refl, refl)
on_timer-Still false t s =
    if_intro (Still s) (s.alive && s.is_open && is_current t s.backoff_timer) (λ _. (refl, refl))
      (λ _. (refl, refl))

-- A stopped server stays so, and starts at most what is committed.
record IsBounded (r s : Race) : Type 0 where
  stopped : s.server.stopped ≡ true
  bound : started s.server.requests + committed s ≤ started r.server.requests + committed r

Still-IsBounded :
    (r : Race) (t : Server)
    → Still r.server t
    → r.server.stopped ≡ true
    → IsBounded r (record r { server = t })
Still-IsBounded r t k h = record { stopped = k.0 ∙ h; bound = omega (arith, k.1) }

RaceStep-IsBounded : {r s : Race} → RaceStep r s → r.server.stopped ≡ true → IsBounded r s
unfolding reset_backoff serve mark silence drop_timer close_listener stop_sessions started request
    do_accept
RaceStep-IsBounded (socket_came r) h = record { stopped = h; bound = omega arith }
RaceStep-IsBounded (accept_failed a r e) h =
    Still-IsBounded r (on_accept a r.server) (on_accept-Still a r.server e) h
RaceStep-IsBounded (saw_stopped r n e f) h = record { stopped = h; bound = omega arith }
RaceStep-IsBounded (saw_running r n e f) h = cc
RaceStep-IsBounded (saw_dead r n e f) h = record { stopped = h; bound = omega arith }
RaceStep-IsBounded (saw_alive r n e f) h = record { stopped = h; bound = omega arith }
RaceStep-IsBounded (served r n e) h = record { stopped = h; bound = omega arith }
RaceStep-IsBounded (unable_to_serve r n e) h = record { stopped = h; bound = omega arith }
RaceStep-IsBounded (timed_out failed t r) h =
    Still-IsBounded r (on_timer failed t r.server) (on_timer-Still failed t r.server) h
RaceStep-IsBounded (marked r) h = record { stopped = refl; bound = omega arith }
RaceStep-IsBounded (silenced r) h = record { stopped = h; bound = omega arith }
RaceStep-IsBounded (timer_dropped r) h =
    Still-IsBounded r (drop_timer r.server) (cancel-Still r.server.backoff_timer r.server) h
RaceStep-IsBounded (listener_closed r) h = record { stopped = h; bound = omega arith }
RaceStep-IsBounded (sessions_stopped r) h = record {
  stopped = h;
  bound = omega (arith, started-close_all (stop_all r.server.manager).0 r.server.requests);
}

Reach-IsBounded : {r s : Race} → r.server.stopped ≡ true → RaceReach r s → IsBounded r s
Reach-IsBounded h here = record { stopped = h; bound = omega arith }
Reach-IsBounded h (after q step) =
    let b = Reach-IsBounded h q in
    let c = RaceStep-IsBounded step b.stopped in
    record { stopped = c.stopped; bound = omega (arith, b.bound, c.bound) }

-- Once stopped_ is set, by the first step of stop, and whatever the other steps of stop, of the timers
-- and of the handlers are and in whatever order: the server stays stopped, and it starts no more
-- sessions than there were handlers past their read of stopped_ at that time.
pub races_bounded :
    {r s : Race}
    → r.server.stopped ≡ true
    → RaceReach r s
    → (s.server.stopped ≡ true)
      × (started s.server.requests ≤ started r.server.requests + committed r)
races_bounded h q = let b = Reach-IsBounded h q in (b.stopped, omega (arith, b.bound))
