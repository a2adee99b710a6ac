-- ===== src/Server/WebsocketServer/Shutdown.antt =====
-- stop: it is final.
use cppsim.Prelude.{
  ℕ, suc, ◌≡◌, true, false, List, [], ◌∷◌, Option, none, some, refl, arith, ◌⊎◌, inl, inr, ◌∙◌, not,
  ◌||◌, ◌&&◌, if_intro,
}
use cppsim.Server.Manager.{stop_all}
use cppsim.Server.WebsocketServer.{
  Request, async_accept, start_session, close_session, wait_timer, cancel_timer, close_acceptor,
  Server, transient, connected, unserved, cancelled, fatal, request, do_accept, run, cancel,
  back_off, on_accept, on_timer, is_current, stop, close_all, Step, ran, accepted, timed, halted,
  registered, Reach, here, after, new_server,
}

-- How many sessions were started.
unfoldable pub started : List Request → ℕ
started [] = 0
started (start_session ∷ rs) = suc (started rs)
started (async_accept ∷ rs) = started rs
started (close_session n ∷ rs) = started rs
started (wait_timer t n ∷ rs) = started rs
started (cancel_timer t ∷ rs) = started rs
started (close_acceptor ∷ rs) = started rs

-- A stopped server is neither alive nor open.
record IsHalted (s : Server) : Type 0 where
  stopped : s.stopped ≡ true
  alive : s.alive ≡ false
  is_open : s.is_open ≡ false

-- A step from a stopped server: it stays stopped and starts nothing.
record IsQuiet (s t : Server) : Type 0 where
  halted : IsHalted t
  none_started : started t.requests ≡ started s.requests

same : (s : Server) → IsHalted s → IsQuiet s s
same s h = record { halted = h; none_started = refl }

Step-IsQuiet : {s t : Server} → Step s t → IsHalted s → IsQuiet s t
unfolding run do_accept request on_accept on_timer stop started
Step-IsQuiet (ran s) h =
    if_intro (IsQuiet s) s.initialized
      (λ _. record {
        halted = record { stopped = h.stopped; alive = h.alive; is_open = h.is_open };
        none_started = refl;
      })
      (λ _. same s h)
Step-IsQuiet (accepted cancelled s) h = same s h
Step-IsQuiet (accepted fatal s) h = same s h
Step-IsQuiet (accepted transient s) h =
    if_intro (IsQuiet s) s.is_open (λ e. cc (h.is_open)) (λ _. same s h)
Step-IsQuiet (accepted connected s) h =
    if_intro (IsQuiet s) (s.stopped || not s.alive)
      (λ _. record {
        halted = record { stopped = h.stopped; alive = h.alive; is_open = h.is_open };
        none_started = refl;
      })
      (λ e. absurd (ground arith))
Step-IsQuiet (accepted unserved s) h =
    if_intro (IsQuiet s) (s.stopped || not s.alive)
      (λ _. record {
        halted = record { stopped = h.stopped; alive = h.alive; is_open = h.is_open };
        none_started = refl;
      })
      (λ e. absurd (ground arith))
Step-IsQuiet (timed true t s) h = same s h
Step-IsQuiet (timed false t s) h =
    if_intro (IsQuiet s) (s.alive && s.is_open && is_current t s.backoff_timer)
      (λ e. absurd (ground arith)) (λ _. same s h)
Step-IsQuiet (halted s) h = if_intro (IsQuiet s) s.stopped (λ _. same s h) (λ e. cc (h.stopped))
Step-IsQuiet (registered m s) h = record {
  halted = record { stopped = h.stopped; alive = h.alive; is_open = h.is_open };
  none_started = refl;
}

-- Stopping asks for closes alone.
pub started-close_all : (ids : List ℕ) (rs : List Request) → started (close_all ids rs) ≡ started rs
unfolding started close_all
started-close_all [] rs = refl
started-close_all (n ∷ ids) rs = started-close_all ids (close_session n ∷ rs)

record IsCalmed (s t : Server) : Type 0 where
  stopped : t.stopped ≡ s.stopped
  alive : t.alive ≡ s.alive
  none_started : started t.requests ≡ started s.requests

cancel-IsCalmed : (o : Option ℕ) (s : Server) → IsCalmed s (cancel o s)
unfolding cancel request started
cancel-IsCalmed none s = record { stopped = refl; alive = refl; none_started = refl }
cancel-IsCalmed (some t) s = record { stopped = refl; alive = refl; none_started = refl }

-- A server that has not been stopped is halted by stop.
stop-IsQuiet : (s : Server) → s.stopped ≡ false → IsQuiet s (stop s)
unfolding stop started
stop-IsQuiet s f =
    let c = cancel-IsCalmed s.backoff_timer (record s { stopped = true; alive = false }) in
    if_intro (IsQuiet s) s.stopped (λ e. cc)
      (λ _. record {
        halted = record { stopped = c.stopped; alive = c.alive; is_open = refl };
        none_started = started-close_all (stop_all s.manager).0 _ ∙ c.none_started;
      })

-- What a step leaves: a server that was never stopped, or a halted one.
abbrev Settled : Server → Type 0
Settled s = (s.stopped ≡ false) ⊎ IsHalted s

cancel-stopped : (o : Option ℕ) (s : Server) → (cancel o s).stopped ≡ s.stopped
cancel-stopped o s = (cancel-IsCalmed o s).stopped

running_step : {s t : Server} → Step s t → s.stopped ≡ false → Settled t
unfolding run do_accept request on_accept on_timer back_off
running_step (ran s) f =
    inl (if_intro (λ (t : Server). t.stopped ≡ false) s.initialized (λ _. f) (λ _. f))
running_step (accepted cancelled s) f = inl f
running_step (accepted fatal s) f = inl f
running_step (accepted transient s) f = inl (
    if_intro (λ (t : Server). t.stopped ≡ false) s.is_open
      (λ _. cancel-stopped s.backoff_timer s ∙ f) (λ _. f))
running_step (accepted connected s) f =
    inl (if_intro (λ (t : Server). t.stopped ≡ false) (s.stopped || not s.alive) (λ _. f) (λ _. f))
running_step (accepted unserved s) f =
    inl (if_intro (λ (t : Server). t.stopped ≡ false) (s.stopped || not s.alive) (λ _. f) (λ _. f))
running_step (timed true t s) f = inl f
running_step (timed false t s) f = inl (
    if_intro (λ (u : Server). u.stopped ≡ false)
      (s.alive && s.is_open && is_current t s.backoff_timer) (λ _. f) (λ _. f))
running_step (halted s) f = inr (stop-IsQuiet s f).halted
running_step (registered m s) f = inl f

Reach-Settled : {s t : Server} → Reach s t → Settled s → Settled t
Reach-Settled here i = i
Reach-Settled (after r st) i = elim (Reach-Settled r i) [
  | inl f ↦ running_step st f
  | inr h ↦ inr (Step-IsQuiet st h).halted
]

Reach-IsQuiet : {s t : Server} → Reach s t → IsHalted s → IsQuiet s t
Reach-IsQuiet {s} here h = same s h
Reach-IsQuiet (after r st) h =
    let q = Reach-IsQuiet r h in
    let p = Step-IsQuiet st q.halted in
    record { halted = p.halted; none_started = p.none_started ∙ q.none_started }

Settled-stop : (s : Server) → Settled s → IsQuiet s (stop s)
Settled-stop s (inl f) = stop-IsQuiet s f
Settled-stop s (inr h) = Step-IsQuiet (halted s) h

-- In every history of a new server, once stop has run, no later step starts a session, whatever
-- accepts and timers were pending; the server stays stopped and its acceptor closed.
pub stop_final :
    {s t : Server}
    → Reach new_server s
    → Reach (stop s) t
    → (started t.requests ≡ started s.requests) × (t.stopped ≡ true) × (t.is_open ≡ false)
stop_final {s} r q =
    let first = Settled-stop s (Reach-Settled r (inl (unfold new_server in refl))) in
    let later = Reach-IsQuiet q first.halted in
    (later.none_started ∙ first.none_started, later.halted.stopped, later.halted.is_open)
