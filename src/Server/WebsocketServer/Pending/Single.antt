-- ===== src/Server/WebsocketServer/Pending/Single.antt =====
-- At most one operation of the accept loop is pending.
use cppsim.Prelude.{
  ℕ, suc, ◌+◌, ◌<◌, ◌≤◌, ◌≡◌, Bool, true, false, ◌&&◌, ◌||◌, List, [], ◌∷◌, Option, none, some,
  refl, arith, if_intro, ==_iff,
}
use cppsim.Server.Manager.{stop_all}
use cppsim.Server.WebsocketServer.{
  Request, close_session, close_acceptor, Server, AcceptResult, transient, connected, unserved,
  cancelled, fatal, request, do_accept, run, cancel, on_accept, on_timer, is_current, stop,
  close_all, new_server,
}
use cppsim.Server.WebsocketServer.Pending.{
  asked, Loop, mark_fired, ends_loop, waiting, LoopStep, accepted, timed, halted, registered,
  LoopReach, here, after, started_loop,
}
use cppsim.Server.WebsocketServer.Pending.Accepts.{
  IsSingle, waiting_mark, transient-IsSingle, connected-IsSingle, unserved-IsSingle,
}

current_waits :
    (o : Option ℕ) (t : ℕ) (f : ℕ → Bool)
    → is_current t o ≡ true
    → f t ≡ false
    → (waiting o f ≡ 1) × (waiting o (mark_fired t f) ≡ 0)
unfolding is_current
current_waits none t f c h = cc
current_waits (some u) t f c h =
    let e : t ≡ u = (==_iff t u).0 c in rw (← e) (ground arith, ground arith)

other_waits :
    (o : Option ℕ) (t : ℕ) (f : ℕ → Bool)
    → is_current t o ≡ false
    → waiting o (mark_fired t f) ≡ waiting o f
unfolding is_current
other_waits none t f c = refl
other_waits (some u) t f c = ground arith

mark_past :
    (n t : ℕ) (f : ℕ → Bool)
    → t < n
    → ((u : ℕ) → f u ≡ true → u < n)
    → (u : ℕ) → mark_fired t f u ≡ true
    → u < n
mark_past n t f h p u e = ground (arith, p u)

timed-IsSingle :
    (failed : Bool) (t : ℕ) (l : Loop)
    → t < l.server.timers
    → l.fired t ≡ false
    → IsSingle l
    → IsSingle (record l {
      server = on_timer failed t l.server;
      fired = mark_fired t l.fired;
      broken = l.broken || failed;
    })
unfolding on_timer do_accept request asked
timed-IsSingle true t l h f i = record {
  bound = omega (arith, i.bound, waiting_mark l.server.backoff_timer t l.fired);
  exact = λ e. ground arith;
  past = mark_past l.server.timers t l.fired h i.past;
}
timed-IsSingle false t l h f i =
    let o = l.server.backoff_timer in
    if_intro
      (λ s.
        IsSingle
          (record l { server = s; fired = mark_fired t l.fired; broken = l.broken || false }))
      (l.server.alive && l.server.is_open && is_current t o)
      (λ e.
        let (w, w') = current_waits o t l.fired (ground arith) f in
        record {
          bound = omega (arith, i.bound, w, w');
          exact =
              λ b. let (q, s, a, p) = i.exact (ground arith) in (omega (arith, q, w, w'), s, a, p);
          past = mark_past l.server.timers t l.fired h i.past;
        })
      (λ e. record {
        bound = omega (arith, i.bound, waiting_mark o t l.fired);
        exact = λ b.
            let (q, s, a, p) = i.exact (ground arith) in
            (omega (arith, q, other_waits o t l.fired (ground arith)), s, a, p);
        past = mark_past l.server.timers t l.fired h i.past;
      })

asked-close_all : (ids : List ℕ) (rs : List Request) → asked (close_all ids rs) ≡ asked rs
unfolding asked close_all
asked-close_all [] rs = refl
asked-close_all (n ∷ ids) rs = asked-close_all ids (close_session n ∷ rs)

asked-cancel : (o : Option ℕ) (s : Server) → asked (cancel o s).requests ≡ asked s.requests
unfolding cancel request asked
asked-cancel none s = refl
asked-cancel (some t) s = refl

timers-cancel : (o : Option ℕ) (s : Server) → (cancel o s).timers ≡ s.timers
unfolding cancel request
timers-cancel none s = refl
timers-cancel (some t) s = refl

halted-IsSingle :
    (l : Loop) → IsSingle l → IsSingle (record l { server = stop l.server; broken = true })
unfolding stop asked
halted-IsSingle l i =
    let marked : Server = record (l.server) { stopped = true; alive = false } in
    if_intro (λ s. IsSingle (record l { server = s; broken = true })) l.server.stopped
      (λ _. record { bound = i.bound; exact = λ e. cc; past = i.past })
      (λ _. record {
        bound = omega (
          arith,
          i.bound,
          asked-close_all (stop_all l.server.manager).0
              (close_acceptor ∷ (cancel l.server.backoff_timer marked).requests),
          asked-cancel l.server.backoff_timer marked,
        );
        exact = λ e. cc;
        past = λ t f. omega (arith, i.past t f, timers-cancel l.server.backoff_timer marked);
      })

accepted-IsSingle :
    (r : AcceptResult) (l : Loop)
    → l.ended < asked l.server.requests
    → IsSingle l
    → IsSingle (record l {
      server = on_accept r l.server;
      ended = suc l.ended;
      broken = l.broken || ends_loop r;
    })
unfolding on_accept
accepted-IsSingle cancelled l h i = record {
  bound = omega (arith, i.bound);
  exact = λ e. ground arith;
  past = i.past;
}
accepted-IsSingle fatal l h i = record {
  bound = omega (arith, i.bound);
  exact = λ e. ground arith;
  past = i.past;
}
accepted-IsSingle transient l h i = transient-IsSingle l h i
accepted-IsSingle connected l h i = connected-IsSingle l h i
accepted-IsSingle unserved l h i = unserved-IsSingle l h i

LoopStep-IsSingle : {k l : Loop} → LoopStep k l → IsSingle k → IsSingle l
LoopStep-IsSingle (accepted r l h) i = accepted-IsSingle r l h i
LoopStep-IsSingle (timed b t l h f) i = timed-IsSingle b t l h f i
LoopStep-IsSingle (halted l) i = halted-IsSingle l i
LoopStep-IsSingle (registered m l) i = record { bound = i.bound; exact = i.exact; past = i.past }

LoopReach-IsSingle : {l : Loop} → LoopReach started_loop l → IsSingle l
unfolding run new_server do_accept request asked
LoopReach-IsSingle here = record {
  bound = omega arith;
  exact = λ e. (refl, refl, refl, refl);
  past = λ t f. cc;
}
LoopReach-IsSingle (after r st) = LoopStep-IsSingle st (LoopReach-IsSingle r)

-- Once the server runs, of accepts that have not ended and a current backoff timer that has not
-- fired there is never more than one; and there is exactly one until a stop, a cancelled accept, a
-- fatal error or an error of a timer: the loop neither doubles nor dies.
pub accept_loop_single :
    {l : Loop}
    → LoopReach started_loop l
    → (asked l.server.requests + waiting l.server.backoff_timer l.fired ≤ suc l.ended)
      × (l.broken ≡ false
          → asked l.server.requests + waiting l.server.backoff_timer l.fired ≡ suc l.ended)
accept_loop_single r = let i = LoopReach-IsSingle r in (i.bound, λ e. (i.exact e).0)
