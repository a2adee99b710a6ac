-- ===== src/Server/WebsocketServer/Pending.antt =====
-- The accept loop: what is pending of it, an accept or the wait of a backoff timer.
pub mod Accepts
pub mod Single
use cppsim.Prelude.{
  ℕ, suc, ◌+◌, ◌<◌, ◌≤◌, ◌≡◌, ◌==◌, ◌⊎◌, inl, inr, Bool, true, false, not, ◌&&◌, ◌||◌, ◌∙◌, List,
  [], ◌∷◌, Option, none, some, refl, arith, if_intro, if◌then◌else◌, Bool-cases, ==_iff,
}
use cppsim.Server.Manager.{Manager, stop_all}
use cppsim.Server.WebsocketServer.{
  Request, async_accept, start_session, close_session, wait_timer, cancel_timer, close_acceptor,
  Server, AcceptResult, transient, connected, unserved, cancelled, fatal, request, do_accept, run,
  cancel, back_off, on_accept, on_timer, is_current, stop, close_all, new_server,
}

-- How many accepts were started.
unfoldable pub asked : List Request → ℕ
asked [] = 0
asked (async_accept ∷ rs) = suc (asked rs)
asked (start_session ∷ rs) = asked rs
asked (close_session n ∷ rs) = asked rs
asked (wait_timer t n ∷ rs) = asked rs
asked (cancel_timer t ∷ rs) = asked rs
asked (close_acceptor ∷ rs) = asked rs

-- The server, how many of its accepts have ended, which timers have, and whether something has ended
-- the loop: a stop, a cancelled accept, a fatal error, or an error of the timer.
pub record Loop : Type 0 where
  pub server : Server
  pub ended : ℕ
  pub fired : ℕ → Bool
  pub broken : Bool

abbrev pub mark_fired : ℕ → (ℕ → Bool) → ℕ → Bool
mark_fired t f u = u == t || f u

abbrev pub ends_loop : AcceptResult → Bool
ends_loop cancelled = true
ends_loop fatal = true
ends_loop transient = false
ends_loop connected = false
ends_loop unserved = false

-- The timer that the server waits for, if its wait has not ended.
abbrev pub waiting : Option ℕ → (ℕ → Bool) → ℕ
waiting none f = 0
waiting (some t) f = if f t then 0 else 1

-- An accept ends at most as often as it was started, and each timer's wait ends at most once.
pub data LoopStep : Loop → Loop → Type 0 where
  accepted :
      (r : AcceptResult) (l : Loop)
      → l.ended < asked l.server.requests
      → LoopStep l (record l {
        server = on_accept r l.server;
        ended = suc l.ended;
        broken = l.broken || ends_loop r;
      })
  timed :
      (failed : Bool) (t : ℕ) (l : Loop)
      → t < l.server.timers
      → l.fired t ≡ false
      → LoopStep l (record l {
        server = on_timer failed t l.server;
        fired = mark_fired t l.fired;
        broken = l.broken || failed;
      })
  halted : (l : Loop) → LoopStep l (record l { server = stop l.server; broken = true })
  registered :
      (m : Manager ℕ) (l : Loop)
      → LoopStep l (record l { server = record (l.server) { manager = m } })

pub data LoopReach (l : Loop) : Loop → Type 0 where
  here : LoopReach l l
  after : {t u : Loop} → LoopReach l t → LoopStep t u → LoopReach l u

abbrev pub started_loop : Loop
started_loop = record { server = run new_server; ended = 0; fired = λ t. false; broken = false }
