-- ===== src/Server/WebsocketServer.antt =====
-- src/server/websocket_server.hpp and websocket_server.cpp: the accept loop. Each method and each
-- handler is one step; logging and metrics are left out. Of the constructor this
-- has the fields alone; the child Construction has its calls and the metrics.
pub mod Backoff
pub mod Shutdown
pub mod Races
pub mod Construction
pub mod Pending
use cppsim.Prelude.{
  ℕ, suc, ◌+◌, ◌*◌, ◌==◌, Bool, true, false, not, ◌&&◌, ◌||◌, List, [], ◌∷◌, ◌++◌, Option, none,
  some, ltb, map, if◌then◌else◌,
}
use cppsim.Server.Config.{max_backoff}
use cppsim.Server.Manager.{Manager, empty_manager, stop_all}

-- What the server asks of Asio and of its sessions. A timer is known by a number.
pub data Request : Type 0 where
  async_accept : Request
  start_session : Request
  close_session : ℕ → Request
  wait_timer : ℕ → ℕ → Request
  cancel_timer : ℕ → Request
  close_acceptor : Request

-- The fields; `timers` counts the timers made, and the latest request stands first.
pub record Server : Type 0 where
  pub initialized : Bool
  pub alive : Bool
  pub stopped : Bool
  pub is_open : Bool
  pub backoff_seconds : ℕ
  pub backoff_timer : Option ℕ
  pub timers : ℕ
  pub manager : Manager ℕ
  pub requests : List Request

-- How an async_accept ends: cancelled, with a fatal error, with another error, with a socket, or with
-- a socket for which creating the session throws.
pub data AcceptResult : Type 0 where
  cancelled fatal transient connected unserved : AcceptResult

unfoldable pub new_server : Server
new_server = record {
  initialized = true;
  alive = true;
  stopped = false;
  is_open = true;
  backoff_seconds = 1;
  backoff_timer = none;
  timers = 0;
  manager = empty_manager;
  requests = [];
}

unfoldable pub request : Request → Server → Server
request r s = record s { requests = r ∷ s.requests }

unfoldable pub do_accept : Server → Server
unfolding request
do_accept s = request async_accept s

unfoldable pub run : Server → Server
unfolding do_accept
run s = if s.initialized then do_accept s else s

-- Cancelling the timer that is there.
unfoldable pub cancel : Option ℕ → Server → Server
unfolding request
cancel none s = s
cancel (some t) s = request (cancel_timer t) s

unfoldable pub next_backoff : ℕ → ℕ
next_backoff b = if ltb max_backoff (b * 2) then max_backoff else b * 2

-- An error that is not fatal: a new timer takes the place of the old one.
unfoldable pub back_off : Server → Server
unfolding cancel request next_backoff
back_off s =
    let s' = request (wait_timer s.timers s.backoff_seconds) (cancel s.backoff_timer s) in
    record s' {
      backoff_timer = some s.timers;
      timers = suc s.timers;
      backoff_seconds = next_backoff s.backoff_seconds;
    }

unfoldable pub on_accept : AcceptResult → Server → Server
unfolding do_accept request back_off
on_accept cancelled s = s
on_accept fatal s = s
on_accept transient s = if s.is_open then back_off s else s
on_accept connected s =
    let s' = record s { backoff_seconds = 1; backoff_timer = none } in
    if s.stopped || not s.alive then s' else do_accept (request start_session s')
on_accept unserved s =
    let s' = record s { backoff_seconds = 1; backoff_timer = none } in
    if s.stopped || not s.alive then s' else do_accept s'

-- The timer is the one that the server waits for.
unfoldable pub is_current : ℕ → Option ℕ → Bool
is_current t none = false
is_current t (some u) = t == u

-- The handler of the wait on timer t.
unfoldable pub on_timer : Bool → ℕ → Server → Server
unfolding do_accept is_current
on_timer true t s = s
on_timer false t s = if s.alive && s.is_open && is_current t s.backoff_timer then do_accept s else s

-- The sessions are closed one after the other.
unfoldable pub close_all : List ℕ → List Request → List Request
close_all [] rs = rs
close_all (n ∷ ids) rs = close_all ids (close_session n ∷ rs)

unfoldable pub stop : Server → Server
unfolding cancel request
stop s =
    if s.stopped
    then s
    else (let s' = cancel s.backoff_timer (record s { stopped = true; alive = false }) in
        let r = stop_all s.manager in
        record s' {
          backoff_timer = none;
          is_open = false;
          manager = r.1;
          requests = close_all r.0 (close_acceptor ∷ s'.requests);
        })

pub data Step : Server → Server → Type 0 where
  ran : (s : Server) → Step s (run s)
  accepted : (r : AcceptResult) (s : Server) → Step s (on_accept r s)
  timed : (failed : Bool) (t : ℕ) (s : Server) → Step s (on_timer failed t s)
  halted : (s : Server) → Step s (stop s)
  registered : (m : Manager ℕ) (s : Server) → Step s (record s { manager = m })

pub data Reach (s : Server) : Server → Type 0 where
  here : Reach s s
  after : {t u : Server} → Reach s t → Step t u → Reach s u
