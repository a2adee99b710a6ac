-- ===== src/Server/Session/Steps.antt =====
-- The life of a session as steps: the handlers that Asio may call, and what other threads do.
use cppsim.Prelude.{ℕ, Bool, ◌≡◌, ◌⊎◌, Option, none, some, Text, if◌then◌else◌}
use cppsim.Json.{Floats, JsonLib}
use cppsim.Server.SessionMap.{find}
use cppsim.Server.Manager.{Manager}
use cppsim.Server.Manager.Invariant.{Inv}
use cppsim.Server.RuntimeConfig.{Limits}
use cppsim.Server.Session.State.{World, is_closing}
use cppsim.Server.Session.Output.{queue_message, do_write, on_write, on_close}
use cppsim.Server.Session.Events.{
  ReadResult, TimerResult, on_accept, on_read, on_deadline, request_close, close_on_strand,
}

-- Which of async_accept and async_read is pending: do_read starts one exactly when the guard at the
-- end of on_accept and on_read lets it.
pub data Phase : Type 0 where
  accepting reading idle : Phase

abbrev pub next_phase : World → Phase
next_phase w = if is_closing w.session then idle else reading

-- Other sessions and threads use the registry too, and they keep its invariant. They may remove this
-- session (stop_all); they do not register another under its id.
abbrev pub Shares : Text → Option (Manager ℕ) → Option (Manager ℕ) → Type 0
Shares id none none = Unit {0}
Shares id (some m) none = Unit {0}
Shares id none (some m') = ⊥
Shares id (some m) (some m') =
    Inv m' × ((find id m'.sessions ≡ find id m.sessions) ⊎ (find id m'.sessions ≡ none))

module _ {F : Floats} (L : JsonLib F) (c : Limits) where
  pub data Step : Phase × World → Phase × World → Type 0 where
    accepted :
        (failed : Bool) (w : World)
        → Step (accepting, w) (next_phase (on_accept failed w), on_accept failed w)
    read :
        (now : ℕ) (draw : ℕ → Option ℕ) (r : ReadResult) (w : World)
        → Step (reading, w) (next_phase (on_read L c now draw r w), on_read L c now draw r w)
    write_posted : (p : Phase) (w : World) → Step (p, w) (p, do_write w)
    written :
        (p : Phase) (failed : Bool) (bytes : ℕ) (w : World)
        → Step (p, w) (p, on_write failed bytes w)
    timed : (p : Phase) (r : TimerResult) (w : World) → Step (p, w) (p, on_deadline L r w)
    close_frame_sent : (p : Phase) (failed : Bool) (w : World) → Step (p, w) (p, on_close failed w)
    sent : (p : Phase) (t : Text) (w : World) → Step (p, w) (p, (queue_message t w).0)
    close_asked : (p : Phase) (w : World) → Step (p, w) (p, request_close w)
    close_posted : (p : Phase) (w : World) → Step (p, w) (p, close_on_strand w)
    shared :
        (p : Phase) (w : World) (o : Option (Manager ℕ))
        → Shares w.session.session_id w.manager o
        → Step (p, w) (p, record w { manager = o })

  pub data Reach (s : Phase × World) : Phase × World → Type 0 where
    here : Reach s s
    after : {t u : Phase × World} → Reach s t → Step t u → Reach s u
