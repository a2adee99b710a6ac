-- ===== src/Server/WebsocketServer/Backoff.antt =====
-- The waits between failed accepts.
use cppsim.Prelude.{ℕ, zero, suc, ◌≡◌, true, ◌∷◌, some, ltb, if◌then◌else◌}
use cppsim.Server.WebsocketServer.{Server, wait_timer, transient, cancel, next_backoff, on_accept}

-- k errors in a row.
unfoldable pub fail_times : ℕ → Server → Server
fail_times zero s = s
fail_times (suc k) s = on_accept transient (fail_times k s)

-- The smaller of two numbers.
abbrev pub smaller : ℕ → ℕ → ℕ
smaller a b = if ltb b a then b else a

-- The acceptor stays open, the latest request is the wait of a new timer, which is the current one,
-- for this long, and the next wait is the next one.
record Waits (b : ℕ) (s s' : Server) : Type 0 where
  is_open : s'.is_open ≡ true
  seconds : s'.backoff_seconds ≡ next_backoff b
  timer : s'.backoff_timer ≡ some s.timers
  armed : s'.requests ≡ wait_timer s.timers b ∷ (cancel s.backoff_timer s).requests
