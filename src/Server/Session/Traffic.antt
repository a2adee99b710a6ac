-- ===== src/Server/Session/Traffic.antt =====
-- The two checks that every message passes first.
pub mod Window
use cppsim.Prelude.{
  ℕ, ◌+◌, ◌-◌, ◌*◌, Bool, true, false, ◌&&◌, not, List, [], ◌∷◌, ◌++◌, Text, codes, ltb, leb,
  length, keep, pos_part, if◌then◌else◌,
}
use cppsim.Json.{Floats, JsonLib}
use cppsim.Protocol.ErrorCodes
use cppsim.Server.Config.{second}
use cppsim.Server.RuntimeConfig.{Limits}
use cppsim.Server.Session.State.{Session, World}
use cppsim.Server.Session.Output.{refuse}

-- The time stamps that are not older than the window: `t < now - window` is an older one.
unfoldable pub recent : ℕ → ℕ → List ℕ → List ℕ
recent window now ts = keep (λ t. not (ltb (t + window) now)) ts

-- The locked section: the time stamps that are kept, and whether this message is over the limit.
unfoldable pub slide : ℕ → ℕ → ℕ → List ℕ → List ℕ × Bool
slide limit window now ts =
    let kept = recent window now ts in
    if leb limit (length kept) then (kept, true) else (kept ++ now ∷ [], false)

-- The configured window, in nanoseconds.
abbrev pub window_of : Limits → ℕ
window_of c = pos_part c.rate_limit_window * second

unfoldable pub check_rate_limit_or_close :
    {F : Floats} → JsonLib F → Limits → ℕ → World → World × Bool
check_rate_limit_or_close L c now w =
    let (kept, over) =
      slide c.max_messages_per_window (window_of c) now w.session.message_timestamps in
    let w' = record w { session = record (w.session) { message_timestamps = kept } } in
    if over
    then (refuse L ErrorCodes.session_closed (codes "Rate limit exceeded") w', false)
    else (w', true)

-- Whether this message looks like part of a burst. The clock does not go back.
unfoldable pub check_suspicious_activity : ℕ → World → World × Bool
check_suspicious_activity now w =
    let count = w.session.message_count + 1 in
    (
      record w { session = record (w.session) { message_count = count; last_activity = now } },
      ltb 100 count && ltb (now - w.session.last_activity) second,
    )
