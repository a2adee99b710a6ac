-- ===== src/Server/RuntimeConfig.antt =====
-- src/server/runtime_config_manager.hpp and runtime_config_manager.cpp: the configuration that is
-- read at run time. The file system and the clock are arguments: the text of the file, `none` if it
-- does not open, and the time in nanoseconds. Each locked section is one step; logging is left out.
pub mod Ranges
pub mod Export
pub mod Getters
use cppsim.Prelude.{
  ℕ, ◌+◌, ◌*◌, Bool, true, false, ◌||◌, ◌&&◌, Option, none, some, Text, codes, ℤ, pos, ltb, ltb_ℤ,
  to_int32, ◌>>=◌, ◌>>◌, require, if◌then◌else◌, not, is_empty, [], ◌∷◌,
}
use cppsim.Json.{Floats, JsonLib}
use cppsim.Protocol.Messages.{max_amount}
use cppsim.Server.Config.{second}

-- The limits of which the server reads its tuning. Durations are in seconds.
pub record Limits : Type 0 where
  pub max_connections : ℤ
  pub handshake_timeout : ℤ
  pub max_message_size : ℕ
  pub max_write_queue_size : ℕ
  pub max_messages_per_window : ℕ
  pub rate_limit_window : ℤ
  pub max_backoff : ℤ
  pub ws_idle_timeout : ℤ
  pub max_amount : ℤ
  pub max_sequence_gap : ℤ
  pub security_enabled : Bool
  pub metrics_enabled : Bool

pub record RuntimeConfig : Type 0 where
  pub limits : Limits
  pub config_path : Text
  -- in nanoseconds
  pub last_reload_time : ℕ

abbrev pub default_limits : Limits
default_limits = record {
  max_connections = pos 1000;
  handshake_timeout = pos 10;
  max_message_size = 65536;
  max_write_queue_size = 100;
  max_messages_per_window = 10;
  rate_limit_window = pos 1;
  max_backoff = pos 30;
  ws_idle_timeout = pos 86400;
  max_amount = max_amount;
  max_sequence_gap = pos 10000;
  security_enabled = true;
  metrics_enabled = true;
}

-- A value out of its range gives the default.
unfoldable pub clamp_ℤ : ℤ → ℤ → ℤ → ℤ → ℤ
clamp_ℤ lo hi default v = if ltb_ℤ v lo || ltb_ℤ hi v then default else v

unfoldable pub clamp_size : ℕ → ℕ → ℕ → ℕ → ℕ
clamp_size lo hi default v = if ltb v lo || ltb hi v then default else v

module _ {F : Floats} (L : JsonLib F) where
  open L use {Json}

  -- A member that is a number, read by get and checked by clamp; without one, the default.
  unfoldable pub read_number :
      {A : Type 0} → (Json → Option A) → (A → A) → A → Option Json → Option A
  read_number get clamp default none = some default
  read_number get clamp default (some v) =
      if L.is_number v then (do a ← get v; some (clamp a)) else some default

  unfoldable pub read_bool : Bool → Option Json → Option Bool
  read_bool default none = some default
  read_bool default (some v) = if L.is_boolean v then L.get_bool v else some default

  -- The seconds and other int64_t members.
  unfoldable pub read_int64 : Text → ℤ → ℤ → ℤ → Json → Option ℤ
  unfolding read_number
  read_int64 key lo hi default j =
      read_number L.get_int64 (clamp_ℤ lo hi default) default (L.find key j)

  -- The size_t members.
  unfoldable pub read_size : Text → ℕ → ℕ → ℕ → Json → Option ℕ
  unfolding read_number
  read_size key lo hi default j =
      read_number L.get_uint64 (clamp_size lo hi default) default (L.find key j)

  -- static_cast<int> comes before the check of the range.
  unfoldable pub read_max_connections : Json → Option ℤ
  unfolding read_number
  read_max_connections j =
      read_number L.get_int64 (λ v. clamp_ℤ (pos 1) (pos 10000) (pos 1000) (to_int32 v)) (pos 1000)
        (L.find (codes "max_connections") j)

  unfoldable pub read_limits : Json → Option Limits
  read_limits j = do
    connections ← read_max_connections j
    handshake ← read_int64 (codes "handshake_timeout") (pos 1) (pos 300) (pos 10) j
    message_size ← read_size (codes "max_message_size") 1024 (1024 * 1024) 65536 j
    queue_size ← read_size (codes "max_write_queue_size") 10 1000 100 j
    per_window ← read_size (codes "max_messages_per_window") 1 1000 10 j
    window ← read_int64 (codes "rate_limit_window") (pos 1) (pos 60) (pos 1) j
    backoff ← read_int64 (codes "max_backoff") (pos 1) (pos 300) (pos 30) j
    idle ← read_int64 (codes "ws_idle_timeout") (pos 1) (pos 172800) (pos 86400) j
    amount ← read_int64 (codes "max_amount") (pos 1000) max_amount max_amount j
    gap ← read_int64 (codes "max_sequence_gap") (pos 100) (pos 100000) (pos 10000) j
    security ← read_bool true (L.find (codes "security_enabled") j)
    metrics ← read_bool true (L.find (codes "metrics_enabled") j)
    require (not (ltb queue_size per_window))
    some (record {
      max_connections = connections;
      handshake_timeout = handshake;
      max_message_size = message_size;
      max_write_queue_size = queue_size;
      max_messages_per_window = per_window;
      rate_limit_window = window;
      max_backoff = backoff;
      ws_idle_timeout = idle;
      max_amount = amount;
      max_sequence_gap = gap;
      security_enabled = security;
      metrics_enabled = metrics;
    })

  -- The limits are put in place together, or not at all.
  unfoldable pub load_from_json : Json → RuntimeConfig → RuntimeConfig × Bool
  load_from_json j c = elim (read_limits j) [
    | none ↦ (c, false)
    | some limits ↦ (record c { limits = limits }, true)
  ]

  unfoldable pub load_parsed : Text → ℕ → Option Json → RuntimeConfig → RuntimeConfig × Bool
  load_parsed path now none c = (c, false)
  load_parsed path now (some j) c =
      let r = load_from_json j c in
      if r.1
      then (record { limits = r.0.limits; config_path = path; last_reload_time = now }, true)
      else (c, false)

  unfoldable pub load_from_file : Text → Option Text → ℕ → RuntimeConfig → RuntimeConfig × Bool
  load_from_file path file now c = load_parsed path now (file >>= L.parse) c

  -- Within 5 seconds of the last load nothing is read.
  unfoldable pub reload : Option Text → ℕ → ℕ → RuntimeConfig → RuntimeConfig × Bool
  reload file now loaded c =
      if is_empty c.config_path
      then (c, false)
      else if ltb now (c.last_reload_time + 5 * second)
      then (c, true)
      else load_from_file c.config_path file loaded c

  -- What export_to_json writes out.
  unfoldable pub config_json : RuntimeConfig → ℤ → Json
  config_json c time = L.object (
      (codes "max_connections", L.integer c.limits.max_connections)
      ∷ (codes "handshake_timeout", L.integer c.limits.handshake_timeout)
      ∷ (codes "max_message_size", L.integer (pos c.limits.max_message_size))
      ∷ (codes "max_write_queue_size", L.integer (pos c.limits.max_write_queue_size))
      ∷ (codes "max_messages_per_window", L.integer (pos c.limits.max_messages_per_window))
      ∷ (codes "rate_limit_window", L.integer c.limits.rate_limit_window)
      ∷ (codes "max_backoff", L.integer c.limits.max_backoff)
      ∷ (codes "ws_idle_timeout", L.integer c.limits.ws_idle_timeout)
      ∷ (codes "max_amount", L.integer c.limits.max_amount)
      ∷ (codes "max_sequence_gap", L.integer c.limits.max_sequence_gap)
      ∷ (codes "security_enabled", L.boolean c.limits.security_enabled)
      ∷ (codes "metrics_enabled", L.boolean c.limits.metrics_enabled)
      ∷ (codes "config_path", L.string c.config_path)
      ∷ (codes "last_reload_time", L.integer time)
      ∷ [])

  -- dump(2) is an argument; an exception gives the empty object.
  unfoldable pub export_to_json : (Json → Option Text) → RuntimeConfig → ℤ → Text
  export_to_json dump_indented c time = elim (dump_indented (config_json c time)) [
    | none ↦ codes "{}"
    | some t ↦ t
  ]
