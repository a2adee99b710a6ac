-- ===== src/Server/RuntimeConfig/Export.antt =====
-- What export_to_json writes is a configuration that loads.
use cppsim.Prelude.{
  ℕ, ◌*◌, ◌≤◌, ◌<◌, ◌≡◌, ◌^◌, refl, Bool, true, Option, some, Text, codes, ℤ, pos, not, ltb, ◌≤ℤ◌,
  to_int32, arith, none, ◌⊎◌, inl, inr, Option-cases, IsInt64, text_eq,
}
use cppsim.Json.{Floats, JsonLib, JsonLaws, TextLaws, member}
use cppsim.Protocol.Messages.{max_amount}
use cppsim.Server.RuntimeConfig.{
  RuntimeConfig, clamp_ℤ, clamp_size, read_number, read_int64, read_size, read_bool,
  read_max_connections, read_limits, load_from_json, load_parsed, load_from_file, config_json,
  export_to_json,
}
use cppsim.Server.RuntimeConfig.Ranges.{InRange}

clamp_ℤ_within : (lo hi d v : ℤ) → lo ≤ℤ v → v ≤ℤ hi → clamp_ℤ lo hi d v ≡ v
unfolding clamp_ℤ
clamp_ℤ_within lo hi d v h k = ground arith

clamp_size_within : (lo hi d v : ℕ) → lo ≤ v → v ≤ hi → clamp_size lo hi d v ≡ v
unfolding clamp_size
clamp_size_within lo hi d v h k = ground arith

to_int32_within : (v : ℤ) → pos 1 ≤ℤ v → v ≤ℤ pos 10000 → to_int32 v ≡ v
to_int32_within v h k = ground arith

module _ {F : Floats} (L : JsonLib F) (laws : JsonLaws L) where
  open laws use {
    find-object, get_int64-integer, get_uint64-integer, is_number-integer, is_boolean-boolean,
    get_bool-boolean,
  }

  -- A member in its range is read as it is.
  read_int64_found :
      (key : Text) (lo hi d v : ℤ) (j : L.Json)
      → L.find key j ≡ some (L.integer v)
      → IsInt64 v
      → lo ≤ℤ v
      → v ≤ℤ hi
      → read_int64 L key lo hi d j ≡ some v
  unfolding read_int64 read_number
  read_int64_found key lo hi d v j e i h k =
      rw (e, is_number-integer v, get_int64-integer v i) (rw (clamp_ℤ_within lo hi d v h k) refl)

  read_size_found :
      (key : Text) (lo hi d v : ℕ) (j : L.Json)
      → L.find key j ≡ some (L.integer (pos v))
      → v < 2 ^ 63
      → lo ≤ v
      → v ≤ hi
      → read_size L key lo hi d j ≡ some v
  unfolding read_size read_number
  read_size_found key lo hi d v j e i h k =
      rw (e, is_number-integer (pos v), get_uint64-integer v i)
        (rw (clamp_size_within lo hi d v h k) refl)

  read_max_connections_found :
      (v : ℤ) (j : L.Json)
      → L.find (codes "max_connections") j ≡ some (L.integer v)
      → pos 1 ≤ℤ v
      → v ≤ℤ pos 10000
      → read_max_connections L j ≡ some v
  unfolding read_max_connections read_number
  read_max_connections_found v j e h k =
      let i : IsInt64 v = ground arith in
      rw (e, is_number-integer v, get_int64-integer v i)
        (rw (to_int32_within v h k, clamp_ℤ_within (pos 1) (pos 10000) (pos 1000) v h k) refl)

  read_bool_found :
      (d b : Bool) (o : Option L.Json) → o ≡ some (L.boolean b) → read_bool L d o ≡ some b
  unfolding read_bool
  read_bool_found d b o e = rw (e, is_boolean-boolean b, get_bool-boolean b) refl

  module _ (c : RuntimeConfig) (time : ℤ) where
    abbrev exported : L.Json
    exported = config_json L c time

    fits :
        InRange c.limits
        → not (ltb c.limits.max_write_queue_size c.limits.max_messages_per_window) ≡ true
    fits r = let h = r.window_fits_queue in ground arith

    read_limits-export : InRange c.limits → read_limits L exported ≡ some c.limits
    unfolding read_limits config_json member text_eq
    read_limits-export r =
        rw
          (
            read_max_connections_found c.limits.max_connections exported (simp find-object)
                r.connections.0 r.connections.1,
            read_int64_found (codes "handshake_timeout") (pos 1) (pos 300) (pos 10)
                c.limits.handshake_timeout exported (simp find-object) (ground arith) r.handshake.0
                r.handshake.1,
            read_size_found (codes "max_message_size") 1024 (1024 * 1024) 65536
                c.limits.max_message_size exported (simp find-object) (ground arith)
                r.message_size.0 r.message_size.1,
            read_size_found (codes "max_write_queue_size") 10 1000 100 c.limits.max_write_queue_size
                exported (simp find-object) (ground arith) r.queue_size.0 r.queue_size.1,
            read_size_found (codes "max_messages_per_window") 1 1000 10
                c.limits.max_messages_per_window exported (simp find-object) (ground arith)
                r.per_window.0 r.per_window.1,
            read_int64_found (codes "rate_limit_window") (pos 1) (pos 60) (pos 1)
                c.limits.rate_limit_window exported (simp find-object) (ground arith) r.window.0
                r.window.1,
            read_int64_found (codes "max_backoff") (pos 1) (pos 300) (pos 30) c.limits.max_backoff
                exported (simp find-object) (ground arith) r.backoff.0 r.backoff.1,
            read_int64_found (codes "ws_idle_timeout") (pos 1) (pos 172800) (pos 86400)
                c.limits.ws_idle_timeout exported (simp find-object) (ground arith) r.idle.0
                r.idle.1,
            read_int64_found (codes "max_amount") (pos 1000) max_amount max_amount
                c.limits.max_amount exported (simp find-object) (ground arith) r.amount.0
                r.amount.1,
            read_int64_found (codes "max_sequence_gap") (pos 100) (pos 100000) (pos 10000)
                c.limits.max_sequence_gap exported (simp find-object) (ground arith) r.gap.0
                r.gap.1,
            read_bool_found true c.limits.security_enabled
                (L.find (codes "security_enabled") exported) (simp find-object),
            read_bool_found true c.limits.metrics_enabled
                (L.find (codes "metrics_enabled") exported) (simp find-object),
          )
          (rw (fits r) refl)

  config_json-Plain :
      (P : TextLaws L) (c : RuntimeConfig) (time : ℤ)
      → InRange c.limits
      → IsInt64 time
      → P.Plain (config_json L c time)
  unfolding config_json
  config_json-Plain P c time r i = P.Plain-object _ (
    P.Plain-integer _ (ground (arith, r.connections)),
    (
      P.Plain-integer _ (ground (arith, r.handshake)),
      (
        P.Plain-integer _ (ground (arith, r.message_size)),
        (
          P.Plain-integer _ (ground (arith, r.queue_size)),
          (
            P.Plain-integer _ (ground (arith, r.per_window)),
            (
              P.Plain-integer _ (ground (arith, r.window)),
              (
                P.Plain-integer _ (ground (arith, r.backoff)),
                (
                  P.Plain-integer _ (ground (arith, r.idle)),
                  (
                    P.Plain-integer _ (ground (arith, r.amount)),
                    (
                      P.Plain-integer _ (ground (arith, r.gap)),
                      (
                        P.Plain-boolean _,
                        (P.Plain-boolean _, (P.Plain-string _, (P.Plain-integer time i, tt))),
                      ),
                    ),
                  ),
                ),
              ),
            ),
          ),
        ),
      ),
    ),
  )

  load_from_json-config :
      (c now : RuntimeConfig) (time : ℤ)
      → InRange c.limits
      → load_from_json L (config_json L c time) now ≡ (record now { limits = c.limits }, true)
  unfolding load_from_json
  load_from_json-config c now time r = rw (load_from_json, read_limits-export c time r) refl

-- For a configuration whose limits are in their ranges, where the library keeps its documentation and
-- what dump(2) writes is parsed to what it was written of: either dump(2) throws, and the export is
-- the empty object; or the export, loaded from a file under any path, gives the same limits in
-- whatever configuration is in use, and the load succeeds.
pub load_from_file-export :
    {F : Floats} (L : JsonLib F)
    → JsonLaws L
    → (P : TextLaws L) (dump_indented : L.Json → Option Text)
    → ((j : L.Json) (t : Text) → P.Plain j → dump_indented j ≡ some t → L.parse t ≡ some j)
    → (c now : RuntimeConfig) (path : Text) (time : ℤ) (clock : ℕ) → InRange c.limits
    → IsInt64 time
    → ((dump_indented (config_json L c time) ≡ none)
        × (export_to_json L dump_indented c time ≡ codes "{}"))
      ⊎ (load_from_file L path (some (export_to_json L dump_indented c time)) clock now
          ≡ (record { limits = c.limits; config_path = path; last_reload_time = clock }, true))
unfolding export_to_json load_from_file load_parsed
load_from_file-export L laws P dump_indented inverse c now path time clock r i =
    elim (Option-cases (dump_indented (config_json L c time))) [
      | inl e ↦ inl (e, rw (e, export_to_json) refl)
      | inr (t, e) ↦
          let p : L.parse t ≡ some (config_json L c time) =
            inverse (config_json L c time) t (config_json-Plain L laws P c time r i) e in
          inr
            (rw (e, export_to_json, p, load_parsed, load_from_json-config L laws c now time r) refl)
    ]
