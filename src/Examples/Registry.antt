-- ===== src/Examples/Registry.antt =====
-- The registry's and the configuration's theorems at concrete states.
use cppsim.Prelude.{
  List, ℕ, ◌+◌, ◌^◌, ◌≡◌, ◌≢◌, ◌⊎◌, refl, arith, Option, none, some, Text, codes, pos, true, false,
  [], ◌∷◌, text_eq, text_ltb,
}
use cppsim.Examples.Library.{trees, find_field}
use cppsim.Examples.Texts.{texts, texts_laws, texts_plain}
use cppsim.Server.RuntimeConfig.{export_to_json, config_json}
use cppsim.Server.RuntimeConfig.Export.{load_from_file-export}
use cppsim.Protocol.SessionId.{is_valid_session_id_char, validate_session_id_format}
use cppsim.Server.SessionMap.{place, find, try_emplace}
use cppsim.Server.SessionIds.{generate_session_id, hex_digits, hex_char, mix}
use cppsim.Server.SessionIds.Unique.{generate_session_id_unique, generate_session_id-wraps}
use cppsim.Server.Manager.{
  Manager, emplace, register_loop, register_session, get_session, session_count,
}
use cppsim.Server.Manager.Invariant.{Inv, register_session-Inv}
use cppsim.Server.Manager.Refinement.{
  Command, register, unregister, stop, Store, Represents, perform_all, AllowsAll,
  perform_all-AllowsAll,
}
use cppsim.Server.Manager.Fresh.{AllIssued, register_session_fresh}
use cppsim.Server.RuntimeConfig.{
  RuntimeConfig, default_limits, load_from_file, load_parsed, load_from_json, read_limits,
  read_max_connections, read_int64, read_size, read_number, read_bool, clamp_ℤ,
}
use cppsim.Server.RuntimeConfig.Ranges.{InRange, load_from_file_range}

-- Two sessions, the first two that the server gave ids.
abbrev pub alice : Text
alice = codes "sess_00000000a3c2f9e0"

abbrev pub bob : Text
bob = codes "sess_0000000100000007"

abbrev pub table : Manager ℕ
table = record {
  sessions = (alice, 11) ∷ (bob, 12) ∷ [];
  counters = record { counter = 2; fallback_counter = 0 };
}

abbrev draws : ℕ → Option ℕ
draws n = some 7

pub table-Inv : Inv table
unfolding validate_session_id_format is_valid_session_id_char text_ltb text_eq
table-Inv = record { sorted = (refl, (tt, tt)); bounded = omega arith; valid = (refl, (refl, tt)) }

register_session-Inv_example : Inv (register_session draws (some 13) table).1
register_session-Inv_example = register_session-Inv draws (some 13) table table-Inv

register_session-nonempty : (register_session draws (some 13) table).0 ≢ []
unfolding register_session register_loop generate_session_id hex_digits hex_char mix emplace
    try_emplace find text_eq
register_session-nonempty e = cc

abbrev no_draws : ℕ → Option ℕ
no_draws n = none

-- A fallback id that is taken three times over.
abbrev crowded : Manager ℕ
crowded = record {
  sessions = (codes "sess_0", 11) ∷ (codes "sess_1", 12) ∷ (codes "sess_2", 13) ∷ [];
  counters = record { counter = 3; fallback_counter = 0 };
}

table-AllIssued : AllIssued 2 table.sessions
unfolding generate_session_id hex_digits hex_char mix
table-AllIssued = (
  (record { counter = 0; fallback_counter = 0 }, 0xa3c2f9e0, omega arith, refl),
  ((record { counter = 1; fallback_counter = 0 }, 7, omega arith, refl), tt),
)

register_session_fresh_example :
    let id = (generate_session_id table.counters (some 7)).0 in
    let m = (register_session draws (some 13) table).1 in
    ((register_session draws (some 13) table).0 ≡ id)
    × (m.sessions ≡ place id 13 table.sessions)
    × AllIssued m.counters.counter m.sessions
register_session_fresh_example =
    register_session_fresh draws 7 13 table refl (omega arith) (omega arith) table-AllIssued

generate_session_id_unique_example :
    (generate_session_id (record { counter = 1; fallback_counter = 0 }) (some 7)).0
    ≢ (generate_session_id table.counters (some 7)).0
generate_session_id_unique_example =
    generate_session_id_unique (record { counter = 1; fallback_counter = 0 }) table.counters 7 7
      (omega arith) (omega arith) (λ e. omega (arith, e))

generate_session_id-wraps_example :
    (generate_session_id (record { counter = 2 + 2 ^ 32; fallback_counter = 0 }) (some 7)).0
    ≡ (generate_session_id table.counters (some 7)).0
generate_session_id-wraps_example = generate_session_id-wraps table.counters 7

abbrev configured : RuntimeConfig
configured = record { limits = default_limits; config_path = []; last_reload_time = 0 }

load_from_file_range_example :
    let r = load_from_file trees (codes "config.json") (some (codes "tuned")) 5 configured in
    ((r.1 ≡ true) × InRange r.0.limits × (r.0.config_path ≡ codes "config.json"))
    ⊎ ((r.1 ≡ false) × (r.0 ≡ configured))
load_from_file_range_example =
    load_from_file_range trees (codes "config.json") (some (codes "tuned")) 5 configured

-- The file "tuned" loads, and sets the one limit that it names.
tuned : load_from_file trees (codes "config.json") (some (codes "tuned")) 5 configured ≡ (
  record {
    limits = record default_limits { max_backoff = pos 60 };
    config_path = codes "config.json";
    last_reload_time = 5;
  },
  true,
)
unfolding load_from_file load_parsed load_from_json read_limits read_max_connections read_int64
    read_size read_number read_bool clamp_ℤ find_field text_eq
tuned = refl

-- A configuration in its ranges, written and loaded into another one.
tuned_limits_InRange :
    InRange (record default_limits { max_backoff = pos 60; security_enabled = false })
tuned_limits_InRange = omega arith

abbrev tuned_config : RuntimeConfig
tuned_config = record configured {
  limits = record default_limits { max_backoff = pos 60; security_enabled = false };
}

load_from_file-export_example :
    ((texts.dump (config_json texts tuned_config (pos 0)) ≡ none)
      × (export_to_json texts texts.dump tuned_config (pos 0) ≡ codes "{}"))
    ⊎ (load_from_file texts
          (codes "copy.json")
          (some (export_to_json texts texts.dump tuned_config (pos 0)))
          9
          configured
        ≡ (
          record {
            limits = tuned_config.limits;
            config_path = codes "copy.json";
            last_reload_time = 9;
          },
          true,
        ))
load_from_file-export_example =
    load_from_file-export texts texts_laws texts_plain texts.dump texts_plain.parse-dump
      tuned_config configured (codes "copy.json") (pos 0) 9 tuned_limits_InRange (omega arith)

abbrev shown : Store ℕ
shown = record { get = λ j. get_session j table; size = 2 }

table-Represents : Represents table shown
unfolding session_count
table-Represents = record { inv = table-Inv; lookups = λ j. refl; sizes = refl }

abbrev calls : List (Command ℕ)
calls = register draws 13 ∷ unregister alice ∷ unregister alice ∷ stop ∷ []

perform_all-AllowsAll_example :
    (v : Store ℕ) × AllowsAll shown calls (perform_all calls table).0 v
    × Represents (perform_all calls table).1 v
perform_all-AllowsAll_example = perform_all-AllowsAll calls table shown table-Represents
