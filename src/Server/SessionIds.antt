-- ===== src/Server/SessionIds.antt =====
-- src/server/connection_manager.cpp: generate_session_id. A draw of the generator is an argument:
-- `some r` for the 32 bits of the engine, `none` where seeding it throws and the fallback runs.
pub mod Format
pub mod Unique
use Prim.Native.Nat.{bit_xor}
use cppsim.Prelude.{
  ℕ, zero, suc, ◌+◌, ◌*◌, ◌/◌, ◌%◌, ◌^◌, ◌≤◌, ◌<◌, ◌≡◌, refl, Bool, true, List, [], ◌∷◌, ◌++◌,
  Option, none, some, Text, codes, arith, ltb, if◌then◌else◌, all, length, ◌&&◌,
}
use cppsim.Protocol.SessionId.{id_prefix}

-- The two static atomics of the function.
pub record Counters : Type 0 where
  pub counter : ℕ
  pub fallback_counter : ℕ

abbrev pub fresh_counters : Counters
fresh_counters = record { counter = 0; fallback_counter = 0 }

abbrev char_at : Text → ℕ → ℕ
char_at [] i = 0
char_at (c ∷ cs) zero = c
char_at (c ∷ cs) (suc i) = char_at cs i

-- hex[d]
unfoldable pub hex_char : ℕ → ℕ
hex_char d = char_at (codes "0123456789abcdef") d

-- The loop that fills buf[5 + i], with n rounds left: the shift is 60 - 4 * i = 4 * (n - 1), and
-- `& 0xF` is the remainder by 16.
unfoldable pub hex_digits : ℕ → ℕ → Text
hex_digits zero mixed = []
hex_digits (suc n) mixed = hex_char (mixed / 2 ^ (4 * n) % 16) ∷ hex_digits n mixed

-- (id << 32) ^ rnd on uint64_t.
unfoldable pub mix : ℕ → ℕ → ℕ
mix id rnd = bit_xor (id * 2 ^ 32 % 2 ^ 64) rnd

-- std::to_string of an unsigned number, with fuel for its digits.
unfoldable pub decimal : ℕ → ℕ → Text
decimal zero n = []
decimal (suc fuel) n =
    let higher = decimal fuel (n / 10) in
    if ltb n 10 then (b'0' + n) ∷ [] else higher ++ (b'0' + n % 10) ∷ []

unfoldable pub generate_session_id : Counters → Option ℕ → Text × Counters
generate_session_id c (some rnd) = (
  id_prefix ++ hex_digits 16 (mix c.counter (rnd % 2 ^ 32)),
  record c { counter = (c.counter + 1) % 2 ^ 64 },
)
-- The counter has moved before the draw throws.
generate_session_id c none = (
  id_prefix ++ decimal 20 c.fallback_counter,
  record {
    counter = (c.counter + 1) % 2 ^ 64;
    fallback_counter = (c.fallback_counter + 1) % 2 ^ 64;
  },
)

first_id : (generate_session_id fresh_counters (some 0xa3c2f9e0)).0 ≡ codes "sess_00000000a3c2f9e0"
unfolding generate_session_id hex_char hex_digits mix
first_id = refl

fallback_id :
    (generate_session_id (record { counter = 3; fallback_counter = 907 }) none).0 ≡ codes "sess_907"
unfolding generate_session_id decimal
fallback_id = refl
