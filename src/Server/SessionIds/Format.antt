-- ===== src/Server/SessionIds/Format.antt =====
-- Generated ids against the format check of the protocol.
use cppsim.Prelude.{
  ℕ, zero, suc, ◌+◌, ◌*◌, ◌/◌, ◌%◌, ◌^◌, ◌≤◌, ◌<◌, ◌≡◌, refl, true, [], ◌∷◌, ◌++◌, Option, none,
  some, Text, arith, ltb, all, length, countdown, all-countdown, all-append, length-append, ap,
  Bool-cases, inl, inr, text_eq,
}
use cppsim.Protocol.SessionId.{id_prefix, is_valid_session_id_char, validate_session_id_format}
use cppsim.Server.SessionIds.{Counters, hex_char, hex_digits, decimal, mix, generate_session_id}

hex_table : all (λ d. is_valid_session_id_char (hex_char d)) (countdown 16) ≡ true
unfolding is_valid_session_id_char hex_char
hex_table = refl

hex_char_valid : (d : ℕ) → d < 16 → is_valid_session_id_char (hex_char d) ≡ true
hex_char_valid d h = all-countdown (λ d. is_valid_session_id_char (hex_char d)) d 16 h hex_table

hex_digits_valid : (n m : ℕ) → all is_valid_session_id_char (hex_digits n m) ≡ true
unfolding hex_digits
hex_digits_valid zero m = refl
hex_digits_valid (suc n) m =
    rw (hex_char_valid (m / 2 ^ (4 * n) % 16) (omega arith)) (hex_digits_valid n m)

pub length-hex_digits : (n m : ℕ) → length (hex_digits n m) ≡ n
unfolding hex_digits
length-hex_digits zero m = refl
length-hex_digits (suc n) m = ap suc (length-hex_digits n m)

digit_valid : (d : ℕ) → d < 10 → is_valid_session_id_char (b'0' + d) ≡ true
unfolding is_valid_session_id_char
digit_valid d h = ground arith

decimal_valid : (fuel n : ℕ) → all is_valid_session_id_char (decimal fuel n) ≡ true
unfolding decimal
decimal_valid zero n = refl
decimal_valid (suc f) n = elim (Bool-cases (ltb n 10)) [
  | inl small ↦ rw small (rw (digit_valid n (ground arith)) refl)
  | inr large ↦ rw large (
      all-append is_valid_session_id_char (decimal f (n / 10)) ((b'0' + n % 10) ∷ [])
        (decimal_valid f (n / 10)) (rw (digit_valid (n % 10) (omega arith)) refl))
]

length-decimal : (fuel n : ℕ) → length (decimal (suc fuel) n) ≤ suc fuel
unfolding decimal
length-decimal zero n = ground (arith, length-append {0} [] ((b'0' + n % 10) ∷ []))
length-decimal (suc f) n = ground (
  arith,
  length-decimal f (n / 10),
  length-append (decimal (suc f) (n / 10)) ((b'0' + n % 10) ∷ []),
)

decimal_nonempty : (fuel n : ℕ) → 1 ≤ length (decimal (suc fuel) n)
unfolding decimal
decimal_nonempty f n = ground (arith, length-append (decimal f (n / 10)) ((b'0' + n % 10) ∷ []))

prefixed_valid :
    (t : Text)
    → 1 ≤ length t
    → length t ≤ 20
    → all is_valid_session_id_char t ≡ true
    → validate_session_id_format (id_prefix ++ t) ≡ true
unfolding validate_session_id_format text_eq
prefixed_valid t lo hi ok = ground arith

-- Whatever the counters and the draw, a generated id passes the format check of the protocol, so
-- it is neither empty nor longer than the limit that register_session tests.
pub generate_session_id-valid :
    (c : Counters) (draw : Option ℕ)
    → validate_session_id_format (generate_session_id c draw).0 ≡ true
unfolding generate_session_id
generate_session_id-valid c none =
    prefixed_valid (decimal 20 c.fallback_counter) (decimal_nonempty 19 c.fallback_counter)
      (length-decimal 19 c.fallback_counter) (decimal_valid 20 c.fallback_counter)
generate_session_id-valid c (some rnd) =
    let m : ℕ = mix c.counter (rnd % 2 ^ 32) in
    prefixed_valid (hex_digits 16 m) (omega (arith, length-hex_digits 16 m))
      (omega (arith, length-hex_digits 16 m)) (hex_digits_valid 16 m)
