-- ===== src/Server/SessionIds/Unique.antt =====
-- Generated ids of different counter values differ.
use cppsim.Prelude.{
  ℕ, suc, ◌+◌, ◌-◌, ◌*◌, ◌/◌, ◌%◌, ◌^◌, ◌<◌, ◌≡◌, ◌≢◌, refl, true, some, arith, leb, ◌==◌,
  if◌then◌else◌, all, countdown, ap, ◌∙◌, sym, all-countdown, bit_xor_fields, ==_iff,
}
use cppsim.Server.SessionIds.{Counters, hex_char, hex_digits, mix, generate_session_id}

-- The value of a hexadecimal digit.
unhex : ℕ → ℕ
unhex c = if leb c b'9' then c - b'0' else c - b'a' + 10

unhex_table : all (λ d. unhex (hex_char d) == d) (countdown 16) ≡ true
unfolding unhex hex_char
unhex_table = refl

unhex-hex_char : (d : ℕ) → d < 16 → unhex (hex_char d) ≡ d
unhex-hex_char d h =
    (==_iff _ d).0 (all-countdown (λ d. unhex (hex_char d) == d) d 16 h unhex_table)

hex_char_injective : (a b : ℕ) → hex_char (a % 16) ≡ hex_char (b % 16) → a % 16 ≡ b % 16
hex_char_injective a b h =
    sym (unhex-hex_char (a % 16) (omega arith)) ∙ ap unhex h ∙ unhex-hex_char (b % 16) (omega arith)

mix_as_sum : (id rnd : ℕ) → id < 2 ^ 32 → rnd < 2 ^ 32 → mix id rnd ≡ id * 2 ^ 32 + rnd
unfolding mix
mix_as_sum id rnd h k =
    let e : id * 2 ^ 32 % 2 ^ 64 ≡ id * 2 ^ 32 = omega arith in rw e (bit_xor_fields 32 id rnd k)

-- Equal texts of digits agree in the first digit and in the rest.
digits_agree :
    (n x y : ℕ)
    → hex_digits (suc n) x ≡ hex_digits (suc n) y
    → (x / 2 ^ (4 * n) % 16 ≡ y / 2 ^ (4 * n) % 16) × (hex_digits n x ≡ hex_digits n y)
unfolding hex_digits
digits_agree n x y e = (hex_char_injective (x / 2 ^ (4 * n)) (y / 2 ^ (4 * n)) (cc), cc)

-- The first eight digits fix the upper half of a 64-bit word.
top_digits :
    (x y : ℕ)
    → x < 2 ^ 64
    → y < 2 ^ 64
    → hex_digits 16 x ≡ hex_digits 16 y
    → x / 2 ^ 32 ≡ y / 2 ^ 32
top_digits x y hx hy e =
    let d15 = digits_agree 15 x y e in
    let d14 = digits_agree 14 x y d15.1 in
    let d13 = digits_agree 13 x y d14.1 in
    let d12 = digits_agree 12 x y d13.1 in
    let d11 = digits_agree 11 x y d12.1 in
    let d10 = digits_agree 10 x y d11.1 in
    let d9 = digits_agree 9 x y d10.1 in
    let d8 = digits_agree 8 x y d9.1 in
    let h2 : x / 2 ^ 56 ≡ y / 2 ^ 56 = omega (arith, d15.0, d14.0) in
    let h4 : x / 2 ^ 48 ≡ y / 2 ^ 48 = omega (arith, h2, d13.0, d12.0) in
    let h6 : x / 2 ^ 40 ≡ y / 2 ^ 40 = omega (arith, h4, d11.0, d10.0) in
    omega (arith, h6, d9.0, d8.0)

-- While the counter stays below 2 ^ 32, ids of two counter values differ, whatever was drawn.
pub generate_session_id_unique :
    (c d : Counters) (r s : ℕ)
    → c.counter < 2 ^ 32
    → d.counter < 2 ^ 32
    → c.counter ≢ d.counter
    → (generate_session_id c (some r)).0 ≢ (generate_session_id d (some s)).0
unfolding generate_session_id
generate_session_id_unique c d r s hc hd ne e = ne (
    omega (
      arith,
      mix_as_sum c.counter (r % 2 ^ 32) hc (omega arith),
      mix_as_sum d.counter (s % 2 ^ 32) hd (omega arith),
      top_digits (mix c.counter (r % 2 ^ 32)) (mix d.counter (s % 2 ^ 32))
          (omega (arith, mix_as_sum c.counter (r % 2 ^ 32) hc (omega arith)))
          (omega (arith, mix_as_sum d.counter (s % 2 ^ 32) hd (omega arith))) (cc),
    ))

-- A counter that is larger by 2 ^ 32 gives the same id for the same draw: only the low 32 bits of
-- the counter are in an id.
pub generate_session_id-wraps :
    (c : Counters) (r : ℕ)
    → (generate_session_id (record c { counter = c.counter + 2 ^ 32 }) (some r)).0
      ≡ (generate_session_id c (some r)).0
unfolding generate_session_id mix
generate_session_id-wraps c r =
    let e : (c.counter + 2 ^ 32) * 2 ^ 32 % 2 ^ 64 ≡ c.counter * 2 ^ 32 % 2 ^ 64 = omega arith in
    rw e
