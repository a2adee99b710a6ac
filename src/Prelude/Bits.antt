-- ===== src/Prelude/Bits.antt =====
-- Exclusive or of a shifted number and one that fits under it, and tables over small ranges.
use Prim.Native.Nat.{
  ℕ, zero, suc, ◌+◌, ◌*◌, ◌/◌, ◌%◌, ◌^◌, ◌≤◌, ◌<◌, digits, differ, bit_xor, bit_xor-bitwise,
}
use mathlib.Core.Path.{◌≡◌, refl, ◌∙◌}
use mathlib.Core.Bool.{Bool, true}
use mathlib.Core.List.{List, [], ◌∷◌}
use native.Mathlib.Nat.{pow-suc}
use native.Mathlib.Omega.{arith}
use cppsim.Prelude.Lists.{all}

-- n - 1, n - 2, down to 0.
abbrev pub countdown : ℕ → List ℕ
countdown zero = []
countdown (suc n) = n ∷ countdown n

-- A test that holds along the countdown from n holds below n.
pub all-countdown : (p : ℕ → Bool) (x n : ℕ) → x < n → all p (countdown n) ≡ true → p x ≡ true
all-countdown p x zero below t = absurd (omega arith)
all-countdown p x (suc n) below t = ground (arith, all-countdown p x n)

-- The lowest k binary digits of a are 0.
abbrev IsAligned : ℕ → ℕ → Type 0
IsAligned zero a = Unit {0}
IsAligned (suc k) a = (a % 2 ≡ 0) × IsAligned k (a / 2)

differ_nothing : (d : ℕ) → differ d 0 ≡ d
differ_nothing zero = refl
differ_nothing (suc d) = refl

-- With fuel for the digits of a, which has room for r in its lowest k digits.
digits-add :
    (fuel k a r : ℕ)
    → a ≤ fuel
    → IsAligned k a
    → r < 2 ^ k
    → digits (λ y. y) differ fuel a r ≡ a + r
digits-add zero k a r enough al fits = omega arith
digits-add (suc fuel) k zero r enough al fits = omega arith
digits-add (suc fuel) zero (suc a) r enough al fits =
    let none_left : r ≡ 0 = omega arith in
    rw (none_left, differ_nothing (suc a % 2))
      (omega (arith, digits-add fuel 0 (suc a / 2) 0 (omega arith) tt (omega arith)))
digits-add (suc fuel) (suc k) (suc a) r enough (even, al) fits =
    let half : r / 2 < 2 ^ k = omega (arith, pow-suc 2 k) in
    rw even (omega (arith, even, digits-add fuel k (suc a / 2) (r / 2) (omega arith) al half))

shifted-IsAligned : (k q : ℕ) → IsAligned k (q * 2 ^ k)
shifted-IsAligned zero q = tt
shifted-IsAligned (suc k) q =
    let twice : q * 2 ^ suc k ≡ q * 2 ^ k + q * 2 ^ k = rw (pow-suc 2 k) (omega arith) in
    let half : q * 2 ^ suc k / 2 ≡ q * 2 ^ k = omega arith in
    (omega arith, rw half (shifted-IsAligned k q))

-- `(q << k) ^ r` is a sum when `r` fits `k` bits.
pub bit_xor_fields : (k q r : ℕ) → r < 2 ^ k → bit_xor (q * 2 ^ k) r ≡ q * 2 ^ k + r
bit_xor_fields k q r fits =
    bit_xor-bitwise (q * 2 ^ k) r
    ∙ digits-add (q * 2 ^ k) k (q * 2 ^ k) r (omega arith) (shifted-IsAligned k q) fits
