-- ===== src/Protocol/Validation/Version.antt =====
-- The version format against its grammar: v, digits, a dot, digits.
use cppsim.Prelude.{
  ℕ, zero, suc, ◌+◌, ◌-◌, ◌≤◌, ◌<◌, ◌≡◌, ◌↔◌, refl, true, [], ◌∷◌, ◌++◌, none, some, Text, all,
  length, take, drop, arith, ap, length-append, Option-cases, inl, inr, ◌⊎◌,
}
use cppsim.Protocol.Validation.{is_digit, find_char, version_digits, is_valid_protocol_version}

find_char-split :
    (c d : ℕ) (t : Text)
    → find_char c t ≡ some d
    → (t ≡ take d t ++ (c ∷ drop (suc d) t)) × (d < length t)
unfolding find_char
find_char-split c d [] h = cc
find_char-split c zero (x ∷ xs) h = ground arith
find_char-split c (suc d) (x ∷ xs) h = ground (arith, find_char-split c d xs)

find_char-digits :
    (major minor : Text)
    → all is_digit major ≡ true
    → find_char b'.' (major ++ (b'.' ∷ minor)) ≡ some (length major)
unfolding find_char is_digit
find_char-digits [] minor h = refl
find_char-digits (x ∷ xs) minor h = ground (arith, find_char-digits xs minor)

take_of_append : (xs ys : Text) → take (length xs) (xs ++ ys) ≡ xs
take_of_append [] ys = refl
take_of_append (x ∷ xs) ys = ap (◌∷◌ x) (take_of_append xs ys)

drop_of_append : (xs ys : Text) (y : ℕ) → drop (suc (length xs)) (xs ++ (y ∷ ys)) ≡ ys
drop_of_append [] ys y = refl
drop_of_append (x ∷ xs) ys y = drop_of_append xs ys y

length-take : (n : ℕ) (t : Text) → n ≤ length t → length (take n t) ≡ n
length-take zero t h = refl
length-take (suc n) [] h = absurd (omega arith)
length-take (suc n) (x ∷ xs) h = omega (arith, length-take n xs (omega arith))

abbrev pub IsVersion : Text → Type 0
IsVersion v =
    (major : Text) × (minor : Text) × (v ≡ b'v' ∷ (major ++ (b'.' ∷ minor)))
    × (1 ≤ length major)
    × (1 ≤ length minor)
    × (all is_digit major ≡ true)
    × (all is_digit minor ≡ true)

length-drop : (n : ℕ) (t : Text) → length (drop n t) ≡ length t - n
length-drop zero t = omega arith
length-drop (suc n) [] = omega arith
length-drop (suc n) (x ∷ xs) = omega (arith, length-drop n xs)

two_less : (d : ℕ) → suc (suc d) - 1 ≡ suc d
two_less d = omega arith

one_more : (d : ℕ) → suc (suc d) + 1 ≡ suc (suc (suc d))
one_more d = omega arith

IsVersion-cases :
    (c : ℕ) (rest : Text)
    → is_valid_protocol_version (c ∷ rest) ≡ true
    → (find_char b'.' rest ≡ none) ⊎ ((d : ℕ) × (find_char b'.' rest ≡ some d))
    → IsVersion (c ∷ rest)
unfolding is_valid_protocol_version version_digits find_char
IsVersion-cases c rest h (inl e) = absurd (ground arith)
IsVersion-cases c rest h (inr (zero, e)) = absurd (ground arith)
IsVersion-cases c rest h (inr (suc d, e)) =
    let split = find_char-split b'.' (suc d) rest e in
    (
      take (suc d) rest,
      drop (suc (suc d)) rest,
      ground arith,
      omega (arith, length-take (suc d) rest (omega (arith, split.1))),
      ground (arith, length-drop (suc (suc d)) rest),
      ground (arith, ap (λ (n : ℕ). all is_digit (take n rest)) (two_less d)),
      ground (arith, ap (λ (n : ℕ). all is_digit (drop n (c ∷ rest))) (one_more d)),
    )

IsVersion-sound : (v : Text) → is_valid_protocol_version v ≡ true → IsVersion v
unfolding is_valid_protocol_version version_digits
IsVersion-sound [] h = cc
IsVersion-sound (c ∷ rest) h = IsVersion-cases c rest h (Option-cases (find_char b'.' rest))

version_parts :
    (major minor : Text)
    → 1 ≤ length major
    → 1 ≤ length minor
    → all is_digit major ≡ true
    → all is_digit minor ≡ true
    → version_digits (b'v' ∷ (major ++ (b'.' ∷ minor))) (some (suc (length major))) ≡ true
unfolding version_digits
version_parts major minor lo lo' ok ok' =
    let before : suc (length major) - 1 ≡ length major = omega arith in
    let after : suc (length major) + 1 ≡ suc (suc (length major)) = omega arith in
    rw
      (before, after, take_of_append major (b'.' ∷ minor), drop_of_append major minor b'.', ok, ok')
      (ground (arith, length-append major (b'.' ∷ minor)))

version_complete : (v : Text) → IsVersion v → is_valid_protocol_version v ≡ true
unfolding is_valid_protocol_version find_char
version_complete v (major, minor, e, lo, lo', ok, ok') =
    rw (e, find_char-digits major minor ok)
      (ground (arith, version_parts major minor lo lo' ok ok', length-append major (b'.' ∷ minor)))

-- A version is valid exactly when it is the letter v, digits, a dot and digits, with at least one
-- digit in each place.
pub is_valid_protocol_version_iff : (v : Text) → (is_valid_protocol_version v ≡ true) ↔ IsVersion v
is_valid_protocol_version_iff v = (IsVersion-sound v, version_complete v)
