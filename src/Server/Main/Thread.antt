-- ===== src/Server/Main/Thread.antt =====
-- When the metrics thread exports, and when it ends.
use cppsim.Prelude.{
  ℕ, zero, suc, ◌+◌, ◌-◌, ◌*◌, ◌/◌, ◌≤◌, ◌<◌, ◌≡◌, refl, Bool, false, List, [], ◌∷◌, some, ltb,
  arith, Bool-cases, inl, inr, ◌∙◌,
}
use cppsim.Server.Main.{sleep_while, metrics_thread}

-- The flag is set until the second at which the signal comes.
abbrev pub running_until : ℕ → ℕ → Bool
running_until signal t = ltb t signal

sleep_through : (signal n t : ℕ) → t + n ≤ signal → sleep_while (running_until signal) n t ≡ t + n
unfolding sleep_while
sleep_through signal zero t h = omega arith
sleep_through signal (suc n) t h = ground (arith, sleep_through signal n (suc t))

sleep_cut :
    (signal n t : ℕ) → t ≤ signal → signal ≤ t + n → sleep_while (running_until signal) n t ≡ signal
unfolding sleep_while
sleep_cut signal zero t h k = omega arith
sleep_cut signal (suc n) t h k = ground (arith, sleep_cut signal n (suc t))

-- The seconds 30 * (j + 1) up to 30 * (j + k), the latest first, before some others.
unfoldable pub rounds : ℕ → ℕ → List ℕ → List ℕ
rounds zero j before = before
rounds (suc k) j before = rounds k (suc j) (30 * suc j ∷ before)

thread_from :
    (fuel j signal : ℕ) (exports : List ℕ)
    → 30 * j ≤ signal
    → signal < 30 * (j + fuel)
    → metrics_thread fuel (running_until signal) (30 * j) exports
      ≡ some (signal, rounds ((signal - 1 - 30 * j) / 30) j exports)
unfolding metrics_thread rounds
thread_from zero j signal exports h k = absurd (omega arith)
thread_from (suc fuel) j signal exports h k = elim (Bool-cases (ltb (30 * j) signal)) [
  | inr over ↦
      let same : 30 * j ≡ signal = ground arith in
      let n : (signal - 1 - 30 * j) / 30 ≡ 0 = ground arith in rw (over, n) (rw same refl)
  | inl running ↦ elim (Bool-cases (ltb (30 * suc j) signal)) [
    | inl again ↦
        let woken : sleep_while (running_until signal) 30 (30 * j) ≡ 30 * suc j =
          sleep_through signal 30 (30 * j) (ground arith) ∙ omega arith in
        let n : (signal - 1 - 30 * j) / 30 ≡ suc ((signal - 1 - 30 * suc j) / 30) = ground arith in
        rw (running, woken, n)
          (rw again
            (thread_from fuel (suc j) signal (30 * suc j ∷ exports) (ground arith) (omega arith)))
    | inr last ↦
        let woken : sleep_while (running_until signal) 30 (30 * j) ≡ signal =
          sleep_cut signal 30 (30 * j) h (ground arith) in
        let ended : ltb signal signal ≡ false = ground arith in
        let n : (signal - 1 - 30 * j) / 30 ≡ 0 = ground arith in
        rw (running, woken) (rw (ended, n) refl)
  ]
]

-- If the flag is cleared at second `signal`, the thread ends at that very second, and it has
-- exported at the seconds 30, 60, and so on below it, and at no other.
pub metrics_thread_ends :
    (signal : ℕ)
    → metrics_thread (suc (signal / 30)) (running_until signal) 0 []
      ≡ some (signal, rounds ((signal - 1) / 30) 0 [])
metrics_thread_ends signal =
    let e : (signal - 1 - 30 * 0) / 30 ≡ (signal - 1) / 30 = omega arith in
    rw (← e) (thread_from (suc (signal / 30)) 0 signal [] (omega arith) (omega arith))
