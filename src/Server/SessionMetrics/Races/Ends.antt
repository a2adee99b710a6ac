-- ===== src/Server/SessionMetrics/Races/Ends.antt =====
-- The loops that raise the maximum end.
use cppsim.Prelude.{
  ℕ, zero, suc, ◌+◌, ◌*◌, ◌≤◌, ◌≡◌, ◌⊎◌, inl, inr, refl, ap, Bool, true, false, not, ◌&&◌, List, [],
  ◌∷◌, ltb, ◌==◌, length, if◌then◌else◌, arith, if_intro, subst,
}
use cppsim.Server.SessionMetrics.{Tally}
use cppsim.Server.SessionMetrics.Races.{
  Phase, add_total, add_count, load_max, finished, compare_max, Recorder, advance, step, start,
  is_finished,
}

-- How many steps of its own a thread is from its end, among n threads, at the maximum m.
rank : ℕ → Phase → ℕ → ℕ
rank n add_total m = n + 4
rank n add_count m = n + 3
rank n load_max m = n + 2
rank n (compare_max c) m = if c == m then n + 1 else n + 2
rank n finished m = 0

total_rank : ℕ → List Recorder → ℕ → ℕ
total_rank n [] m = 0
total_rank n (r ∷ rs) m = rank n r.phase m + total_rank n rs m

-- Another maximum costs a thread one more round at most.
rank_near : (n : ℕ) (p : Phase) (m k : ℕ) → rank n p k ≤ rank n p m + 1
unfolding rank
rank_near n add_total m k = omega arith
rank_near n add_count m k = omega arith
rank_near n load_max m k = omega arith
rank_near n (compare_max c) m k = ground arith
rank_near n finished m k = omega arith

total_rank_near :
    (n : ℕ) (rs : List Recorder) (m k : ℕ) → total_rank n rs k ≤ total_rank n rs m + length rs
unfolding total_rank
total_rank_near n [] m k = omega arith
total_rank_near n (r ∷ rs) m k = omega (arith, rank_near n r.phase m k, total_rank_near n rs m k)

-- The thread that is picked is one, and has not finished.
abbrev pub is_running : ℕ → List Recorder → Bool
is_running i [] = false
is_running zero (r ∷ rs) = not (is_finished r.phase)
is_running (suc i) (r ∷ rs) = is_running i rs

abbrev pub AllRunning : List (ℕ × Bool) → List Recorder → Tally → Type 0
AllRunning [] rs t = Unit
AllRunning ((i, spurious) ∷ s) rs t =
    let next = step i spurious rs t in (is_running i rs ≡ true) × AllRunning s (next.0) (next.1)

abbrev pub failure : Bool → ℕ
failure true = 1
failure false = 0

abbrev pub spurious_failures : List (ℕ × Bool) → ℕ
spurious_failures [] = 0
spurious_failures ((i, spurious) ∷ s) = failure spurious + spurious_failures s

-- A step of a running thread ends it and raises the maximum, or brings it nearer to its end.
abbrev Nearer : ℕ → Bool → ℕ → Phase → Tally → Phase × Tally → Type 0
Nearer n spurious d p t next =
    ((next.1.max ≡ t.max) × (rank n (next.0) t.max + 1 ≤ rank n p t.max + failure spurious))
    ⊎ (rank n (next.0) next.1.max + n + 1 ≤ rank n p t.max)

retry_nearer :
    (n c m : ℕ) (spurious : Bool)
    → (m == c && not spurious) ≡ false
    → rank n (compare_max m) m + 1 ≤ rank n (compare_max c) m + failure spurious
unfolding rank
retry_nearer n c m true h = ground arith
retry_nearer n c m false h = ground arith

advance-Nearer :
    (n : ℕ) (spurious : Bool) (d : ℕ) (p : Phase) (t : Tally)
    → is_finished p ≡ false
    → Nearer n spurious d p t (advance spurious d p t)
unfolding advance rank
advance-Nearer n spurious d add_total t h = inl (refl, omega arith)
advance-Nearer n spurious d add_count t h = inl (refl, omega arith)
advance-Nearer n spurious d load_max t h = inl (refl, ground arith)
advance-Nearer n spurious d (compare_max c) t h =
    if_intro (Nearer n spurious d (compare_max c) t) (ltb c d)
      (λ below.
        if_intro (Nearer n spurious d (compare_max c) t) (t.max == c && not spurious)
          (λ equal. inr (ground arith))
          (λ failed. inl (refl, retry_nearer n c t.max spurious failed)))
      (λ above. inl (refl, ground arith))
advance-Nearer n spurious d finished t h = cc

-- The same for all threads, of which the picked one is among those that are counted.
step_nearer :
    (n i : ℕ) (spurious : Bool) (rs : List Recorder) (t : Tally)
    → is_running i rs ≡ true
    → let next = step i spurious rs t in
      ((next.1.max ≡ t.max)
        × (total_rank n (next.0) t.max + 1 ≤ total_rank n rs t.max + failure spurious))
      ⊎ (total_rank n (next.0) next.1.max + n + 1 ≤ total_rank n rs t.max + length rs)
unfolding step total_rank
step_nearer n i spurious [] t h = cc
step_nearer n zero spurious (r ∷ rs) t h =
    let next = advance spurious r.time r.phase t in
    elim (advance-Nearer n spurious r.time r.phase t (ground arith)) [
      | inl e ↦ inl (e.0, omega (arith, e.1))
      | inr e ↦ inr (omega (arith, e, total_rank_near n rs t.max next.1.max))
    ]
step_nearer n (suc i) spurious (r ∷ rs) t h =
    let next = step i spurious rs t in
    elim (step_nearer n i spurious rs t h) [
      | inl e ↦ inl (e.0, omega (arith, e.1))
      | inr e ↦ inr (omega (arith, e, rank_near n r.phase t.max next.1.max))
    ]

length-step :
    (i : ℕ) (spurious : Bool) (rs : List Recorder) (t : Tally)
    → length (step i spurious rs t).0 ≡ length rs
unfolding step
length-step i spurious [] t = refl
length-step zero spurious (r ∷ rs) t = refl
length-step (suc i) spurious (r ∷ rs) t = ap suc (length-step i spurious rs t)

run_bound :
    (s : List (ℕ × Bool)) (rs : List Recorder) (t : Tally)
    → AllRunning s rs t
    → length s ≤ total_rank (length rs) rs t.max + spurious_failures s
run_bound [] rs t h = omega arith
run_bound ((i, spurious) ∷ s) rs t h =
    let next = step i spurious rs t in
    let same = length-step i spurious rs t in
    let rest : length s ≤ total_rank (length rs) (next.0) next.1.max + spurious_failures s =
      subst (λ (k : ℕ). length s ≤ total_rank k (next.0) next.1.max + spurious_failures s) same
        (run_bound s (next.0) (next.1) h.1) in
    elim (step_nearer (length rs) i spurious rs t h.0) [
      | inl e ↦ omega (
        arith,
        e.1,
        subst (λ (m : ℕ). length s ≤ total_rank (length rs) (next.0) m + spurious_failures s) e.0
            rest,
      )
      | inr e ↦ omega (arith, e, rest)
    ]

total_rank-start : (n : ℕ) (ds : List ℕ) (m : ℕ) → total_rank n (start ds) m ≡ length ds * (n + 4)
unfolding total_rank start rank
total_rank-start n [] m = omega arith
total_rank-start n (d ∷ ds) m = grind (arith, total_rank-start n ds m)

length-start : (ds : List ℕ) → length (start ds) ≡ length ds
unfolding start
length-start [] = refl
length-start (d ∷ ds) = ap suc (length-start ds)

-- The threads that record durations end: with n of them, and each step made by a thread that has
-- not finished, no order has more than n * (n + 4) steps besides the spurious failures.
pub run_ends :
    (s : List (ℕ × Bool)) (ds : List ℕ) (t : Tally)
    → AllRunning s (start ds) t
    → length s ≤ length ds * (length ds + 4) + spurious_failures s
run_ends s ds t h =
    let bound = run_bound s (start ds) t h in
    let e : total_rank (length (start ds)) (start ds) t.max ≡ length ds * (length ds + 4) =
      rw (length-start ds) (total_rank-start (length ds) ds t.max) in
    omega (arith, e, bound)
