-- ===== src/Server/SessionMetrics/Races/Runs.antt =====
-- What the threads that record durations leave in the atomics, whatever their order.
use cppsim.Prelude.{
  ℕ, zero, suc, ◌+◌, ◌%◌, ◌^◌, ◌<◌, ◌≡◌, refl, sym, ap, ◌∙◌, Bool, true, List, [], ◌∷◌, length,
  arith,
}
use cppsim.Server.SessionMetrics.{Tally}
use cppsim.Server.SessionMetrics.Races.{
  Phase, add_total, add_count, load_max, finished, compare_max, Recorder, advance, step, run, start,
  is_finished, AllFinished,
}
use cppsim.Server.SessionMetrics.Races.Totals.{
  pending_total, pending_count, pending_max, max_ℕ, final_total, final_count, final_max, AllLoaded,
  step-IsKept,
}

advance_fits :
    (spurious : Bool) (d : ℕ) (p : Phase) (t : Tally)
    → t.total < 2 ^ 64
    → t.count < 2 ^ 64
    → let u = (advance spurious d p t).1 in (u.total < 2 ^ 64) × (u.count < 2 ^ 64)
unfolding advance
advance_fits spurious d add_total t h k = omega arith
advance_fits spurious d add_count t h k = omega arith
advance_fits spurious d load_max t h k = (h, k)
advance_fits spurious d (compare_max c) t h k = ground arith
advance_fits spurious d finished t h k = (h, k)

step_fits :
    (i : ℕ) (spurious : Bool) (rs : List Recorder) (t : Tally)
    → t.total < 2 ^ 64
    → t.count < 2 ^ 64
    → let u = (step i spurious rs t).1 in (u.total < 2 ^ 64) × (u.count < 2 ^ 64)
unfolding step
step_fits i spurious [] t h k = (h, k)
step_fits zero spurious (r ∷ rs) t h k = advance_fits spurious r.time r.phase t h k
step_fits (suc i) spurious (r ∷ rs) t h k = step_fits i spurious rs t h k

-- Both, over a whole schedule.
record IsRun (rs : List Recorder) (t : Tally) (next : List Recorder × Tally) : Type 0 where
  total : final_total (next.0) next.1.total ≡ final_total rs t.total
  count : final_count (next.0) next.1.count ≡ final_count rs t.count
  max : final_max (next.0) next.1.max ≡ final_max rs t.max
  total_fits : next.1.total < 2 ^ 64
  count_fits : next.1.count < 2 ^ 64

run-IsRun :
    (s : List (ℕ × Bool)) (rs : List Recorder) (t : Tally)
    → t.total < 2 ^ 64
    → t.count < 2 ^ 64
    → AllLoaded rs t.max
    → IsRun rs t (run s rs t)
unfolding run
run-IsRun [] rs t h k l = record {
  total = refl;
  count = refl;
  max = refl;
  total_fits = h;
  count_fits = k;
}
run-IsRun ((i, spurious) ∷ s) rs t h k l =
    let one = step-IsKept i spurious rs t l in
    let fits = step_fits i spurious rs t h k in
    let next = step i spurious rs t in
    let rest = run-IsRun s (next.0) (next.1) fits.0 fits.1 one.loaded in
    record {
      total = rest.total ∙ one.total;
      count = rest.count ∙ one.count;
      max = rest.max ∙ one.max;
      total_fits = rest.total_fits;
      count_fits = rest.count_fits;
    }

-- Finished threads have nothing left to add.
finished_total : (p : Phase) (d : ℕ) → is_finished p ≡ true → pending_total p d ≡ 0
finished_total add_total d h = cc
finished_total add_count d h = refl
finished_total load_max d h = refl
finished_total (compare_max c) d h = refl
finished_total finished d h = refl

finished_count : (p : Phase) → is_finished p ≡ true → pending_count p ≡ 0
finished_count add_total h = cc
finished_count add_count h = cc
finished_count load_max h = refl
finished_count (compare_max c) h = refl
finished_count finished h = refl

finished_max : (p : Phase) (d : ℕ) → is_finished p ≡ true → pending_max p d ≡ 0
finished_max add_total d h = cc
finished_max add_count d h = cc
finished_max load_max d h = cc
finished_max (compare_max c) d h = cc
finished_max finished d h = refl

AllFinished-final :
    (rs : List Recorder) (n : ℕ)
    → AllFinished rs
    → (final_total rs n ≡ n % 2 ^ 64) × (final_count rs n ≡ n % 2 ^ 64) × (final_max rs n ≡ n)
unfolding final_total final_count final_max
AllFinished-final [] n h = (refl, refl, refl)
AllFinished-final (r ∷ rs) n h =
    let rest = AllFinished-final rs n h.1 in
    (
      omega (arith, finished_total r.phase r.time h.0, rest.0),
      omega (arith, finished_count r.phase h.0, rest.1),
      ground (arith, finished_max r.phase r.time h.0, rest.2),
    )

-- The sum and the maximum of the recorded times.
abbrev pub sum : List ℕ → ℕ
sum [] = 0
sum (d ∷ ds) = d + sum ds

abbrev pub maximum : ℕ → List ℕ → ℕ
maximum m [] = m
maximum m (d ∷ ds) = max_ℕ d (maximum m ds)

start_final :
    (ds : List ℕ) (n : ℕ)
    → (final_total (start ds) n ≡ (sum ds + n) % 2 ^ 64)
      × (final_count (start ds) n ≡ (length ds + n) % 2 ^ 64)
      × (final_max (start ds) n ≡ maximum n ds)
unfolding start final_total final_count final_max
start_final [] n = (omega arith, omega arith, refl)
start_final (d ∷ ds) n =
    let rest = start_final ds n in
    (omega (arith, rest.0), omega (arith, rest.1), ap (max_ℕ d) rest.2)

start-AllLoaded : (ds : List ℕ) (m : ℕ) → AllLoaded (start ds) m
unfolding start
start-AllLoaded [] m = tt
start-AllLoaded (d ∷ ds) m = (tt, start-AllLoaded ds m)

-- Threads that record durations, their steps in any order and with any spurious failures: once all
-- are finished, the total has grown by the sum of the durations and the count by their number, both
-- modulo 2^64, and the maximum is that of the old one and all durations.
pub run-AllFinished :
    (s : List (ℕ × Bool)) (ds : List ℕ) (t : Tally)
    → t.total < 2 ^ 64
    → t.count < 2 ^ 64
    → AllFinished (run s (start ds) t).0
    → let u = (run s (start ds) t).1 in
      (u.total ≡ (sum ds + t.total) % 2 ^ 64)
      × (u.count ≡ (length ds + t.count) % 2 ^ 64)
      × (u.max ≡ maximum t.max ds)
run-AllFinished s ds t h k f =
    let end = run s (start ds) t in
    let r = run-IsRun s (start ds) t h k (start-AllLoaded ds t.max) in
    let at_total = AllFinished-final (end.0) end.1.total f in
    let at_count = AllFinished-final (end.0) end.1.count f in
    let at_max = AllFinished-final (end.0) end.1.max f in
    (
      omega (arith, r.total_fits, r.total, at_total.0, (start_final ds t.total).0),
      omega (arith, r.count_fits, r.count, at_count.1, (start_final ds t.count).1),
      sym at_max.2 ∙ r.max ∙ (start_final ds t.max).2,
    )
