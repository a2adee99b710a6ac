-- ===== src/Server/SessionMetrics/Races/Totals.antt =====
-- A step of a thread changes nothing of what the atomics come to in the end.
use cppsim.Prelude.{
  ℕ, zero, suc, ◌+◌, ◌%◌, ◌^◌, ◌≤◌, ◌≡◌, refl, sym, ap, ◌∙◌, Bool, not, ◌&&◌, List, [], ◌∷◌, ltb,
  ◌==◌, add_u64, if◌then◌else◌, arith, if_intro,
}
use cppsim.Server.SessionMetrics.{Tally}
use cppsim.Server.SessionMetrics.Races.{
  Phase, add_total, add_count, load_max, finished, compare_max, Recorder, exchange_max, advance,
  step,
}

-- What a thread has still to add to the total and the count, and whether it may raise the maximum.
abbrev pub pending_total : Phase → ℕ → ℕ
pending_total add_total d = d
pending_total add_count d = 0
pending_total load_max d = 0
pending_total (compare_max c) d = 0
pending_total finished d = 0

abbrev pub pending_count : Phase → ℕ
pending_count add_total = 1
pending_count add_count = 1
pending_count load_max = 0
pending_count (compare_max c) = 0
pending_count finished = 0

abbrev pub max_ℕ : ℕ → ℕ → ℕ
max_ℕ a b = if ltb a b then b else a

abbrev pub pending_max : Phase → ℕ → ℕ
pending_max add_total d = d
pending_max add_count d = d
pending_max load_max d = d
pending_max (compare_max c) d = d
pending_max finished d = 0

-- What the atomics come to once all threads are finished.
unfoldable pub final_total : List Recorder → ℕ → ℕ
final_total [] n = n % 2 ^ 64
final_total (r ∷ rs) n = (pending_total r.phase r.time + final_total rs n) % 2 ^ 64

unfoldable pub final_count : List Recorder → ℕ → ℕ
final_count [] n = n % 2 ^ 64
final_count (r ∷ rs) n = (pending_count r.phase + final_count rs n) % 2 ^ 64

unfoldable pub final_max : List Recorder → ℕ → ℕ
final_max [] n = n
final_max (r ∷ rs) n = max_ℕ (pending_max r.phase r.time) (final_max rs n)

-- A thread that compares has loaded a maximum that was there.
abbrev pub Loaded : Phase → ℕ → Type 0
Loaded add_total m = Unit
Loaded add_count m = Unit
Loaded load_max m = Unit
Loaded (compare_max c) m = c ≤ m
Loaded finished m = Unit

abbrev pub AllLoaded : List Recorder → ℕ → Type 0
AllLoaded [] m = Unit
AllLoaded (r ∷ rs) m = Loaded r.phase m × AllLoaded rs m

final_total-add :
    (rs : List Recorder) (n d : ℕ) → final_total rs (add_u64 n d) ≡ (d + final_total rs n) % 2 ^ 64
unfolding final_total
final_total-add [] n d = omega arith
final_total-add (r ∷ rs) n d = omega (arith, final_total-add rs n d)

final_count-add :
    (rs : List Recorder) (n d : ℕ) → final_count rs (add_u64 n d) ≡ (d + final_count rs n) % 2 ^ 64
unfolding final_count
final_count-add [] n d = omega arith
final_count-add (r ∷ rs) n d = omega (arith, final_count-add rs n d)

final_max-max : (rs : List Recorder) (n d : ℕ) → final_max rs (max_ℕ n d) ≡ max_ℕ d (final_max rs n)
unfolding final_max
final_max-max [] n d = ground arith
final_max-max (r ∷ rs) n d = ground (arith, final_max-max rs n d)

final_max_le : (rs : List Recorder) (n : ℕ) → n ≤ final_max rs n
unfolding final_max
final_max_le [] n = omega arith
final_max_le (r ∷ rs) n = ground (arith, final_max_le rs n)

Loaded-le : (p : Phase) (m n : ℕ) → m ≤ n → Loaded p m → Loaded p n
Loaded-le add_total m n h l = tt
Loaded-le add_count m n h l = tt
Loaded-le load_max m n h l = tt
Loaded-le (compare_max c) m n h l = omega arith
Loaded-le finished m n h l = tt

AllLoaded-le : (rs : List Recorder) (m n : ℕ) → m ≤ n → AllLoaded rs m → AllLoaded rs n
AllLoaded-le [] m n h l = tt
AllLoaded-le (r ∷ rs) m n h l = (Loaded-le r.phase m n h l.0, AllLoaded-le rs m n h l.1)

-- A step changes nothing of what the atomics come to.
pub record IsKept (rs : List Recorder) (t : Tally) (next : List Recorder × Tally) : Type 0 where
  pub total : final_total (next.0) next.1.total ≡ final_total rs t.total
  pub count : final_count (next.0) next.1.count ≡ final_count rs t.count
  pub max : final_max (next.0) next.1.max ≡ final_max rs t.max
  pub grows : t.max ≤ next.1.max
  pub loaded : AllLoaded (next.0) next.1.max

exchange_max-IsKept :
    (spurious : Bool) (d c : ℕ) (rs : List Recorder) (t : Tally)
    → c ≤ t.max
    → AllLoaded rs t.max
    → let next = exchange_max spurious d c t in
      IsKept
        (record { time = d; phase = compare_max c } ∷ rs)
        t
        (record { time = d; phase = next.0 } ∷ rs, next.1)
unfolding exchange_max final_total final_count final_max
exchange_max-IsKept spurious d c rs t l ls =
    let P : Phase × Tally → Type 0 = λ next.
      IsKept (record { time = d; phase = compare_max c } ∷ rs) t
        (record { time = d; phase = next.0 } ∷ rs, next.1) in
    if_intro P (ltb c d)
      (λ below.
        if_intro P (t.max == c && not spurious)
          (λ equal.
            let raised : max_ℕ t.max d ≡ d = ground arith in
            let h : final_max rs d ≡ max_ℕ d (final_max rs t.max) =
              ap (final_max rs) (sym raised) ∙ final_max-max rs t.max d in
            let g : t.max ≤ d = ground arith in
            record {
              total = refl;
              count = refl;
              max = ground (arith, final_max_le rs d);
              grows = g;
              loaded = (tt, AllLoaded-le rs t.max d g ls);
            })
          (λ _. record {
            total = refl;
            count = refl;
            max = refl;
            grows = omega arith;
            loaded = (omega arith, ls);
          }))
      (λ above. record {
        total = refl;
        count = refl;
        max = ground (arith, final_max_le rs t.max);
        grows = omega arith;
        loaded = (tt, ls);
      })

advance-IsKept :
    (spurious : Bool) (d : ℕ) (p : Phase) (rs : List Recorder) (t : Tally)
    → Loaded p t.max
    → AllLoaded rs t.max
    → let next = advance spurious d p t in
      IsKept
        (record { time = d; phase = p } ∷ rs)
        t
        (record { time = d; phase = next.0 } ∷ rs, next.1)
unfolding advance final_total final_count final_max
advance-IsKept spurious d add_total rs t l ls = record {
  total = omega (arith, final_total-add rs t.total d);
  count = refl;
  max = refl;
  grows = omega arith;
  loaded = (tt, ls);
}
advance-IsKept spurious d add_count rs t l ls = record {
  total = refl;
  count = omega (arith, final_count-add rs t.count 1);
  max = refl;
  grows = omega arith;
  loaded = (tt, ls);
}
advance-IsKept spurious d load_max rs t l ls = record {
  total = refl;
  count = refl;
  max = refl;
  grows = omega arith;
  loaded = (omega arith, ls);
}
advance-IsKept spurious d (compare_max c) rs t l ls = exchange_max-IsKept spurious d c rs t l ls
advance-IsKept spurious d finished rs t l ls = record {
  total = refl;
  count = refl;
  max = refl;
  grows = omega arith;
  loaded = (tt, ls);
}

pub step-IsKept :
    (i : ℕ) (spurious : Bool) (rs : List Recorder) (t : Tally)
    → AllLoaded rs t.max
    → IsKept rs t (step i spurious rs t)
unfolding step final_total final_count final_max
step-IsKept i spurious [] t l = record {
  total = refl;
  count = refl;
  max = refl;
  grows = omega arith;
  loaded = tt;
}
step-IsKept zero spurious (r ∷ rs) t l = advance-IsKept spurious r.time r.phase rs t l.0 l.1
step-IsKept (suc i) spurious (r ∷ rs) t l =
    let k = step-IsKept i spurious rs t l.1 in
    record {
      total = ap (λ (n : ℕ). (pending_total r.phase r.time + n) % 2 ^ 64) k.total;
      count = ap (λ (n : ℕ). (pending_count r.phase + n) % 2 ^ 64) k.count;
      max = ap (max_ℕ (pending_max r.phase r.time)) k.max;
      grows = k.grows;
      loaded = (Loaded-le r.phase t.max (step i spurious rs t).1.max k.grows l.0, k.loaded);
    }
