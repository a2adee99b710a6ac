-- ===== src/Examples/Measures.antt =====
-- The theorems on the exported metrics, with hundredths for double.
use cppsim.Prelude.{
  ℕ, ◌+◌, ◌-◌, ◌*◌, ◌/◌, ◌≤◌, ◌≡◌, refl, false, ℤ, [], List, [], ◌∷◌, some, codes, pos, arith, ltb,
}
use native.Mathlib.Nat.{div-le_of_le-mul, mul-le-mul_right}
use cppsim.Examples.Library.{Tree, integer, trees, trees_laws, hundredths}
use cppsim.Server.MetricsCollector.{Collector, lookup}
use cppsim.Server.MetricsCollector.Percentile.{
  Arithmetic, Lies, RoundingLaws, index, calculate_percentile, calculate_percentile_total,
}
use cppsim.Server.MetricsCollector.Export.{Clocks, Views, metrics_to_json}
use cppsim.Server.MetricsCollector.Export.Contents.{
  put_found, path, ShowsTiming, metrics_to_json_lem,
}

abbrev exact : Arithmetic hundredths
exact = record {
  plus = ◌+◌;
  minus = ◌-◌;
  divide = λ a b. a * 100 / b;
  floor = λ a. a / 100 * 100;
  ceil = λ a. (a + 99) / 100 * 100;
  to_size = λ a. a / 100;
}

quotient_below : (a b : ℕ) → a ≤ b → 100 * a * 100 / (100 * b) ≤ 100
quotient_below a b h = div-le_of_le-mul (100 * b) (omega arith)

product_below : (x n : ℕ) → x ≤ 100 → x * (100 * n) / 100 ≤ 100 * n
product_below x n h =
    let m : x * (100 * n) ≤ 100 * (100 * n) = mul-le-mul_right (100 * n) h in omega arith

ceil_below : (x n : ℕ) → ltb (100 * n) x ≡ false → (x + 99) / 100 * 100 / 100 ≤ n
ceil_below x n h = ground arith

floor_below : (x : ℕ) → x / 100 * 100 / 100 ≤ (x + 99) / 100 * 100 / 100
floor_below x = omega arith

divide_in : (a b : ℕ) → a ≤ b → Lies exact 1 (100 * a * 100 / (100 * b))
divide_in a b h = (refl, ground arith, ground (arith, quotient_below a b h))

times_in : (x n : ℕ) → Lies exact 1 x → Lies exact n (x * (100 * n) / 100)
times_in x n l = (refl, ground arith, ground (arith, product_below x n (ground (arith, l))))

abbrev exact_rounding : RoundingLaws exact
exact_rounding = record {
  divide-Lies = λ a b h k l. divide_in a b h;
  times-Lies = λ x n k l. times_in x n l;
  ceil-le = λ x n k l. ceil_below x n l.2;
  floor-le-ceil = λ x n k l. floor_below x;
}

abbrev ten_times : List ℤ
ten_times = pos 1 ∷ pos 2 ∷ pos 3 ∷ pos 4 ∷ pos 5 ∷ pos 6 ∷ pos 7 ∷ pos 8 ∷ pos 9 ∷ pos 10 ∷ []

calculate_percentile_total_example : (d : ℕ) × (calculate_percentile exact ten_times 95 ≡ some d)
calculate_percentile_total_example =
    calculate_percentile_total exact exact_rounding ten_times 95 (omega arith) (omega arith)

-- 0.95 * 9 = 8.55: between the ninth and the tenth.
percentile_95 : calculate_percentile exact ten_times 95 ≡ some 955
unfolding calculate_percentile index
percentile_95 = refl

abbrev measured : Collector ℕ
measured = record {
  counters = (codes "errors.total", pos 2) ∷ [];
  gauges = (codes "load", 150) ∷ [];
  timings =
      (
        codes "parse",
        record {
          count = pos 2;
          sum = pos 11;
          min = pos 4;
          max = pos 7;
          samples = pos 7 ∷ pos 4 ∷ [];
        },
      )
      ∷ [];
  events = record { timestamp = 5; name = codes "server_start"; tags = [] } ∷ [];
  errors = [];
  start_time = 0;
}

abbrev clocks : Clocks
clocks = record {
  system_start = 1700000000000000000;
  steady_start = 7;
  system_end = 1700000001000000000;
  steady_end = 1000000007;
}

-- The number of hundredths stands for a double.
abbrev number : ℕ → Tree
number n = integer (pos n)

abbrev views : Views trees exact number
views = record {
  counting = measured;
  gauging = measured;
  timing = measured;
  happening = measured;
  failing = measured;
  start_time = 0;
}

metrics_to_json_lem_example :
    (j : Tree) × (metrics_to_json trees exact number clocks views ≡ some j)
    × (path trees (codes "counters") (codes "parse") j
        ≡ put_found integer (lookup (codes "parse") measured.counters))
    × (path trees (codes "gauges") (codes "parse") j
        ≡ put_found number (lookup (codes "parse") measured.gauges))
    × ShowsTiming trees exact number
        (lookup (codes "parse") measured.timings)
        (path trees (codes "timings") (codes "parse") j)
metrics_to_json_lem_example =
    metrics_to_json_lem trees trees_laws exact exact_rounding number clocks views (codes "parse")
      (omega arith, tt)
