-- ===== src/Server/MetricsCollector/Percentile.antt =====
-- calculate_percentile of src/server/metrics_collector.cpp, and the sorted samples that it reads.
-- `none` is a read outside of the samples. The operations on double are parameters.
pub mod Sorted
use cppsim.Prelude.{
  ℕ, zero, suc, ◌-◌, ◌≤◌, ◌<◌, ◌^◌, ◌≡◌, refl, true, false, List, [], ◌∷◌, Option, none, some, ℤ,
  pos, ltb_ℤ, ◌==◌, length, ◌>>=◌, if◌then◌else◌, arith, if_intro,
}
use cppsim.Json.{Floats}

pub record Arithmetic (F : Floats) : Type 0 where
  pub plus : F.Double → F.Double → F.Double
  pub minus : F.Double → F.Double → F.Double
  pub divide : F.Double → F.Double → F.Double
  pub floor : F.Double → F.Double
  pub ceil : F.Double → F.Double
  -- static_cast<size_t>
  pub to_size : F.Double → ℕ

abbrev pub get_elem? {ℓ} : {A : Type ℓ} → List A → ℕ → Option A
get_elem? [] i = none
get_elem? (x ∷ xs) zero = some x
get_elem? (x ∷ xs) (suc i) = get_elem? xs i

-- std::sort, ascending.
unfoldable pub insert : ℤ → List ℤ → List ℤ
insert a [] = a ∷ []
insert a (b ∷ bs) = if ltb_ℤ b a then b ∷ insert a bs else a ∷ b ∷ bs

unfoldable pub sort : List ℤ → List ℤ
unfolding insert
sort [] = []
sort (a ∷ rest) = insert a (sort rest)

module _ {F : Floats} (A : Arithmetic F) where
  open F use {Double, times, of_int, less}

  -- percentile / 100.0 * (size - 1)
  unfoldable pub index : ℕ → ℕ → Double
  index percentile size =
      times (A.divide (of_int (pos percentile)) (of_int (pos 100))) (of_int (pos (size - 1)))

  unfoldable pub interpolate : List ℤ → Double → ℕ → ℕ → Option Double
  interpolate samples i lower upper =
      if lower == upper then (do a ← get_elem? samples lower; some (of_int a)) else do
        a ← get_elem? samples lower
        b ← get_elem? samples upper
        let weight = A.minus i (of_int (pos lower))
        some (A.plus (times (of_int a) (A.minus (of_int (pos 1)) weight)) (times (of_int b) weight))

  unfoldable pub calculate_percentile : List ℤ → ℕ → Option Double
  unfolding interpolate
  calculate_percentile [] percentile = some (of_int (pos 0))
  calculate_percentile (a ∷ rest) percentile =
      let i = index percentile (length (a ∷ rest)) in
      interpolate (a ∷ rest) i (A.to_size (A.floor i)) (A.to_size (A.ceil i))

  -- A number, neither below 0 nor above n.
  abbrev pub Lies : ℕ → Double → Type 0
  Lies n x =
      (F.is_finite x ≡ true) × (less x (of_int (pos 0)) ≡ false) × (less (of_int (pos n)) x ≡ false)

  -- What IEEE 754 says of the operations, on integers that double has exactly: a rounded quotient of a
  -- number by one that is not smaller is at most 1; a rounded product with a factor of at most 1 is
  -- at most the other factor; and floor and ceil give the nearest integers.
  pub record RoundingLaws : Type 0 where
    pub divide-Lies :
        (a b : ℕ) → a ≤ b → 0 < b → b < 2 ^ 53 → Lies 1 (A.divide (of_int (pos a)) (of_int (pos b)))
    pub times-Lies :
        (x : Double) (n : ℕ) → n < 2 ^ 53 → Lies 1 x → Lies n (times x (of_int (pos n)))
    pub ceil-le : (x : Double) (n : ℕ) → n < 2 ^ 53 → Lies n x → A.to_size (A.ceil x) ≤ n
    pub floor-le-ceil :
        (x : Double) (n : ℕ) → n < 2 ^ 53 → Lies n x → A.to_size (A.floor x) ≤ A.to_size (A.ceil x)

get_elem?-some {ℓ} :
    {A : Type ℓ} (xs : List A) (i : ℕ) → i < length xs → (a : A) × (get_elem? xs i ≡ some a)
get_elem?-some [] i h = absurd (omega arith)
get_elem?-some (x ∷ xs) zero h = (x, refl)
get_elem?-some (x ∷ xs) (suc i) h = get_elem?-some xs i (omega arith)

module _ {F : Floats} (A : Arithmetic F) (laws : RoundingLaws A) where
  -- The index lies between 0 and the last position.
  index-Lies : (p n : ℕ) → p ≤ 100 → n < 2 ^ 53 → Lies A (n - 1) (index A p n)
  unfolding index
  index-Lies p n h k =
      laws.times-Lies (A.divide (F.of_int (pos p)) (F.of_int (pos 100))) (n - 1) (omega arith)
        (laws.divide-Lies p 100 h (omega arith) (omega arith))

  interpolate_total :
      (samples : List ℤ) (i : F.Double) (lower upper : ℕ)
      → lower < length samples
      → upper < length samples
      → (d : F.Double) × (interpolate A samples i lower upper ≡ some d)
  unfolding interpolate
  interpolate_total samples i lower upper l u =
      let (a, e) = get_elem?-some samples lower l in
      let (b, f) = get_elem?-some samples upper u in
      if_intro (λ (o : Option F.Double). (d : F.Double) × (o ≡ some d)) (lower == upper)
        (λ _. rw e (F.of_int a, refl)) (λ _. rw (e, f) (_, refl))

  -- Where the operations on double round as IEEE 754 says, a percentile from 0 to 100 of fewer than 2^53 samples never
  -- reads outside of the samples.
  pub calculate_percentile_total :
      (samples : List ℤ) (p : ℕ)
      → p ≤ 100
      → length samples < 2 ^ 53
      → (d : F.Double) × (calculate_percentile A samples p ≡ some d)
  unfolding calculate_percentile
  calculate_percentile_total [] p h k = (F.of_int (pos 0), refl)
  calculate_percentile_total (a ∷ rest) p h k =
      let n = length (a ∷ rest) in
      let i = index A p n in
      let range : Lies A (n - 1) i = index-Lies p n h k in
      let upper : A.to_size (A.ceil i) ≤ n - 1 = laws.ceil-le i (n - 1) (omega arith) range in
      let lower : A.to_size (A.floor i) ≤ A.to_size (A.ceil i) =
        laws.floor-le-ceil i (n - 1) (omega arith) range in
      interpolate_total (a ∷ rest) i (A.to_size (A.floor i)) (A.to_size (A.ceil i)) (omega arith)
        (omega arith)
