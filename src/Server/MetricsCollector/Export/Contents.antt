-- ===== src/Server/MetricsCollector/Export/Contents.antt =====
-- What the exported metrics hold.
use cppsim.Prelude.{
  ℕ, Perm, suc, ◌<◌, ◌^◌, ◌≡◌, refl, ap, ◌∙◌, List, [], ◌∷◌, Option, none, some, Text, codes, ℤ,
  map, length, ◌>>=◌, text_eq, arith, All, Bool-cases, inl, inr,
}
use cppsim.Json.{Floats, JsonLib, JsonLaws, member}
use cppsim.Protocol.StateUpdate.{read_all}
use cppsim.Server.MetricsCollector.{lookup, TimingData}
use cppsim.Server.MetricsCollector.Percentile.{
  Arithmetic, RoundingLaws, sort, insert, calculate_percentile, calculate_percentile_total,
}
use cppsim.Server.MetricsCollector.Percentile.Sorted.{Ascends, sort-Ascends, sort-perm}
use cppsim.Server.MetricsCollector.Export.{
  Clocks, Views, object_of, percentiles, timing_to_json, entry_to_json, metrics_to_json,
}

length-insert : (a : ℤ) (xs : List ℤ) → length (insert a xs) ≡ suc (length xs)
unfolding insert
length-insert a [] = refl
length-insert a (b ∷ bs) = ground (arith, length-insert a bs)

length-sort : (xs : List ℤ) → length (sort xs) ≡ length xs
unfolding sort
length-sort [] = refl
length-sort (a ∷ rest) = length-insert a (sort rest) ∙ ap suc (length-sort rest)

-- The value under a name, if there is one, as it is put.
abbrev pub put_found : {A B : Type 0} → (A → B) → Option A → Option B
put_found put none = none
put_found put (some a) = some (put a)

member-map :
    {V B : Type 0} (put : V → B) (k : Text) (m : List (Text × V))
    → member k (map (λ e. (e.0, put e.1)) m) ≡ put_found put (lookup k m)
unfolding member lookup
member-map put k [] = refl
member-map put k ((j, v) ∷ m) = elim (Bool-cases (text_eq j k)) [
  | inl e ↦ rw e refl
  | inr e ↦ rw (e, member-map put k m) refl
]

-- A collector keeps 1001 samples of a timing at most, far fewer than this.
abbrev pub FewSamples : Text × TimingData → Type 0
FewSamples e = length e.1.samples < 2 ^ 53

-- The member of an object, and the member of that one.
abbrev pub path : {F : Floats} (L : JsonLib F) → Text → Text → L.Json → Option L.Json
path L section name j = L.find section j >>= L.find name

-- The member of an object under this name is this percentile of the sorted samples.
abbrev pub IsPercentile :
    {F : Floats} (L : JsonLib F)
    → Arithmetic F
    → (F.Double → L.Json)
    → List ℤ
    → Text
    → ℕ
    → L.Json
    → Type 0
IsPercentile {F} L A number sorted key p j =
    (d : F.Double) × (calculate_percentile A sorted p ≡ some d) × (L.find key j ≡ some (number d))

-- The percentiles of samples, if there are any: those of the same samples in ascending order.
abbrev pub HasPercentiles :
    {F : Floats} (L : JsonLib F) → Arithmetic F → (F.Double → L.Json) → List ℤ → L.Json → Type 0
HasPercentiles L A number [] j = L.find (codes "p50_ms") j ≡ none
HasPercentiles L A number (x ∷ rest) j =
    (sorted : List ℤ) × Perm sorted (x ∷ rest)
    × Ascends sorted
    × IsPercentile L A number sorted (codes "p50_ms") 50 j
    × IsPercentile L A number sorted (codes "p95_ms") 95 j
    × IsPercentile L A number sorted (codes "p99_ms") 99 j

-- The object of a timing.
abbrev pub IsTiming :
    {F : Floats} (L : JsonLib F) → Arithmetic F → (F.Double → L.Json) → TimingData → L.Json → Type 0
IsTiming L A number t j =
    (L.find (codes "count") j ≡ some (L.integer t.count))
    × (L.find (codes "sum_ms") j ≡ some (L.integer t.sum))
    × (L.find (codes "min_ms") j ≡ some (L.integer t.min))
    × (L.find (codes "max_ms") j ≡ some (L.integer t.max))
    × HasPercentiles L A number t.samples j

-- A name has an object if and only if the collector has a timing under it, and that is its object.
abbrev pub ShowsTiming :
    {F : Floats} (L : JsonLib F)
    → Arithmetic F
    → (F.Double → L.Json)
    → Option TimingData
    → Option L.Json
    → Type 0
ShowsTiming L A number none none = Unit {0}
ShowsTiming L A number none (some j) = ⊥
ShowsTiming L A number (some t) none = ⊥
ShowsTiming L A number (some t) (some j) = IsTiming L A number t j

module _ {F : Floats} (L : JsonLib F) (laws : JsonLaws L) (A : Arithmetic F)
    (rounding : RoundingLaws A) (number : F.Double → L.Json) where
  -- By the samples.
  timing_to_json-IsTiming :
      (count sum min max : ℤ) (xs : List ℤ)
      → length xs < 2 ^ 53
      → let t : TimingData = record {
        count = count;
        sum = sum;
        min = min;
        max = max;
        samples = xs;
      } in
        (j : L.Json) × (timing_to_json L A number t ≡ some j) × IsTiming L A number t j
  unfolding timing_to_json percentiles member text_eq
  timing_to_json-IsTiming count sum min max [] h = (
    _,
    refl,
    (
      simp laws.find-object,
      simp laws.find-object,
      simp laws.find-object,
      simp laws.find-object,
      simp laws.find-object,
    ),
  )
  timing_to_json-IsTiming count sum min max (x ∷ rest) h =
      let sorted = sort (x ∷ rest) in
      let few : length sorted < 2 ^ 53 = rw (length-sort (x ∷ rest)) h in
      let (a, ea) = calculate_percentile_total A rounding sorted 50 (omega arith) few in
      let (b, eb) = calculate_percentile_total A rounding sorted 95 (omega arith) few in
      let (c, ec) = calculate_percentile_total A rounding sorted 99 (omega arith) few in
      rw (ea, eb, ec)
        (
          _,
          refl,
          (
            simp laws.find-object,
            simp laws.find-object,
            simp laws.find-object,
            simp laws.find-object,
            (
              sorted,
              sort-perm (x ∷ rest),
              sort-Ascends (x ∷ rest),
              (a, ea, simp laws.find-object),
              (b, eb, simp laws.find-object),
              (c, ec, simp laws.find-object),
            ),
          ),
        )

  timings_total :
      (ts : List (Text × TimingData))
      → All FewSamples ts
      → (js : List (Text × L.Json)) × (read_all (entry_to_json L A number) ts ≡ some js)
        × ((name : Text) → ShowsTiming L A number (lookup name ts) (member name js))
  unfolding read_all entry_to_json lookup member
  timings_total [] h = ([], refl, λ name. tt)
  timings_total ((k, t) ∷ ts) h =
      let (j, e, shown) = timing_to_json-IsTiming t.count t.sum t.min t.max t.samples h.0 in
      let (js, f, rest) = timings_total ts h.1 in
      rw (e, f)
        (
          _,
          refl,
          λ name. elim (Bool-cases (text_eq k name)) [
            | inl same ↦ rw same shown
            | inr other ↦ rw other (rest name)
          ],
        )

  -- Where no timing has 2^53 samples, where the operations on double round as IEEE 754 says and the
  -- library keeps its documentation: the export builds its object, with no exception and no read
  -- outside of the samples. Under "counters" and under "gauges" a name has the value that the
  -- collector has for it, or none if the collector has none. Under "timings" it has an object if
  -- and only if the collector has a timing under it: with its count, sum, minimum and maximum, and,
  -- if it has samples, with the percentiles 50, 95 and 99 of its samples in ascending order.
  pub metrics_to_json_lem :
      (clocks : Clocks) (v : Views L A number) (name : Text)
      → All FewSamples v.timing.timings
      → (j : L.Json) × (metrics_to_json L A number clocks v ≡ some j)
        × (path L (codes "counters") name j ≡ put_found L.integer (lookup name v.counting.counters))
        × (path L (codes "gauges") name j ≡ put_found number (lookup name v.gauging.gauges))
        × ShowsTiming L A number (lookup name v.timing.timings) (path L (codes "timings") name j)
  unfolding metrics_to_json object_of member text_eq
  metrics_to_json_lem clocks v name h =
      let (js, e, shown) = timings_total v.timing.timings h in
      rw e (
        _,
        refl,
        simp (laws.find-object, member-map L.integer name v.counting.counters),
        simp (laws.find-object, member-map number name v.gauging.gauges),
        simp laws.find-object (shown name),
      )
