-- ===== src/Server/MetricsCollector/Retention.antt =====
-- What the collector keeps: the latest samples, events and errors.
use cppsim.Prelude.{
  ℕ, zero, suc, ◌+◌, ◌-◌, ◌≤◌, ◌≡◌, refl, List, [], ◌∷◌, ◌++◌, some, Text, ℤ, pos, ◌+ℤ◌, ltb,
  length, drop, text_eq, if◌then◌else◌, arith, length-append, ap, ◌∙◌, sym, Bool-cases, inl, inr,
  text_eq→eq, length-append,
}
use cppsim.Server.MetricsCollector.{
  lookup, value_or, update, TimingData, no_timing, add_timing, push_capped, Collector, EventData,
  increment_counter, get_counter, record_event, reset,
}

-- All of a list, one after the other.
unfoldable pub push_all : {A : Type 0} → ℕ → List A → List A → List A
push_all limit [] xs = xs
push_all limit (a ∷ more) xs = push_all limit more (push_capped limit a xs)

-- What is kept of everything that came: the last ones, as many as the limit.
unfoldable pub latest : {A : Type 0} → ℕ → List A → List A
latest limit xs = drop (length xs - limit) xs

drop_nil : {A : Type 0} (n : ℕ) → drop {A = A} n [] ≡ []
drop_nil zero = refl
drop_nil (suc n) = refl

drop-append :
    {A : Type 0} (n : ℕ) (xs ys : List A) → n ≤ length xs → drop n (xs ++ ys) ≡ drop n xs ++ ys
drop-append zero xs ys h = refl
drop-append (suc n) [] ys h = absurd (omega arith)
drop-append (suc n) (x ∷ xs) ys h = drop-append n xs ys (omega arith)

drop-drop : {A : Type 0} (n : ℕ) (xs : List A) → drop 1 (drop n xs) ≡ drop (suc n) xs
drop-drop zero xs = refl
drop-drop (suc n) [] = refl
drop-drop (suc n) (x ∷ xs) = drop-drop n xs

length-drop : {A : Type 0} (n : ℕ) (xs : List A) → length (drop n xs) ≡ length xs - n
length-drop zero xs = omega arith
length-drop (suc n) [] = omega arith
length-drop (suc n) (x ∷ xs) = omega (arith, length-drop n xs)

-- One more keeps the latest.
push_capped-latest :
    {A : Type 0} (limit : ℕ) (a : A) (xs : List A)
    → push_capped limit a (latest limit xs) ≡ latest limit (xs ++ a ∷ [])
unfolding push_capped latest
push_capped-latest limit a xs =
    let zs = xs ++ a ∷ [] in
    let n = length xs - limit in
    rw (sym (drop-append n xs (a ∷ []) (omega arith)), length-drop n zs)
      (elim (Bool-cases (ltb limit (length zs - n))) [
        | inl over ↦ rw over (
            drop-drop n zs
            ∙ ap (λ k. drop k zs) {x = suc n} (ground (arith, length-append xs (a ∷ []))))
        | inr room ↦
            rw room (ap (λ k. drop k zs) {x = n} (ground (arith, length-append xs (a ∷ []))))
      ])

append_nil : {A : Type 0} (xs : List A) → xs ++ [] ≡ xs
append_nil [] = refl
append_nil (x ∷ xs) = ap (λ ys. x ∷ ys) (append_nil xs)

append_next : {A : Type 0} (xs : List A) (y : A) (zs : List A) → (xs ++ y ∷ []) ++ zs ≡ xs ++ y ∷ zs
append_next [] y zs = refl
append_next (x ∷ xs) y zs = ap (λ ts. x ∷ ts) (append_next xs y zs)

push_all_from :
    {A : Type 0} (limit : ℕ) (new old : List A)
    → push_all limit new (latest limit old) ≡ latest limit (old ++ new)
unfolding push_all
push_all_from limit [] old = ap (latest limit) (sym (append_nil old))
push_all_from limit (a ∷ new) old =
    ap (push_all limit new) (push_capped-latest limit a old)
    ∙ push_all_from limit new (old ++ a ∷ [])
    ∙ ap (latest limit) (append_next old a new)

-- Of all that is pushed, the latest are kept, as many as the limit.
push_all_lem : {A : Type 0} (limit : ℕ) (new : List A) → push_all limit new [] ≡ latest limit new
unfolding latest
push_all_lem limit new =
    ap (push_all limit new) (sym (drop_nil (0 - limit))) ∙ push_all_from limit new []

lookup-update :
    (k other : Text) (d : ℤ) (f : ℤ → ℤ) (m : List (Text × ℤ))
    → lookup other (update k d f m)
      ≡ (if text_eq k other then some (f (value_or d (lookup k m))) else lookup other m)
unfolding lookup update
lookup-update k other d f [] = refl
lookup-update k other d f ((j, a) ∷ m) = elim (Bool-cases (text_eq j k)) [
  | inl e ↦ rw e (
      rw (text_eq→eq j k e)
        (elim (Bool-cases (text_eq k other)) [ inl o ↦ rw o refl | inr o ↦ rw o refl ]))
  | inr e ↦ rw e (elim (Bool-cases (text_eq j other)) [
    | inl o ↦ elim (Bool-cases (text_eq k other)) [
      | inl h ↦ cc (text_eq→eq k other h)
      | inr h ↦ rw (o, h) refl
    ]
    | inr o ↦ rw (o, lookup-update k other d f m) refl
  ])
]

-- An increment adds to the counter of its name, which starts at 0, and to no other.
pub get_counter-increment_counter :
    {D : Type 0} (name other : Text) (value : ℤ) (c : Collector D)
    → get_counter other (increment_counter name value c)
      ≡ (if text_eq name other then get_counter name c +ℤ value else get_counter other c)
unfolding get_counter increment_counter
get_counter-increment_counter name other value c =
    ap (value_or (pos 0)) (lookup-update name other (pos 0) (λ n. n +ℤ value) c.counters)
    ∙ elim (Bool-cases (text_eq name other)) [
      | inl same ↦ rw same refl
      | inr differs ↦ rw differs refl
    ]

-- One event after the other.
unfoldable pub record_all : {D : Type 0} → List EventData → Collector D → Collector D
record_all [] c = c
record_all (e ∷ es) c = record_all es (record_event e.timestamp e.name e.tags c)

record_all-events :
    {D : Type 0} (es : List EventData) (c : Collector D)
    → (record_all es c).events ≡ push_all 1000 es c.events
unfolding record_all push_all record_event
record_all-events [] c = refl
record_all-events (e ∷ es) c = record_all-events es (record_event e.timestamp e.name e.tags c)

-- After a reset and any number of events, the collector keeps exactly the latest 1000 of them, in
-- their order.
pub record_event_lem :
    {D : Type 0} (es : List EventData) (now : ℕ) (c : Collector D)
    → (record_all es (reset now c)).events ≡ latest 1000 es
unfolding reset
record_event_lem es now c = record_all-events es (reset now c) ∙ push_all_lem 1000 es

-- One duration after the other.
unfoldable pub time_all : List ℤ → TimingData → TimingData
time_all [] t = t
time_all (d ∷ ds) t = time_all ds (add_timing d t)

add_timing-samples :
    (d : ℤ) (t : TimingData) → (add_timing d t).samples ≡ push_capped 1001 d t.samples
unfolding add_timing push_capped
add_timing-samples d t =
    rw (length-append t.samples (d ∷ [])) (elim (Bool-cases (ltb 1000 (length t.samples))) [
      | inl over ↦ ground (arith, drop-append 1 t.samples (d ∷ []))
      | inr room ↦ ground arith
    ])

time_all-samples :
    (ds : List ℤ) (t : TimingData) → (time_all ds t).samples ≡ push_all 1001 ds t.samples
unfolding time_all push_all
time_all-samples [] t = refl
time_all-samples (d ∷ ds) t =
    time_all-samples ds (add_timing d t) ∙ ap (push_all 1001 ds) (add_timing-samples d t)

time_all-count :
    (ds : List ℤ) (t : TimingData) (n : ℕ)
    → t.count ≡ pos n
    → (time_all ds t).count ≡ pos (n + length ds)
unfolding time_all add_timing
time_all-count [] t n e = ground arith
time_all-count (d ∷ ds) t n e =
    time_all-count ds (add_timing d t) (n + 1) (ground arith) ∙ ap pos (omega arith)

-- After any number of durations under one name, their count is right, and the samples are exactly
-- the latest 1001 of them: the test for more than 1000 comes before the push.
pub add_timing_lem :
    (ds : List ℤ)
    → ((time_all ds no_timing).count ≡ pos (length ds))
      × ((time_all ds no_timing).samples ≡ latest 1001 ds)
unfolding no_timing
add_timing_lem ds = (
  time_all-count ds no_timing 0 refl ∙ ap pos (omega arith),
  time_all-samples ds no_timing ∙ push_all_lem 1001 ds,
)
