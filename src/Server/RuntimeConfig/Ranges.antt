-- ===== src/Server/RuntimeConfig/Ranges.antt =====
-- Whatever the file holds, the limits in use stay in their ranges.
use cppsim.Prelude.{
  ℕ, ◌*◌, ◌≤◌, ◌≡◌, ◌⊎◌, inl, inr, refl, Bool, true, false, ◌||◌, Option, none, some, Text, codes,
  ℤ, pos, not, ltb, ltb_ℤ, ◌≤ℤ◌, to_int32, ◌>>=◌, ◌>>◌, require, arith, Option-cases, Bool-cases,
  subst,
}
use cppsim.Json.{Floats, JsonLib}
use cppsim.Protocol.Messages.{max_amount}
use cppsim.Server.RuntimeConfig.{
  Limits, RuntimeConfig, clamp_ℤ, clamp_size, read_number, read_int64, read_size, read_bool,
  read_max_connections, read_limits, load_from_json, load_parsed, load_from_file,
}

pub record InRange (c : Limits) : Type 0 where
  pub connections : (pos 1 ≤ℤ c.max_connections) × (c.max_connections ≤ℤ pos 10000)
  pub handshake : (pos 1 ≤ℤ c.handshake_timeout) × (c.handshake_timeout ≤ℤ pos 300)
  pub message_size : (1024 ≤ c.max_message_size) × (c.max_message_size ≤ 1048576)
  pub queue_size : (10 ≤ c.max_write_queue_size) × (c.max_write_queue_size ≤ 1000)
  pub per_window : (1 ≤ c.max_messages_per_window) × (c.max_messages_per_window ≤ 1000)
  pub window : (pos 1 ≤ℤ c.rate_limit_window) × (c.rate_limit_window ≤ℤ pos 60)
  pub backoff : (pos 1 ≤ℤ c.max_backoff) × (c.max_backoff ≤ℤ pos 300)
  pub idle : (pos 1 ≤ℤ c.ws_idle_timeout) × (c.ws_idle_timeout ≤ℤ pos 172800)
  pub amount : (pos 1000 ≤ℤ c.max_amount) × (c.max_amount ≤ℤ max_amount)
  pub gap : (pos 100 ≤ℤ c.max_sequence_gap) × (c.max_sequence_gap ≤ℤ pos 100000)
  pub window_fits_queue : c.max_messages_per_window ≤ c.max_write_queue_size

clamp_ℤ_bounds :
    (lo hi d v : ℤ) → lo ≤ℤ d → d ≤ℤ hi → (lo ≤ℤ clamp_ℤ lo hi d v) × (clamp_ℤ lo hi d v ≤ℤ hi)
unfolding clamp_ℤ
clamp_ℤ_bounds lo hi d v h k = elim (Bool-cases (ltb_ℤ v lo || ltb_ℤ hi v)) [
  | inl out ↦ rw out (h, k)
  | inr within ↦ rw within (ground arith, ground arith)
]

clamp_size_bounds :
    (lo hi d v : ℕ) → lo ≤ d → d ≤ hi → (lo ≤ clamp_size lo hi d v) × (clamp_size lo hi d v ≤ hi)
unfolding clamp_size
clamp_size_bounds lo hi d v h k = ground arith

-- What holds of the value, if there is one.
data Ensures {A : Type 0} (P : A → Type 0) : Option A → Type 0 where
  nothing : Ensures P none
  just : (a : A) → P a → Ensures P (some a)

Ensures-bind :
    {A B : Type 0} {P : A → Type 0} {Q : B → Type 0} {m : Option A} (f : A → Option B)
    → Ensures P m
    → ((a : A) → P a → Ensures Q (f a))
    → Ensures Q (m >>= f)
Ensures-bind f nothing k = nothing
Ensures-bind f (just a p) k = k a p

Ensures-any : {A : Type 0} (o : Option A) → Ensures (λ _. Unit {0}) o
Ensures-any none = nothing
Ensures-any (some a) = just a tt

Ensures-some : {A : Type 0} {P : A → Type 0} (o : Option A) (a : A) → Ensures P o → o ≡ some a → P a
Ensures-some {P = P} none a h e = absurd (ground arith)
Ensures-some {P = P} (some b) a (just _ p) e = let q : b ≡ a = cc in subst P q p

Ensures-require :
    {B : Type 0} {Q : B → Type 0} (b : Bool) (o : Option B)
    → (b ≡ true → Ensures Q o)
    → Ensures Q (require b >> o)
Ensures-require true o h = h refl
Ensures-require false o h = nothing

abbrev Between : ℤ → ℤ → ℤ → Type 0
Between lo hi v = (lo ≤ℤ v) × (v ≤ℤ hi)

abbrev SizeBetween : ℕ → ℕ → ℕ → Type 0
SizeBetween lo hi v = (lo ≤ v) × (v ≤ hi)

module _ {F : Floats} (L : JsonLib F) where
  read_number_range :
      {A : Type 0} (P : A → Type 0) (get : L.Json → Option A) (clamp : A → A) (d : A)
      → P d
      → ((a : A) → P (clamp a))
      → (o : Option L.Json) → Ensures P (read_number L get clamp d o)
  unfolding read_number
  read_number_range P get clamp d hd hc none = just d hd
  read_number_range P get clamp d hd hc (some v) = elim (Bool-cases (L.is_number v)) [
    | inl num ↦
        rw num
          (Ensures-bind (λ a. some (clamp a)) (Ensures-any (get v)) (λ a _. just (clamp a) (hc a)))
    | inr other ↦ rw other (just d hd)
  ]

  read_int64_range :
      (key : Text) (lo hi d : ℤ) (j : L.Json)
      → lo ≤ℤ d
      → d ≤ℤ hi
      → Ensures (Between lo hi) (read_int64 L key lo hi d j)
  unfolding read_int64
  read_int64_range key lo hi d j h k =
      read_number_range (Between lo hi) L.get_int64 (clamp_ℤ lo hi d) d (h, k)
        (λ v. clamp_ℤ_bounds lo hi d v h k) (L.find key j)

  read_size_range :
      (key : Text) (lo hi d : ℕ) (j : L.Json)
      → lo ≤ d
      → d ≤ hi
      → Ensures (SizeBetween lo hi) (read_size L key lo hi d j)
  unfolding read_size
  read_size_range key lo hi d j h k =
      read_number_range (SizeBetween lo hi) L.get_uint64 (clamp_size lo hi d) d (h, k)
        (λ v. clamp_size_bounds lo hi d v h k) (L.find key j)

  read_max_connections_range :
      (j : L.Json) → Ensures (Between (pos 1) (pos 10000)) (read_max_connections L j)
  unfolding read_max_connections
  read_max_connections_range j =
      read_number_range (Between (pos 1) (pos 10000)) L.get_int64
        (λ v. clamp_ℤ (pos 1) (pos 10000) (pos 1000) (to_int32 v)) (pos 1000) (omega arith)
        (λ v.
          clamp_ℤ_bounds (pos 1) (pos 10000) (pos 1000) (to_int32 v) (omega arith) (omega arith))
        (L.find (codes "max_connections") j)

  read_limits_range : (j : L.Json) → Ensures InRange (read_limits L j)
  unfolding read_limits
  read_limits_range j = Ensures-bind _ (read_max_connections_range j) λ a ha.
      Ensures-bind _
        (read_int64_range (codes "handshake_timeout") (pos 1) (pos 300) (pos 10) j (omega arith)
          (omega arith))
        λ b hb.
          Ensures-bind _
            (read_size_range (codes "max_message_size") 1024 (1024 * 1024) 65536 j (omega arith)
              (omega arith))
            λ c hc.
              Ensures-bind _
                (read_size_range (codes "max_write_queue_size") 10 1000 100 j (omega arith)
                  (omega arith))
                λ d hd.
                  Ensures-bind _
                    (read_size_range (codes "max_messages_per_window") 1 1000 10 j (omega arith)
                      (omega arith))
                    λ e he.
                      Ensures-bind _
                        (read_int64_range (codes "rate_limit_window") (pos 1) (pos 60) (pos 1) j
                          (omega arith) (omega arith))
                        λ f hf.
                          Ensures-bind _
                            (read_int64_range (codes "max_backoff") (pos 1) (pos 300) (pos 30) j
                              (omega arith) (omega arith))
                            λ g hg.
                              Ensures-bind _
                                (read_int64_range (codes "ws_idle_timeout") (pos 1) (pos 172800)
                                  (pos 86400) j (omega arith) (omega arith))
                                λ h hh.
                                  Ensures-bind _
                                    (read_int64_range (codes "max_amount") (pos 1000) max_amount
                                      max_amount j (omega arith) (omega arith))
                                    λ i hi.
                                      Ensures-bind _
                                        (read_int64_range (codes "max_sequence_gap") (pos 100)
                                          (pos 100000) (pos 10000) j (omega arith) (omega arith))
                                        λ k hk.
                                          Ensures-bind _
                                            (Ensures-any (
                                              read_bool L true
                                                (L.find (codes "security_enabled") j)))
                                            λ l _.
                                              Ensures-bind _
                                                (Ensures-any (
                                                  read_bool L true
                                                    (L.find (codes "metrics_enabled") j)))
                                                λ m _. Ensures-require (not (ltb d e)) _ λ q.
                                                  just _ (record {
                                                    connections = ha;
                                                    handshake = hb;
                                                    message_size = hc;
                                                    queue_size = hd;
                                                    per_window = he;
                                                    window = hf;
                                                    backoff = hg;
                                                    idle = hh;
                                                    amount = hi;
                                                    gap = hk;
                                                    window_fits_queue = ground arith;
                                                  })

  load_parsed_range :
      (path : Text) (now : ℕ) (o : Option L.Json) (c : RuntimeConfig)
      → let r = load_parsed L path now o c in
        ((r.1 ≡ true) × InRange r.0.limits × (r.0.config_path ≡ path)) ⊎ ((r.1 ≡ false) × (r.0 ≡ c))
  unfolding load_parsed load_from_json
  load_parsed_range path now none c = inr (refl, refl)
  load_parsed_range path now (some j) c = elim (Option-cases (read_limits L j)) [
    | inl e ↦ rw (e, load_parsed, load_from_json) (inr (refl, refl))
    | inr (limits, e) ↦
        rw (e, load_parsed, load_from_json)
          (inl (refl, Ensures-some (read_limits L j) limits (read_limits_range j) e, refl))
  ]

  -- Whatever the file holds, a successful load leaves limits in their ranges, the queue at least as
  -- long as a window; a failed load changes nothing.
  pub load_from_file_range :
      (path : Text) (file : Option Text) (now : ℕ) (c : RuntimeConfig)
      → let r = load_from_file L path file now c in
        ((r.1 ≡ true) × InRange r.0.limits × (r.0.config_path ≡ path)) ⊎ ((r.1 ≡ false) × (r.0 ≡ c))
  unfolding load_from_file
  load_from_file_range path file now c = load_parsed_range path now (file >>= L.parse) c
