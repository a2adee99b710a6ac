-- ===== src/Server/Session/Traffic/Window.antt =====
-- The sliding window against an unpruned history: dropping old time stamps loses no verdict.
use cppsim.Prelude.{
  sym, ap, ℕ, suc, ◌-◌, ◌+◌, ◌≤◌, ◌≡◌, refl, Bool, not, List, [], ◌∷◌, ◌++◌, ltb, leb, length,
  keep-append, length-keep-le, length-append, arith, if◌then◌else◌, ap, Bool-cases, inl, inr,
}
use cppsim.Server.Session.Traffic.{recent, slide}

-- The times of a list do not go back, from t on.
abbrev pub NeverBack : ℕ → List ℕ → Type 0
NeverBack t [] = Unit {0}
NeverBack t (now ∷ times) = (t ≤ now) × NeverBack now times

-- The verdict on each of a list of messages (true is over the limit), from the kept time stamps.
unfoldable pub verdicts : ℕ → ℕ → List ℕ → List ℕ → List Bool
verdicts limit window ts [] = []
verdicts limit window ts (now ∷ times) =
    let r = slide limit window now ts in r.1 ∷ verdicts limit window r.0 times

-- How many of the times are at most as long ago as the window.
unfoldable pub how_many : ℕ → ℕ → List ℕ → ℕ
how_many window now [] = 0
how_many window now (t ∷ ts) =
    let rest = how_many window now ts in if leb (now - t) window then suc rest else rest

-- The same with all the admitted messages remembered: over the limit is a message when as many as
-- the limit were admitted at most a window ago.
unfoldable pub reference : ℕ → ℕ → List ℕ → List ℕ → List Bool
reference limit window history [] = []
reference limit window history (now ∷ times) =
    let over = leb limit (how_many window now history) in
    over ∷ reference limit window (if over then history else history ++ now ∷ []) times

length-recent :
    (window now : ℕ) (ts : List ℕ) → length (recent window now ts) ≡ how_many window now ts
unfolding recent how_many
length-recent window now [] = refl
length-recent window now (t ∷ ts) = ground (arith, length-recent window now ts)

recent-recent :
    (window t now : ℕ) (ts : List ℕ)
    → t ≤ now
    → recent window now (recent window t ts) ≡ recent window now ts
unfolding recent
recent-recent window t now [] h = refl
recent-recent window t now (x ∷ xs) h = ground (arith, recent-recent window t now xs h)

recent_now :
    (window now : ℕ) (ts : List ℕ)
    → recent window now ts ++ now ∷ [] ≡ recent window now (ts ++ now ∷ [])
unfolding recent
recent_now window now ts =
    rw (keep-append (λ t. not (ltb (t + window) now)) ts (now ∷ [])) (ground arith)

-- One message: the verdict is the reference's, and what is kept is the recent part of its history.
slide_lem :
    (limit window t now : ℕ) (history : List ℕ)
    → t ≤ now
    → let over = leb limit (how_many window now history) in
      slide limit window now (recent window t history)
      ≡ (recent window now (if over then history else history ++ now ∷ []), over)
unfolding slide
slide_lem limit window t now history h =
    rw (recent-recent window t now history h, length-recent window now history)
      (elim (Bool-cases (leb limit (how_many window now history))) [
        | inl over ↦ rw over refl
        | inr under ↦ rw (under, recent_now window now history) refl
      ])

verdicts_from :
    (limit window t : ℕ) (history times : List ℕ)
    → NeverBack t times
    → verdicts limit window (recent window t history) times ≡ reference limit window history times
unfolding verdicts reference
verdicts_from limit window t history [] h = refl
verdicts_from limit window t history (now ∷ times) h =
    let over = leb limit (how_many window now history) in
    rw (slide_lem limit window t now history h.0) (
      ap (λ bs. over ∷ bs)
        (verdicts_from limit window now (if over then history else history ++ now ∷ []) times h.1))

-- For messages at times that do not go back, the queue of time stamps, pruned at each message, puts
-- over the limit exactly the messages before which as many as the limit were admitted at most a
-- window ago, counted among all that were ever admitted.
pub verdicts-reference :
    (limit window t : ℕ) (times : List ℕ)
    → NeverBack t times
    → verdicts limit window [] times ≡ reference limit window [] times
unfolding recent
verdicts-reference limit window t times h = verdicts_from limit window t [] times h

append_nil : (xs : List ℕ) → xs ++ [] ≡ xs
append_nil [] = refl
append_nil (x ∷ xs) = ap (λ ys. x ∷ ys) (append_nil xs)

-- With no more time stamps than the limit before a message there are no more after it: the recent
-- ones, and the message's own unless it is over the limit.
pub slide_bounded :
    (limit window now : ℕ) (ts : List ℕ)
    → length ts ≤ limit
    → let r = slide limit window now ts in
      (length r.0 ≤ limit) × (r.0 ≡ recent window now ts ++ (if r.1 then [] else now ∷ []))
unfolding slide recent
slide_bounded limit window now ts h =
    elim (Bool-cases (leb limit (length (recent window now ts)))) [
      | inl over ↦ rw over (
        omega (arith, h, length-keep-le (λ t. not (ltb (t + window) now)) ts),
        sym (append_nil (recent window now ts)),
      )
      | inr under ↦ rw under (ground (arith, length-append (recent window now ts) (now ∷ [])), refl)
    ]
