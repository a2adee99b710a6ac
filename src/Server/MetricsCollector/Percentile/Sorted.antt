-- ===== src/Server/MetricsCollector/Percentile/Sorted.antt =====
-- What std::sort makes of the samples: the same samples, in ascending order.
use mathlib.Core.List.Perm
use cppsim.Prelude.{Perm, List, [], ◌∷◌, ℤ, ◌≤ℤ◌, ltb_ℤ, arith, if_intro}
use cppsim.Server.MetricsCollector.Percentile.{insert, sort}

-- Every element is at most the next one, the first of them at least a.
abbrev pub AscendsFrom : ℤ → List ℤ → Type 0
AscendsFrom a [] = Unit {0}
AscendsFrom a (b ∷ bs) = (a ≤ℤ b) × AscendsFrom b bs

abbrev pub Ascends : List ℤ → Type 0
Ascends [] = Unit {0}
Ascends (a ∷ rest) = AscendsFrom a rest

insert-AscendsFrom :
    (c a : ℤ) (xs : List ℤ) → c ≤ℤ a → AscendsFrom c xs → AscendsFrom c (insert a xs)
unfolding insert
insert-AscendsFrom c a [] h k = (h, tt)
insert-AscendsFrom c a (b ∷ bs) h k =
    if_intro (AscendsFrom c) (ltb_ℤ b a) (λ e. (k.0, insert-AscendsFrom b a bs (ground arith) k.1))
      (λ e. (h, (ground arith, k.1)))

insert-Ascends : (a : ℤ) (xs : List ℤ) → Ascends xs → Ascends (insert a xs)
unfolding insert
insert-Ascends a [] k = tt
insert-Ascends a (b ∷ bs) k =
    if_intro Ascends (ltb_ℤ b a) (λ e. insert-AscendsFrom b a bs (ground arith) k)
      (λ e. (ground arith, k))

pub sort-Ascends : (xs : List ℤ) → Ascends (sort xs)
unfolding sort
sort-Ascends [] = tt
sort-Ascends (a ∷ rest) = insert-Ascends a (sort rest) (sort-Ascends rest)

insert-perm : (a : ℤ) (xs : List ℤ) → Perm (insert a xs) (a ∷ xs)
unfolding insert
insert-perm a [] = Perm.refl _
insert-perm a (b ∷ bs) =
    if_intro (λ ys. Perm ys (a ∷ b ∷ bs)) (ltb_ℤ b a)
      (λ _. Perm.trans (Perm.cons b (insert-perm a bs)) (Perm.swap a b bs)) (λ _. Perm.refl _)

pub sort-perm : (xs : List ℤ) → Perm (sort xs) xs
unfolding sort
sort-perm [] = Perm.refl _
sort-perm (a ∷ rest) = Perm.trans (insert-perm a (sort rest)) (Perm.cons a (sort-perm rest))
