-- ===== src/Server/SessionMap/Order.antt =====
-- The order of the keys: insertion and erasure keep it, and keys in order are distinct.
use cppsim.Prelude.{
  ◌≡◌, refl, true, false, List, [], ◌∷◌, none, Text, text_eq, text_ltb, arith, text_eq→eq,
}
use cppsim.Server.SessionMap.{find, place, erase}

text_ltb_irrefl : (t : Text) → text_ltb t t ≡ false
unfolding text_ltb
text_ltb_irrefl [] = refl
text_ltb_irrefl (x ∷ xs) = ground (arith, text_ltb_irrefl xs)

text_ltb_total : (t u : Text) → text_ltb t u ≡ false → text_eq u t ≡ false → text_ltb u t ≡ true
unfolding text_ltb text_eq
text_ltb_total [] [] h k = cc
text_ltb_total [] (y ∷ ys) h k = cc
text_ltb_total (x ∷ xs) [] h k = refl
text_ltb_total (x ∷ xs) (y ∷ ys) h k = ground (arith, text_ltb_total xs ys)

text_ltb_trans : (t u v : Text) → text_ltb t u ≡ true → text_ltb u v ≡ true → text_ltb t v ≡ true
unfolding text_ltb
text_ltb_trans [] [] v h k = cc
text_ltb_trans [] (y ∷ ys) [] h k = cc
text_ltb_trans [] (y ∷ ys) (z ∷ zs) h k = refl
text_ltb_trans (x ∷ xs) [] v h k = cc
text_ltb_trans (x ∷ xs) (y ∷ ys) [] h k = cc
text_ltb_trans (x ∷ xs) (y ∷ ys) (z ∷ zs) h k = ground (arith, text_ltb_trans xs ys zs)

module _ {S : Type 0} where
  -- The first key, if there is one, comes after p.
  abbrev pub Above : Text → List (Text × S) → Type 0
  Above p [] = Unit {0}
  Above p ((k, s) ∷ m) = text_ltb p k ≡ true

  abbrev pub IsSorted : List (Text × S) → Type 0
  IsSorted [] = Unit {0}
  IsSorted ((k, s) ∷ m) = Above k m × IsSorted m

  Above-place :
      (p k : Text) (s : S) (m : List (Text × S))
      → text_ltb p k ≡ true
      → Above p m
      → Above p (place k s m)
  unfolding place
  Above-place p k s [] h a = h
  Above-place p k s ((j, r) ∷ m) h a = ground arith

  pub place-IsSorted :
      (k : Text) (s : S) (m : List (Text × S))
      → find k m ≡ none
      → IsSorted m
      → IsSorted (place k s m)
  unfolding place find
  place-IsSorted k s [] f h = (tt, tt)
  place-IsSorted k s ((j, r) ∷ m) f h =
      ground (arith, text_ltb_total k j, place-IsSorted k s m, Above-place j k s m)

  Above-trans : (p k : Text) (m : List (Text × S)) → text_ltb p k ≡ true → Above k m → Above p m
  Above-trans p k [] h a = tt
  Above-trans p k ((j, r) ∷ m) h a = text_ltb_trans p k j h a

  Above-erase : (p k : Text) (m : List (Text × S)) → Above p m → IsSorted m → Above p (erase k m)
  unfolding erase
  Above-erase p k [] a h = tt
  Above-erase p k ((j, r) ∷ m) a h = ground (arith, Above-trans p j m)

  pub erase-IsSorted : (k : Text) (m : List (Text × S)) → IsSorted m → IsSorted (erase k m)
  unfolding erase
  erase-IsSorted k [] h = tt
  erase-IsSorted k ((j, r) ∷ m) h = ground (arith, erase-IsSorted k m, Above-erase j k m)

  find-Above : (k : Text) (m : List (Text × S)) → Above k m → IsSorted m → find k m ≡ none
  unfolding find
  find-Above k [] a h = refl
  find-Above k ((j, r) ∷ m) a h =
      ground (arith, text_eq→eq j k, text_ltb_irrefl k, find-Above k m (Above-trans k j m a h.0))

  -- An erased key is gone: no key stands twice.
  pub find-erase : (k : Text) (m : List (Text × S)) → IsSorted m → find k (erase k m) ≡ none
  unfolding find erase
  find-erase k [] h = refl
  find-erase k ((j, r) ∷ m) h = ground (arith, text_eq→eq j k, find-Above j m, find-erase k m)
