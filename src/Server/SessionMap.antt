-- ===== src/Server/SessionMap.antt =====
-- The std::map of connection_manager: a list of entries in ascending order of the keys.
pub mod Order
use cppsim.Prelude.{
  ℕ, ◌+◌, ◌≡◌, refl, Bool, true, false, List, [], ◌∷◌, Option, none, some, Text, text_eq, text_ltb,
  if◌then◌else◌, map, arith, length, text_eq→eq, text_eq_refl, suc, is_some,
}

module _ {ℓ} {S : Type ℓ} where
  -- sessions_.find
  unfoldable pub find : Text → List (Text × S) → Option S
  find k [] = none
  find k ((j, s) ∷ m) = if text_eq j k then some s else find k m

  -- The place of a new key.
  unfoldable pub place : Text → S → List (Text × S) → List (Text × S)
  place k s [] = (k, s) ∷ []
  place k s ((j, r) ∷ m) = if text_ltb k j then (k, s) ∷ (j, r) ∷ m else (j, r) ∷ place k s m

  -- sessions_.try_emplace: `none` if the key is taken.
  unfoldable pub try_emplace : Text → S → List (Text × S) → Option (List (Text × S))
  try_emplace k s m = if is_some (find k m) then none else some (place k s m)

  -- sessions_.erase of the entry that `find` gives.
  unfoldable pub erase : Text → List (Text × S) → List (Text × S)
  erase k [] = []
  erase k ((j, s) ∷ m) = if text_eq j k then m else (j, s) ∷ erase k m

  abbrev pub keys : List (Text × S) → List Text
  keys m = map (λ e. e.0) m

  pub find-place :
      (j k : Text) (s : S) (m : List (Text × S))
      → find k m ≡ none
      → find j (place k s m) ≡ (if text_eq k j then some s else find j m)
  unfolding find place
  find-place j k s [] h = refl
  find-place j k s ((i, r) ∷ m) h =
      ground
        (arith, find-place j k s m, text_eq→eq k j, text_eq→eq i j, text_eq_refl k, text_eq_refl j)

  pub length-place :
      (k : Text) (s : S) (m : List (Text × S)) → length (place k s m) ≡ suc (length m)
  unfolding place
  length-place k s [] = refl
  length-place k s ((i, r) ∷ m) = ground (arith, length-place k s m)

  pub length-erase :
      (k : Text) (m : List (Text × S))
      → length m ≡ length (erase k m) + (if is_some (find k m) then 1 else 0)
  unfolding erase find
  length-erase k [] = refl
  length-erase k ((i, r) ∷ m) = ground (arith, length-erase k m)

  pub find-erase_ne :
      (j k : Text) (m : List (Text × S)) → text_eq k j ≡ false → find j (erase k m) ≡ find j m
  unfolding find erase
  find-erase_ne j k [] h = refl
  find-erase_ne j k ((i, r) ∷ m) h = ground (arith, find-erase_ne j k m, text_eq→eq i k)

  pub erase_absent : (k : Text) (m : List (Text × S)) → find k m ≡ none → erase k m ≡ m
  unfolding find erase
  erase_absent k [] h = refl
  erase_absent k ((i, r) ∷ m) h = ground (arith, erase_absent k m)
