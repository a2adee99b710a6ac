-- ===== src/Json.antt =====
-- What the program uses of nlohmann::json and of double, as parameters of the model.
use cppsim.Prelude.{
  ℕ, ◌≡◌, Bool, true, false, List, [], ◌∷◌, Option, none, some, Text, text_eq, ℤ, IsInt64, IsInt32,
  pos, ◌<◌, ◌^◌, if◌then◌else◌, All,
}

-- The operations on double in the conversion of amounts.
pub record Floats : Type 1 where
  pub Double : Type 0
  pub is_finite : Double → Bool
  pub times : Double → Double → Double
  pub round : Double → Double
  pub less : Double → Double → Bool
  pub of_int : ℤ → Double
  -- static_cast<int64_t>
  pub to_int64 : Double → ℤ

-- A value of the library. `none` stands for a thrown exception.
pub record JsonLib (F : Floats) : Type 1 where
  pub Json : Type 0
  pub parse : Text → Option Json
  pub dump : Json → Option Text
  -- The member of an object; `none` for a missing key and for what is no object. So `at` throws and
  -- `contains` is false exactly where it is `none`.
  pub find : Text → Json → Option Json
  pub is_null : Json → Bool
  pub is_string : Json → Bool
  pub is_boolean : Json → Bool
  pub is_number : Json → Bool
  pub is_number_integer : Json → Bool
  pub is_number_unsigned : Json → Bool
  pub get_text : Json → Option Text
  pub get_bool : Json → Option Bool
  pub get_int64 : Json → Option ℤ
  pub get_uint64 : Json → Option ℕ
  pub get_double : Json → Option (F.Double)
  -- get<int>, as the seat numbers use it
  pub get_int : Json → Option ℤ
  pub get_items : Json → Option (List Json)
  pub object : List (Text × Json) → Json
  pub array : List Json → Json
  pub string : Text → Json
  pub boolean : Bool → Json
  -- an int64_t
  pub integer : ℤ → Json

-- The value of a key in an initializer list.
unfoldable pub member {ℓ} : {A : Type ℓ} → Text → List (Text × A) → Option A
member k [] = none
member k ((j, v) ∷ fs) = if text_eq j k then some v else member k fs

-- The library's documentation of the values that the program builds: reading one gives back what it
-- was built from.
pub record JsonLaws {F : Floats} (L : JsonLib F) : Type 0 where
  pub find-object : (k : Text) (fs : List (Text × L.Json)) → L.find k (L.object fs) ≡ member k fs
  pub get_text-string : (t : Text) → L.get_text (L.string t) ≡ some t
  pub is_string-string : (t : Text) → L.is_string (L.string t) ≡ true
  pub is_null-string : (t : Text) → L.is_null (L.string t) ≡ false
  pub get_bool-boolean : (b : Bool) → L.get_bool (L.boolean b) ≡ some b
  pub get_int64-integer : (n : ℤ) → IsInt64 n → L.get_int64 (L.integer n) ≡ some n
  pub is_number_integer-integer : (n : ℤ) → L.is_number_integer (L.integer n) ≡ true
  pub is_null-integer : (n : ℤ) → L.is_null (L.integer n) ≡ false
  pub get_int-integer : (n : ℤ) → IsInt32 n → L.get_int (L.integer n) ≡ some n
  pub get_items-array : (vs : List L.Json) → L.get_items (L.array vs) ≡ some vs
  pub is_null-array : (vs : List L.Json) → L.is_null (L.array vs) ≡ false
  pub is_number-integer : (n : ℤ) → L.is_number (L.integer n) ≡ true
  pub get_uint64-integer : (n : ℕ) → n < 2 ^ 63 → L.get_uint64 (L.integer (pos n)) ≡ some n
  pub is_boolean-boolean : (b : Bool) → L.is_boolean (L.boolean b) ≡ true

-- The library's documentation of the values that it writes out without loss: those that are built of
-- texts, Booleans and integers. Such a value is what its text is parsed to.
pub record TextLaws {F : Floats} (L : JsonLib F) : Type 1 where
  pub Plain : L.Json → Type 0
  pub Plain-string : (t : Text) → Plain (L.string t)
  pub Plain-boolean : (b : Bool) → Plain (L.boolean b)
  pub Plain-integer : (n : ℤ) → IsInt64 n → Plain (L.integer n)
  pub Plain-object : (fs : List (Text × L.Json)) → All (λ f. Plain f.1) fs → Plain (L.object fs)
  pub Plain-array : (vs : List L.Json) → All Plain vs → Plain (L.array vs)
  pub parse-dump : (j : L.Json) (t : Text) → Plain j → L.dump j ≡ some t → L.parse t ≡ some j
