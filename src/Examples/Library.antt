-- ===== src/Examples/Library.antt =====
-- An instance of the interface of the JSON library, with its laws.
use cppsim.Prelude.{
  ℕ, ◌≡◌, refl, ap, Bool, true, false, List, [], ◌∷◌, Option, none, some, Text, codes, ℤ, pos,
  negsuc, text_eq, if◌then◌else◌, ltb, pos_part, ◌*◌, ◌/◌, ◌+◌,
}
use cppsim.Json.{Floats, JsonLib, JsonLaws, member}

mutual
  pub data Tree : Type 0 where
    null : Tree
    string : Text → Tree
    boolean : Bool → Tree
    integer : ℤ → Tree
    object : Fields → Tree
    array : Fields → Tree

  pub data Fields : Type 0 where
    end : Fields
    field : Text → Tree → Fields → Fields

abbrev fields_of : List (Text × Tree) → Fields
fields_of [] = end
fields_of ((k, v) ∷ fs) = field k v (fields_of fs)

unfoldable pub find_field : Text → Fields → Option Tree
find_field k end = none
find_field k (field j v fs) = if text_eq j k then some v else find_field k fs

abbrev elements_of : List Tree → Fields
elements_of [] = end
elements_of (v ∷ vs) = field [] v (elements_of vs)

abbrev elements : Fields → List Tree
elements end = []
elements (field k v fs) = v ∷ elements fs

-- Doubles that are not negative and have two decimals, as numbers of hundredths.
abbrev pub hundredths : Floats
hundredths = record {
  Double = ℕ;
  is_finite = λ _. true;
  times = λ a b. a * b / 100;
  round = λ a. (a + 50) / 100 * 100;
  less = ltb;
  of_int = λ a. 100 * pos_part a;
  to_int64 = λ a. pos (a / 100);
}

abbrev envelope : Text → List (Text × Tree) → Tree
envelope type payload = object (
    fields_of (
      (codes "message_type", string type)
      ∷ (codes "protocol_version", string (codes "v1.0"))
      ∷ (codes "payload", object (fields_of payload))
      ∷ []))

-- The texts that it parses stand for messages and files.
abbrev parsed : Text → Option Tree
parsed t =
    if text_eq t (codes "hello")
    then some
        (envelope (codes "HANDSHAKE") ((codes "protocol_version", string (codes "v1.0")) ∷ []))
    else if text_eq t (codes "tuned")
    then some (object (fields_of ((codes "max_backoff", integer (pos 60)) ∷ [])))
    else none

abbrev find_in : Text → Tree → Option Tree
find_in k (object fs) = find_field k fs
find_in k null = none
find_in k (string t) = none
find_in k (boolean b) = none
find_in k (integer n) = none
find_in k (array fs) = none

abbrev as_text : Tree → Option Text
as_text (string t) = some t
as_text null = none
as_text (object fs) = none
as_text (boolean b) = none
as_text (integer n) = none
as_text (array fs) = none

abbrev as_bool : Tree → Option Bool
as_bool (boolean b) = some b
as_bool null = none
as_bool (object fs) = none
as_bool (string t) = none
as_bool (integer n) = none
as_bool (array fs) = none

abbrev as_int : Tree → Option ℤ
as_int (integer n) = some n
as_int null = none
as_int (object fs) = none
as_int (string t) = none
as_int (boolean b) = none
as_int (array fs) = none

abbrev as_unsigned : Tree → Option ℕ
as_unsigned v = elim (as_int v) [ none ↦ none | some (pos n) ↦ some n | some (negsuc n) ↦ none ]

abbrev as_items : Tree → Option (List Tree)
as_items (array fs) = some (elements fs)
as_items null = none
as_items (object fs) = none
as_items (string t) = none
as_items (boolean b) = none
as_items (integer n) = none

abbrev as_double : Tree → Option ℕ
as_double v = elim (as_int v) [ none ↦ none | some n ↦ some (100 * pos_part n) ]

abbrev has : {A : Type 0} → Option A → Bool
has none = false
has (some a) = true

abbrev is_nothing : Tree → Bool
is_nothing null = true
is_nothing (object fs) = false
is_nothing (string t) = false
is_nothing (boolean b) = false
is_nothing (integer n) = false
is_nothing (array fs) = false

-- It writes every value as the same text.
abbrev pub trees : JsonLib hundredths
trees = record {
  Json = Tree;
  parse = parsed;
  dump = λ j. some (codes "{}");
  find = find_in;
  is_null = is_nothing;
  is_string = λ j. has (as_text j);
  is_boolean = λ j. has (as_bool j);
  is_number = λ j. has (as_int j);
  is_number_integer = λ j. has (as_int j);
  is_number_unsigned = λ j. has (as_unsigned j);
  get_text = as_text;
  get_bool = as_bool;
  get_int64 = as_int;
  get_uint64 = as_unsigned;
  get_double = as_double;
  get_int = as_int;
  get_items = as_items;
  object = λ fs. object (fields_of fs);
  array = λ vs. array (elements_of vs);
  string = string;
  boolean = boolean;
  integer = integer;
}

pub find_field-member :
    (k : Text) (fs : List (Text × Tree)) → find_field k (fields_of fs) ≡ member k fs
unfolding find_field member
find_field-member k [] = refl
find_field-member k ((j, v) ∷ fs) = rw (find_field-member k fs) refl

pub elements-elements_of : (vs : List Tree) → elements (elements_of vs) ≡ vs
elements-elements_of [] = refl
elements-elements_of (v ∷ vs) = ap (λ ws. v ∷ ws) (elements-elements_of vs)

abbrev pub trees_laws : JsonLaws trees
trees_laws = record {
  find-object = find_field-member;
  get_text-string = λ t. refl;
  is_string-string = λ t. refl;
  is_null-string = λ t. refl;
  get_bool-boolean = λ b. refl;
  get_int64-integer = λ n h. refl;
  is_number_integer-integer = λ n. refl;
  is_null-integer = λ n. refl;
  get_int-integer = λ n h. refl;
  get_items-array = λ vs. ap some (elements-elements_of vs);
  is_null-array = λ vs. refl;
  is_number-integer = λ n. refl;
  get_uint64-integer = λ n h. refl;
  is_boolean-boolean = λ b. refl;
}
