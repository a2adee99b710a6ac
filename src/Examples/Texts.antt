-- ===== src/Examples/Texts.antt =====
-- Trees written out as lists of numbers and read back: an instance of the JSON library in which
-- parse and dump are inverse.
use cppsim.Prelude.{
  ℕ, zero, suc, ◌+◌, ◌≤◌, ◌≡◌, refl, ap, true, false, List, [], ◌∷◌, ◌++◌, Option, none, some, Text,
  ℤ, pos, negsuc, if◌then◌else◌, ◌==◌, length, take, drop, arith, ◌>>=◌,
}
use cppsim.Json.{JsonLib, JsonLaws, TextLaws}
use cppsim.Examples.Library.{
  Tree, null, string, boolean, integer, object, array, Fields, end, field, hundredths, trees,
  trees_laws,
}

-- A tree in front of a rest.
mutual
  pub write_tree : Tree → List ℕ → List ℕ
  write_tree null r = 0 ∷ r
  write_tree (string t) r = 1 ∷ length t ∷ (t ++ r)
  write_tree (boolean true) r = 2 ∷ r
  write_tree (boolean false) r = 3 ∷ r
  write_tree (integer (pos n)) r = 4 ∷ n ∷ r
  write_tree (integer (negsuc n)) r = 5 ∷ n ∷ r
  write_tree (object fs) r = 6 ∷ write_fields fs r
  write_tree (array fs) r = 7 ∷ write_fields fs r

  write_fields : Fields → List ℕ → List ℕ
  write_fields end r = 0 ∷ r
  write_fields (field k v fs) r = 1 ∷ length k ∷ (k ++ write_tree v (write_fields fs r))

mutual
  pub depth : Tree → ℕ
  depth null = 1
  depth (string t) = 1
  depth (boolean b) = 1
  depth (integer n) = 1
  depth (object fs) = suc (depth_fields fs)
  depth (array fs) = suc (depth_fields fs)

  depth_fields : Fields → ℕ
  depth_fields end = 1
  depth_fields (field k v fs) = suc (depth v + depth_fields fs)

read_text : List ℕ → Option (Text × List ℕ)
read_text [] = none
read_text (n ∷ r) = some (take n r, drop n r)

read_number : (ℕ → ℤ) → List ℕ → Option (Tree × List ℕ)
read_number f [] = none
read_number f (n ∷ r) = some (integer (f n), r)

mutual
  unfolding read_text read_number

  pub read_tree : ℕ → List ℕ → Option (Tree × List ℕ)
  read_tree zero ns = none
  read_tree (suc f) [] = none
  read_tree (suc f) (tag ∷ r) =
      let fields = read_fields f r in
      if tag == 0
      then some (null, r)
      else if tag == 1
      then (do (t, r') ← read_text r; some (string t, r'))
      else if tag == 2
      then some (boolean true, r)
      else if tag == 3
      then some (boolean false, r)
      else if tag == 4
      then read_number pos r
      else if tag == 5
      then read_number negsuc r
      else if tag == 6
      then (do (fs, r') ← fields; some (object fs, r'))
      else (do (fs, r') ← fields; some (array fs, r'))

  read_fields : ℕ → List ℕ → Option (Fields × List ℕ)
  read_fields zero ns = none
  read_fields (suc f) [] = none
  read_fields (suc f) (tag ∷ r) =
      let fields = do
        (k, r') ← read_text r
        (v, r'') ← read_tree f r'
        (fs, r''') ← read_fields f r''
        some (field k v fs, r''')
      in if tag == 0 then some (end, r) else fields

take-append : (t r : List ℕ) → take (length t) (t ++ r) ≡ t
take-append [] r = refl
take-append (x ∷ xs) r = ap (λ (ys : List ℕ). x ∷ ys) (take-append xs r)

drop-append : (t r : List ℕ) → drop (length t) (t ++ r) ≡ r
drop-append [] r = refl
drop-append (x ∷ xs) r = drop-append xs r

depth_pos : (j : Tree) → 1 ≤ depth j
unfolding depth
depth_pos null = omega arith
depth_pos (string t) = omega arith
depth_pos (boolean b) = omega arith
depth_pos (integer n) = omega arith
depth_pos (object fs) = omega arith
depth_pos (array fs) = omega arith

-- With enough fuel, what was written is read back, and the rest is left.
mutual
  unfolding write_tree write_fields depth depth_fields read_tree read_fields read_number

  read_tree-write_tree :
      (j : Tree) (f : ℕ) (r : List ℕ) → depth j ≤ f → read_tree f (write_tree j r) ≡ some (j, r)
  read_tree-write_tree null (suc f) r h = refl
  read_tree-write_tree (string t) (suc f) r h = rw (take-append t r, drop-append t r) refl
  read_tree-write_tree (boolean true) (suc f) r h = refl
  read_tree-write_tree (boolean false) (suc f) r h = refl
  read_tree-write_tree (integer (pos n)) (suc f) r h = refl
  read_tree-write_tree (integer (negsuc n)) (suc f) r h = refl
  read_tree-write_tree (object fs) (suc f) r h =
      rw (read_fields-write_fields fs f r (omega arith)) refl
  read_tree-write_tree (array fs) (suc f) r h =
      rw (read_fields-write_fields fs f r (omega arith)) refl
  read_tree-write_tree j zero r h = absurd (omega (arith, depth_pos j))

  read_fields-write_fields :
      (fs : Fields) (f : ℕ) (r : List ℕ)
      → depth_fields fs ≤ f
      → read_fields f (write_fields fs r) ≡ some (fs, r)
  read_fields-write_fields end (suc f) r h = refl
  read_fields-write_fields (field k v fs) (suc f) r h =
      let rest = write_tree v (write_fields fs r) in
      rw (take-append k rest, drop-append k rest)
        (rw (read_tree-write_tree v f (write_fields fs r) (omega arith))
          (rw (read_fields-write_fields fs f r (omega arith)) refl))
  read_fields-write_fields end zero r h = absurd (omega arith)
  read_fields-write_fields (field k v fs) zero r h = absurd (omega arith)

-- The text says first how much fuel it takes.
abbrev pub dump_tree : Tree → Text
dump_tree j = depth j ∷ write_tree j []

abbrev parse_tree : Text → Option Tree
parse_tree [] = none
parse_tree (f ∷ ns) = do (j, rest) ← read_tree f ns; some j

abbrev pub texts : JsonLib hundredths
texts = record trees { parse = parse_tree; dump = λ j. some (dump_tree j) }

parse_tree-dump : (j : Tree) → parse_tree (dump_tree j) ≡ some j
parse_tree-dump j = rw (read_tree-write_tree j (depth j) [] (omega arith)) refl

abbrev pub texts_laws : JsonLaws texts
texts_laws = record {
  find-object = trees_laws.find-object;
  get_text-string = trees_laws.get_text-string;
  is_string-string = trees_laws.is_string-string;
  is_null-string = trees_laws.is_null-string;
  get_bool-boolean = trees_laws.get_bool-boolean;
  get_int64-integer = trees_laws.get_int64-integer;
  is_number_integer-integer = trees_laws.is_number_integer-integer;
  is_null-integer = trees_laws.is_null-integer;
  get_int-integer = trees_laws.get_int-integer;
  get_items-array = trees_laws.get_items-array;
  is_null-array = trees_laws.is_null-array;
  is_number-integer = trees_laws.is_number-integer;
  get_uint64-integer = trees_laws.get_uint64-integer;
  is_boolean-boolean = trees_laws.is_boolean-boolean;
}

pub parse-dump_tree : (j : Tree) (t : Text) → some (dump_tree j) ≡ some t → parse_tree t ≡ some j
parse-dump_tree j t h = let e : dump_tree j ≡ t = cc in rw (← e) (parse_tree-dump j)

abbrev pub texts_plain : TextLaws texts
texts_plain = record {
  Plain = λ j. Unit {0};
  Plain-string = λ t. tt;
  Plain-boolean = λ b. tt;
  Plain-integer = λ n h. tt;
  Plain-object = λ fs h. tt;
  Plain-array = λ vs h. tt;
  parse-dump = λ j t h e. parse-dump_tree j t e;
}
