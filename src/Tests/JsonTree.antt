-- ===== src/Tests/JsonTree.antt =====
-- An instance of the interface to JSON: values as trees, and a text form that has a single
-- document.
use scope_analyser.Prelude.{
  ℕ, ◌≡◌, refl, ap, Bool, true, false, Option, none, some, List, [], ◌∷◌, if◌then◌else◌,
}
use scope_analyser.Prelude.Int.{ℤ}
use scope_analyser.Prelude.Text.{QString, eq_text}
use scope_analyser.Prelude.Dict.{Dict, find}
use scope_analyser.Prelude.Json.{JsonOps, JsonLaws}

-- Arrays end in `no_elements`, objects in `no_fields`.
pub data JsonTree : Type 0 where
  text : QString → JsonTree
  integer : ℤ → JsonTree
  boolean : Bool → JsonTree
  number : ℕ → JsonTree
  no_elements no_fields : JsonTree
  element : JsonTree → JsonTree → JsonTree
  field : QString → JsonTree → JsonTree → JsonTree

unfoldable pub array_of : List JsonTree → JsonTree
array_of [] = no_elements
array_of (j ∷ r) = element j (array_of r)

unfoldable pub elements_of : JsonTree → List JsonTree
elements_of (element j r) = j ∷ elements_of r
elements_of _ = []

unfoldable pub object_of : Dict JsonTree → JsonTree
object_of [] = no_fields
object_of ((k, j) ∷ r) = field k j (object_of r)

unfoldable pub member_of : JsonTree → QString → Option JsonTree
member_of (field j v r) k = let rest = member_of r k in if eq_text j k then some v else rest
member_of _ k = none

unfoldable pub items_of : JsonTree → Dict JsonTree
items_of (field k j r) = (k, j) ∷ items_of r
items_of _ = []

abbrev pub is_object_tree : JsonTree → Bool
is_object_tree (field _ _ _) = true
is_object_tree no_fields = true
is_object_tree _ = false

abbrev pub is_array_tree : JsonTree → Bool
is_array_tree (element _ _) = true
is_array_tree no_elements = true
is_array_tree _ = false

abbrev pub text_of : JsonTree → Option QString
text_of (text t) = some t
text_of _ = none

abbrev pub integer_of : JsonTree → Option ℤ
integer_of (integer n) = some n
integer_of _ = none

abbrev pub boolean_of : JsonTree → Option Bool
boolean_of (boolean b) = some b
boolean_of _ = none

abbrev pub number_of : JsonTree → Option ℕ
number_of (number n) = some n
number_of _ = none

-- The library where the text of any value is the one document `doc`.
abbrev pub tree_json : JsonTree → JsonOps ℕ JsonTree
tree_json doc = record {
  text = text;
  integer = integer;
  boolean = boolean;
  number = number;
  array = array_of;
  object = object_of;
  parse = λ _. some doc;
  dump = λ _. [];
  is_object = is_object_tree;
  is_array = is_array_tree;
  member = member_of;
  elements = elements_of;
  items = items_of;
  as_text = text_of;
  as_integer = integer_of;
  as_boolean = boolean_of;
  as_number = number_of;
}

is_object-object_of : (fs : Dict JsonTree) → is_object_tree (object_of fs) ≡ true
unfolding object_of
is_object-object_of [] = refl
is_object-object_of ((k, j) ∷ r) = refl

member_of-object_of : (fs : Dict JsonTree) (k : QString) → member_of (object_of fs) k ≡ find k fs
unfolding object_of member_of find
member_of-object_of [] k = refl
member_of-object_of ((j, v) ∷ r) k = rw (member_of-object_of r k) refl

is_array-array_of : (js : List JsonTree) → is_array_tree (array_of js) ≡ true
unfolding array_of
is_array-array_of [] = refl
is_array-array_of (j ∷ r) = refl

elements_of-array_of : (js : List JsonTree) → elements_of (array_of js) ≡ js
unfolding array_of elements_of
elements_of-array_of [] = refl
elements_of-array_of (j ∷ r) = ap (j ∷◌) (elements_of-array_of r)

pub tree_laws : (doc : JsonTree) → JsonLaws (tree_json doc)
tree_laws doc = record {
  is_object-object = is_object-object_of;
  member-object = member_of-object_of;
  is_array-array = is_array-array_of;
  elements-array = elements_of-array_of;
  as_text-text = λ t. refl;
  as_integer-integer = λ n. refl;
  as_boolean-boolean = λ b. refl;
  as_number-number = λ x. refl;
}
