-- ===== src/Prelude/Json.antt =====
-- What the program does with JSON values (`nlohmann::json`), as an interface. A reading that throws
-- is `none`.
use scope_analyser.Prelude.{
  ◌≡◌, refl, ◌∙◌, Bool, true, Option, none, some, List, [], ◌∷◌, if◌then◌else◌,
}
use scope_analyser.Prelude.Int.{ℤ}
use scope_analyser.Prelude.Text.{QString}
use scope_analyser.Prelude.Dict.{Dict, find}

pub record JsonOps (Real Json : Type 0) : Type 0 where
  pub text : QString → Json
  pub integer : ℤ → Json
  pub boolean : Bool → Json
  pub number : Real → Json
  pub array : List Json → Json
  -- an object by its fields, each key once
  pub object : Dict Json → Json
  pub parse : QString → Option Json
  pub dump : Json → QString
  pub is_object : Json → Bool
  pub is_array : Json → Bool
  -- `contains` and `operator[]`
  pub member : Json → QString → Option Json
  -- what a range-for goes through
  pub elements : Json → List Json
  -- the fields of an object, each key once
  pub items : Json → Dict Json
  -- `get` to a type
  pub as_text : Json → Option QString
  pub as_integer : Json → Option ℤ
  pub as_boolean : Json → Option Bool
  pub as_number : Json → Option Real

-- What the library documents of values that are read as they were built.
pub record JsonLaws {Real Json : Type 0} (json : JsonOps Real Json) : Type 0 where
  pub is_object-object : (fs : Dict Json) → json.is_object (json.object fs) ≡ true
  pub member-object : (fs : Dict Json) (k : QString) → json.member (json.object fs) k ≡ find k fs
  pub is_array-array : (js : List Json) → json.is_array (json.array js) ≡ true
  pub elements-array : (js : List Json) → json.elements (json.array js) ≡ js
  pub as_text-text : (t : QString) → json.as_text (json.text t) ≡ some t
  pub as_integer-integer : (n : ℤ) → json.as_integer (json.integer n) ≡ some n
  pub as_boolean-boolean : (b : Bool) → json.as_boolean (json.boolean b) ≡ some b
  pub as_number-number : (x : Real) → json.as_number (json.number x) ≡ some x

infixl 5 ◌>>=◌
abbrev pub ◌>>=◌ : {A B : Type 0} → Option A → (A → Option B) → Option B
none >>= f = none
some a >>= f = f a

module _ {Real Json : Type 0} (json : JsonOps Real Json) where
  abbrev get_or_default : {A : Type 0} → (Json → Option A) → A → Option Json → Option A
  get_or_default get d none = some d
  get_or_default get d (some j) = get j

  -- `value(key, default)`: it throws on what is no object, or a field of another type.
  unfoldable pub value : {A : Type 0} → (Json → Option A) → Json → QString → A → Option A
  value get j key d = if json.is_object j then get_or_default get d (json.member j key) else none

  module _ (laws : JsonLaws json) where
    pub value-object :
        {A : Type 0} (get : Json → Option A) (fs : Dict Json) (key : QString) (d : A) (j : Json)
        → find key fs ≡ some j
        → value get (json.object fs) key d ≡ get j
    unfolding value
    value-object get fs key d j e = rw (laws.is_object-object fs, laws.member-object fs key, e) refl

    pub value-missing :
        {A : Type 0} (get : Json → Option A) (fs : Dict Json) (key : QString) (d : A)
        → find key fs ≡ none
        → value get (json.object fs) key d ≡ some d
    unfolding value
    value-missing get fs key d e = rw (laws.is_object-object fs, laws.member-object fs key, e) refl

    -- Reading a field of a type.
    module _ (fs : Dict Json) (key : QString) where
      pub text_field :
          (d t : QString)
          → find key fs ≡ some (json.text t)
          → value json.as_text (json.object fs) key d ≡ some t
      text_field d t e = value-object _ fs key d _ e ∙ laws.as_text-text t

      pub int_field :
          (d n : ℤ)
          → find key fs ≡ some (json.integer n)
          → value json.as_integer (json.object fs) key d ≡ some n
      int_field d n e = value-object _ fs key d _ e ∙ laws.as_integer-integer n

      pub bool_field :
          (d b : Bool)
          → find key fs ≡ some (json.boolean b)
          → value json.as_boolean (json.object fs) key d ≡ some b
      bool_field d b e = value-object _ fs key d _ e ∙ laws.as_boolean-boolean b

      pub real_field :
          (d x : Real)
          → find key fs ≡ some (json.number x)
          → value json.as_number (json.object fs) key d ≡ some x
      real_field d x e = value-object _ fs key d _ e ∙ laws.as_number-number x

      -- A text that is left out where it is empty.
      abbrev pub optional : QString → Option Json
      optional [] = none
      optional (c ∷ r) = some (json.text (c ∷ r))

      pub optional_field :
          (t : QString)
          → find key fs ≡ optional t
          → value json.as_text (json.object fs) key [] ≡ some t
      optional_field [] e = value-missing _ fs key [] e
      optional_field (c ∷ r) e = text_field [] (c ∷ r) e
