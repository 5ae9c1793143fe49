-- ===== src/Json.antt =====
-- The values of Python's `json` module. A number with a fraction or an exponent is kept as it is
-- written, so it equals no other number here. An object is its entries in order.
use autonomous_llm_bot.Prelude.{
  ℕ, String, ◌≡◌, refl, ap, ◌∙◌, subst, inl, inr, Bool, true, false, not, Option, none, some, arith,
  leb, if◌then◌else◌, ◌==◌, nat_eq, string_eq, Bool-cases, Option-cases,
}

mutual
  pub data Value : Type 0 where
    null : Value
    boolean : Bool → Value
    number : ℕ → Value
    negative : ℕ → Value
    real : String → Value
    text : String → Value
    array : Values → Value
    object : Fields → Value

  pub data Values : Type 0 where
    no_values : Values
    item : Value → Values → Values

  pub data Fields : Type 0 where
    no_fields : Fields
    field : String → Value → Fields → Fields

-- fields.get(key)
unfoldable pub get : String → Fields → Option Value
get key no_fields = none
get key (field k v rest) = if k == key then some v else get key rest

-- fields, without the entry that pop(key, None) takes out
unfoldable pub pop : String → Fields → Fields
pop key no_fields = no_fields
pop key (field k v rest) = if k == key then rest else field k v (pop key rest)

-- fields[key] = v: an entry keeps its place, and a new one comes last
unfoldable pub set : String → Value → Fields → Fields
set key v no_fields = field key v no_fields
set key v (field k w rest) = if k == key then field k v rest else field k w (set key v rest)

abbrev pub of_optional : Option String → Value
of_optional none = null
of_optional (some s) = text s

-- bool(value); a number with a fraction counts as true
unfoldable pub truthy : Value → Bool
truthy null = false
truthy (boolean b) = b
truthy (number n) = not (n == 0)
truthy (negative n) = true
truthy (real s) = true
truthy (text s) = not (s == "")
truthy (array no_values) = false
truthy (array (item v vs)) = true
truthy (object no_fields) = false
truthy (object (field k v rest)) = true

-- bool(fields.get(key))
abbrev pub is_set : Option Value → Bool
is_set none = false
is_set (some v) = truthy v

-- The text that a value is, if it is one: `isinstance(v, str)`.
unfoldable pub text_of : Option Value → Option String
text_of none = none
text_of (some null) = none
text_of (some (boolean b)) = none
text_of (some (number n)) = none
text_of (some (negative n)) = none
text_of (some (real s)) = none
text_of (some (text s)) = some s
text_of (some (array vs)) = none
text_of (some (object fs)) = none

pub text_of-eq : (v : Option Value) (s : String) → text_of v ≡ some s → v ≡ some (text s)
unfolding text_of
text_of-eq none s h = absurd (cc)
text_of-eq (some null) s h = absurd (cc)
text_of-eq (some (boolean b)) s h = absurd (cc)
text_of-eq (some (number n)) s h = absurd (cc)
text_of-eq (some (negative n)) s h = absurd (cc)
text_of-eq (some (real r)) s h = absurd (cc)
text_of-eq (some (text r)) s h = cc
text_of-eq (some (array vs)) s h = absurd (cc)
text_of-eq (some (object fs)) s h = absurd (cc)

-- The entries of a value, if it is an object: `isinstance(v, dict)`.
unfoldable pub fields_of : Option Value → Option Fields
fields_of none = none
fields_of (some null) = none
fields_of (some (boolean b)) = none
fields_of (some (number n)) = none
fields_of (some (negative n)) = none
fields_of (some (real s)) = none
fields_of (some (text s)) = none
fields_of (some (array vs)) = none
fields_of (some (object fs)) = some fs

-- isinstance(v, str) and v
abbrev pub nonempty_text : Option Value → Option String
nonempty_text v = elim (text_of v) [ some s ↦ if s == "" then none else some s | none ↦ none ]

pub nonempty_text-eq :
    (v : Option Value) (s : String)
    → nonempty_text v ≡ some s
    → (v ≡ some (text s)) × ((s == "") ≡ false)
nonempty_text-eq v s h = elim (Option-cases (text_of v)) [
  | inl other ↦ absurd (ground arith)
  | inr (r, found) ↦ elim (Bool-cases (r == "")) [
    | inl e ↦ absurd (ground arith)
    | inr n ↦
        let same : r ≡ s = ground arith in
        (text_of-eq v s (found ∙ ap some same), subst (λ (x : String). (x == "") ≡ false) same n)
  ]
]

pub nonempty_text-text : (s : String) → (s == "") ≡ false → nonempty_text (some (text s)) ≡ some s
unfolding text_of
nonempty_text-text s n = rw n refl

-- An entry that is a whole number, and no truth value.
unfoldable pub natural_of : Option Value → Option ℕ
natural_of none = none
natural_of (some null) = none
natural_of (some (boolean b)) = none
natural_of (some (number n)) = some n
natural_of (some (negative n)) = none
natural_of (some (real s)) = none
natural_of (some (text s)) = none
natural_of (some (array vs)) = none
natural_of (some (object fs)) = none

abbrev pub positive_of : Option Value → Option ℕ
positive_of v = elim (natural_of v) [ some n ↦ if leb 1 n then some n else none | none ↦ none ]

-- The elements of a value, if it is a list.
unfoldable pub elements : Option Value → Values
elements (some (array vs)) = vs
elements _ = no_values
