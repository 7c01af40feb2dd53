-- ===== src/Js.antt =====
-- JavaScript values that cross a message port or come out of `JSON.parse`, and the tests that
-- the sources make on them. Functions, symbols, bigints and cycles are not values of the model.
pub mod Laws
use clawsembly_kernel.Prelude.{
  ℕ, String, Bool, true, false, Option, none, some, List, [], ◌∷◌, if◌then◌else◌, ◌==◌, nat_eq,
  string_eq,
}

-- `num` is a number that is a natural number; any other number is told apart by an index.
-- `arr_with` is an array with its elements and its further properties, which survive a message port.
mutual
  pub data Js : Type 0 where
    undefined null : Js
    bool : Bool → Js
    num other_num : ℕ → Js
    str : String → Js
    arr_with : Elements → Fields → Js
    obj : Fields → Js

  pub data Elements : Type 0 where
    nil : Elements
    cons : Js → Elements → Elements

  pub data Fields : Type 0 where
    end : Fields
    field : String → Js → Fields → Fields

-- An array without properties of its own but its elements.
abbrev pub arr : Elements → Js
arr vs = arr_with vs end

abbrev pub elements : Elements → List Js
elements nil = []
elements (cons v vs) = v ∷ elements vs

unfoldable pub field_of : String → Fields → Option Js
field_of k end = none
field_of k (field j v fs) = if j == k then some v else field_of k fs

unfoldable pub put_field : String → Js → Fields → Fields
put_field k v end = field k v end
put_field k v (field j w fs) = if j == k then field j v fs else field j w (put_field k v fs)

abbrev pub or_undefined : Option Js → Js
or_undefined none = undefined
or_undefined (some v) = v

-- `value.key`; where a source may read a property of `null`, which throws, its model says so.
unfoldable pub property : Js → String → Js
property (obj fs) k = or_undefined (field_of k fs)
property (arr_with vs fs) k = or_undefined (field_of k fs)
property _ k = undefined

-- `Object.hasOwn(value, key)`
unfoldable pub has_own : Js → String → Bool
has_own (obj fs) k = elim (field_of k fs) [ none ↦ false | some v ↦ true ]
has_own (arr_with vs fs) k = elim (field_of k fs) [ none ↦ false | some v ↦ true ]
has_own _ k = false

-- `value !== null && typeof value === "object" && !Array.isArray(value)`
abbrev pub is_record : Js → Bool
is_record (obj fs) = true
is_record _ = false

abbrev pub is_array : Js → Bool
is_array (arr_with vs fs) = true
is_array _ = false

-- The elements of an array; the sources ask `Array.isArray` first.
abbrev pub items : Js → List Js
items (arr_with vs fs) = elements vs
items _ = []

-- `typeof value === "string"`, with the string.
abbrev pub as_string : Js → Option String
as_string (str s) = some s
as_string _ = none

abbrev pub is_undefined : Js → Bool
is_undefined undefined = true
is_undefined _ = false

-- `value === "text"`, `value === 3`, `value === false`
abbrev pub is_text : String → Js → Bool
is_text t (str s) = s == t
is_text t _ = false

abbrev pub is_num : ℕ → Js → Bool
is_num n (num m) = m == n
is_num n _ = false

abbrev pub is_true : Js → Bool
is_true (bool true) = true
is_true _ = false

abbrev pub is_false : Js → Bool
is_false (bool false) = true
is_false _ = false
