-- ===== src/Objects/Json.antt =====
-- The values of the `json` module that objects are written as, and `dumps(…, sort_keys=True)` as far
-- as the order of keys goes. A text is an abstract type.
use Prim.Native.Nat.{Ordering}
use Prim.Native.String.{compare}
use dit.Prelude.{
  ℕ, ◌≡◌, String, Bool, Option, none, some, ◌==◌, Result, ok, raise, require, key_error, type_error,
  if◌then◌else◌,
}

mutual
  pub data Json : Type 0 where
    null : Json
    num : ℕ → Json
    str : String → Json
    arr : Items → Json
    obj : Fields → Json

  pub data Items : Type 0 where
    nil : Items
    cons : Json → Items → Items

  pub data Fields : Type 0 where
    end : Fields
    field : String → Json → Fields → Fields

-- Python's `<=` on texts: by code points.
abbrev pub str_le : String → String → Bool
str_le s t = elim (compare s t) [ Ordering.gt ↦ Bool.false | _ ↦ Bool.true ]

unfoldable pub insert_field : String → Json → Fields → Fields
insert_field k v end = field k v end
insert_field k v (field j w fs) =
    if str_le k j then field k v (field j w fs) else field j w (insert_field k v fs)

unfoldable mutual
  pub sort_keys : Json → Json
  sort_keys null = null
  sort_keys (num n) = num n
  sort_keys (str s) = str s
  sort_keys (arr xs) = arr (sort_items xs)
  sort_keys (obj fs) = obj (sort_fields fs)

  pub sort_items : Items → Items
  sort_items nil = nil
  sort_items (cons x xs) = cons (sort_keys x) (sort_items xs)

  pub sort_fields : Fields → Fields
  sort_fields end = end
  sort_fields (field k v fs) = insert_field k (sort_keys v) (sort_fields fs)

unfoldable pub find_field : Fields → String → Option Json
find_field end k = none
find_field (field j v fs) k = if j == k then some v else find_field fs k

-- `j[k]`
unfoldable pub item : Json → String → Result Json
unfolding find_field
item (obj fs) k = require key_error (find_field fs k)
item _ k = raise type_error

abbrev pub or_null : Option Json → Json
or_null none = null
or_null (some v) = v

-- `j.get(k)`
unfoldable pub get : Json → String → Result Json
unfolding find_field
get (obj fs) k = ok (or_null (find_field fs k))
get _ k = raise type_error

-- The value of a field that the data class declares as a text, an optional text, a number or a list.
-- Python does not check these types; other values are outside of the model and raise here.
unfoldable pub as_str : Json → Result String
as_str (str s) = ok s
as_str _ = raise type_error

unfoldable pub as_opt_str : Json → Result (Option String)
as_opt_str null = ok none
as_opt_str (str s) = ok (some s)
as_opt_str _ = raise type_error

unfoldable pub as_num : Json → Result ℕ
as_num (num n) = ok n
as_num _ = raise type_error

unfoldable pub as_items : Json → Result Items
as_items (arr xs) = ok xs
as_items _ = raise type_error

-- The texts of JSON values: `json.dumps` and `json.loads` of the standard library.
pub record JsonText : Type 1 where
  pub Text : Type 0
  pub dumps : Json → Text
  pub loads : Text → Result Json

-- `json.loads` gives back the value that `json.dumps` wrote.
abbrev pub ReadsBack : JsonText → Json → Type 0
ReadsBack t j = t.loads (t.dumps j) ≡ ok j
