-- ===== src/Json.antt =====
-- The values that `json.loads` gives to the sources, and the conversions that gpu_watch/processes.py
-- and server.py make of them: `str(value or "")`, `int(value)`, `float(value)`, `value.get(key)` and
-- `values[:n]`.
--
-- A float is the text that `repr` gives it, which `float` reads back as the same number. The keys of
-- an object are all different, as those of a `dict` are.
use gpu_watch.Prelude.{
  ℕ, zero, suc, Bool, true, false, not, ◌||◌, Option, none, some, List, [], ◌∷◌, String, str_eq,
  if◌then◌else◌,
}
use gpu_watch.Prelude.Signed.{ℤ, pos}

mutual
  pub data Json : Type 0 where
    null : Json
    bool : Bool → Json
    int : ℤ → Json
    float : String → Json
    str : String → Json
    array : Items → Json
    object : Fields → Json

  pub data Items : Type 0 where
    nil : Items
    cons : Json → Items → Items

  pub data Fields : Type 0 where
    end : Fields
    field : String → Json → Fields → Fields

-- A float as `int` and `math.isfinite` see it: its integer part, or an infinity or no number.
pub data Number : Type 0 where
  finite : ℤ → Number
  infinite : Number

-- What is used of Python's built-in types; `none` is a ValueError or an OverflowError.
pub record Python : Type 0 where
  -- `int(text)`
  pub read_int : String → Option ℤ
  -- `float(text)`
  pub read_float : String → Option Number
  -- `float(n)`
  pub float_of : ℤ → Option Number
  -- `str(n)`
  pub show_int : ℤ → String
  -- `str(value)` of a list or a dict
  pub show : Json → String

-- `d.get(key)` of the fields of an object, where a key that is missing is told apart
unfoldable pub find_field : String → Fields → Option Json
find_field key end = none
find_field key (field name value fields) =
    if str_eq name key then some value else find_field key fields

abbrev pub value_or_null : Option Json → Json
value_or_null none = null
value_or_null (some value) = value

-- `d.get(key)`
unfoldable pub get : String → Fields → Json
unfolding find_field
get key fields = value_or_null (find_field key fields)

-- `list(values)`
unfoldable pub items_of : Items → List Json
items_of nil = []
items_of (cons value values) = value ∷ items_of values

-- `values[:n]`
unfoldable pub take_items : ℕ → List Json → List Json
take_items zero values = []
take_items (suc n) [] = []
take_items (suc n) (value ∷ values) = value ∷ take_items n values

-- `bool(value)`
abbrev pub is_truthy : Json → Bool
is_truthy null = false
is_truthy (bool b) = b
is_truthy (int (pos zero)) = false
is_truthy (int z) = true
is_truthy (float s) = not (str_eq s "0.0" || str_eq s "-0.0")
is_truthy (str s) = not (str_eq s "")
is_truthy (array nil) = false
is_truthy (array (cons value values)) = true
is_truthy (object end) = false
is_truthy (object (field name value fields)) = true

module _ (py : Python) where
  -- `str(value)`
  unfoldable pub str_of : Json → String
  str_of null = "None"
  str_of (bool b) = if b then "True" else "False"
  str_of (int z) = py.show_int z
  str_of (float s) = s
  str_of (str s) = s
  str_of (array values) = py.show (array values)
  str_of (object fields) = py.show (object fields)

  -- `str(value or "")`
  unfoldable pub text_of : Json → String
  unfolding str_of
  text_of value = if is_truthy value then str_of value else ""

  abbrev pub truncated : Option Number → Option ℤ
  truncated (some (finite z)) = some z
  truncated (some infinite) = none
  truncated none = none

  -- `float(value)`; `none` is a TypeError too
  unfoldable pub number_of : Json → Option Number
  number_of null = none
  number_of (bool b) = some (finite (pos (if b then 1 else 0)))
  number_of (int z) = py.float_of z
  number_of (float s) = py.read_float s
  number_of (str s) = py.read_float s
  number_of (array values) = none
  number_of (object fields) = none

  -- `int(value)`, likewise
  unfoldable pub int_of : Json → Option ℤ
  int_of null = none
  int_of (bool b) = some (pos (if b then 1 else 0))
  int_of (int z) = some z
  int_of (float s) = truncated (py.read_float s)
  int_of (str s) = py.read_int s
  int_of (array values) = none
  int_of (object fields) = none
