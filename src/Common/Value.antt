-- ===== src/Common/Value.antt =====
-- The values of decoded JSON, as `json.loads` gives them: the payloads of all messages. A finite
-- `float` is a whole number of units of 1e-7, the resolution of the coordinates that are sent.
use Prim.Native.Nat.{ℕ, suc}
use mathlib.Core.Bool.{Bool, true, false, not, ◌&&◌, ◌||◌}
use mathlib.Core.Option.{Option, none, some}
use mathlib.Core.List.{List, [], ◌∷◌}
use Prim.Native.String.{String}
use low_altitude_io_t_system.Common.Tests.{nat_eqb, if◌then◌else◌}
use low_altitude_io_t_system.Common.Equality.{◌==◌, string_eq}
use low_altitude_io_t_system.Common.Action.{Result, ok, err, key_error, type_error}
use low_altitude_io_t_system.Common.Int.{ℤ, pos, eqb_ℤ, is_nonzero, scale}

pub data Float : Type 0 where
  finite : ℤ → Float
  nan inf neg_inf : Float

mutual
  pub data Value : Type 0 where
    null : Value
    bool : Bool → Value
    int : ℤ → Value
    float : Float → Value
    str : String → Value
    arr : Items → Value
    obj : Fields → Value

  pub data Items : Type 0 where
    nil : Items
    cons : Value → Items → Items

  pub data Fields : Type 0 where
    end : Fields
    entry : String → Value → Fields → Fields

-- `payload.get(key)`
unfoldable pub field : String → Fields → Option Value
field k end = none
field k (entry j v rest) = if j == k then some v else field k rest

unfoldable pub has_field : String → Fields → Bool
unfolding field
has_field k fs = elim (field k fs) [ none ↦ false | some v ↦ true ]

unfoldable pub keys : Fields → List String
keys end = []
keys (entry k v rest) = k ∷ keys rest

unfoldable pub count_fields : Fields → ℕ
count_fields end = 0
count_fields (entry k v rest) = suc (count_fields rest)

-- `payload[key] = value`
unfoldable pub put_field : String → Value → Fields → Fields
put_field k v end = entry k v end
put_field k v (entry j w rest) = if j == k then entry j v rest else entry j w (put_field k v rest)

abbrev pub is_in : String → List String → Bool
is_in k [] = false
is_in k (j ∷ js) = k == j || is_in k js

-- A number's value in units of 1e-7; `True` and `False` count as 1 and 0.
abbrev pub unit : ℕ
unit = 10_000_000

abbrev pub as_number : Value → Option ℤ
as_number (bool true) = some (pos unit)
as_number (bool false) = some (pos 0)
as_number (int n) = some (scale unit n)
as_number (float (finite x)) = some x
as_number null = none
as_number (float nan) = none
as_number (float inf) = none
as_number (float neg_inf) = none
as_number (str s) = none
as_number (arr xs) = none
as_number (obj fs) = none

abbrev same_number : Option ℤ → Option ℤ → Bool
same_number (some a) (some b) = eqb_ℤ a b
same_number (some a) none = false
same_number none b = false

abbrev eq_float : Float → Value → Bool
eq_float inf (float inf) = true
eq_float neg_inf (float neg_inf) = true
eq_float x w = same_number (as_number (float x)) (as_number w)

-- Python's `==`: numbers by value whatever their class, objects whatever the order of their keys.
unfoldable mutual
  pub eq_value : Value → Value → Bool
  eq_value null null = true
  eq_value null w = false
  eq_value (bool b) w = same_number (as_number (bool b)) (as_number w)
  eq_value (int n) w = same_number (as_number (int n)) (as_number w)
  eq_value (float x) w = eq_float x w
  eq_value (str s) (str t) = s == t
  eq_value (str s) w = false
  eq_value (arr xs) (arr ys) = eq_items xs ys
  eq_value (arr xs) w = false
  eq_value (obj fs) (obj gs) = nat_eqb (count_fields fs) (count_fields gs) && eq_fields fs gs
  eq_value (obj fs) w = false

  pub eq_items : Items → Items → Bool
  eq_items nil nil = true
  eq_items nil (cons y ys) = false
  eq_items (cons x xs) nil = false
  eq_items (cons x xs) (cons y ys) = eq_value x y && eq_items xs ys

  pub eq_fields : Fields → Fields → Bool
  eq_fields end gs = true
  eq_fields (entry k v rest) gs =
      elim (field k gs) [ none ↦ false | some w ↦ eq_value v w ] && eq_fields rest gs

-- `payload[key]`, where a check before has found a text or an integer that is not negative.
abbrev pub as_str : Option Value → Result String
as_str (some (str s)) = ok s
as_str (some v) = err (type_error "not a str")
as_str none = err (key_error "missing")

abbrev pub as_nat : Option Value → Result ℕ
as_nat (some (int (pos n))) = ok n
as_nat (some v) = err (type_error "not an index")
as_nat none = err (key_error "missing")

unfoldable pub str_field : String → Fields → Result String
str_field k fs = as_str (field k fs)

unfoldable pub nat_field : String → Fields → Result ℕ
nat_field k fs = as_nat (field k fs)

-- `bool(value)`
abbrev pub truthy : Value → Bool
truthy null = false
truthy (bool b) = b
truthy (int n) = is_nonzero n
truthy (float (finite v)) = is_nonzero v
truthy (float f) = true
truthy (str t) = not (t == "")
truthy (arr nil) = false
truthy (arr (cons x xs)) = true
truthy (obj end) = false
truthy (obj (entry k v fs)) = true
