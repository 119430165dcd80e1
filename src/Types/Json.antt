-- ===== src/Types/Json.antt =====
-- JSON documents, as `serde_json::Value` shows them to the program: its six kinds of values and the
-- accessors that the source calls. An object is a list of its entries in key order.
use mini_siem_project.Prelude.{
  ℕ, String, Bool, false, ◌&&◌, Option, none, some, List, [], ◌∷◌, ◌==◌, ltb, if◌then◌else◌, true,
}
use mini_siem_project.Prelude.Text.{str_eq}
use mini_siem_project.Prelude.Int.{ℤ, pos, negsuc}

-- A number is an unsigned or a negative integer, or a float, which stands as its bits.
pub data Number : Type 0 where
  pos_int : ℕ → Number
  neg_int : ℕ → Number
  float : ℕ → Number

mutual
  pub data Value : Type 0 where
    null : Value
    bool : Bool → Value
    number : Number → Value
    string : String → Value
    array : Items → Value
    object : Fields → Value

  pub data Items : Type 0 where
    nil : Items
    cons : Value → Items → Items

  pub data Fields : Type 0 where
    end : Fields
    field : String → Value → Fields → Fields

abbrev bool_eq : Bool → Bool → Bool
bool_eq true b = b
bool_eq false true = false
bool_eq false false = true

-- `float_eq` compares two floats by their bits.
abbrev number_eq : (ℕ → ℕ → Bool) → Number → Number → Bool
number_eq float_eq (pos_int a) (pos_int b) = a == b
number_eq float_eq (neg_int a) (neg_int b) = a == b
number_eq float_eq (float a) (float b) = float_eq a b
number_eq float_eq _ _ = false

unfoldable mutual
  pub value_eq : (ℕ → ℕ → Bool) → Value → Value → Bool
  value_eq f null null = true
  value_eq f (bool a) (bool b) = bool_eq a b
  value_eq f (number a) (number b) = number_eq f a b
  value_eq f (string a) (string b) = str_eq a b
  value_eq f (array a) (array b) = items_eq f a b
  value_eq f (object a) (object b) = fields_eq f a b
  value_eq f _ _ = false

  pub items_eq : (ℕ → ℕ → Bool) → Items → Items → Bool
  items_eq f nil nil = true
  items_eq f (cons a as') (cons b bs) = value_eq f a b && items_eq f as' bs
  items_eq f _ _ = false

  pub fields_eq : (ℕ → ℕ → Bool) → Fields → Fields → Bool
  fields_eq f end end = true
  fields_eq f (field k a as') (field j b bs) = str_eq k j && (value_eq f a b && fields_eq f as' bs)
  fields_eq f _ _ = false

abbrev pub as_str : Value → Option String
as_str (string s) = some s
as_str _ = none

abbrev pub to_list : Items → List Value
to_list nil = []
to_list (cons v vs) = v ∷ to_list vs

abbrev pub as_array : Value → Option (List Value)
as_array (array vs) = some (to_list vs)
as_array _ = none

-- An unsigned integer is an `i64` below 2^63.
abbrev pub as_i64 : Value → Option ℤ
as_i64 (number (pos_int n)) = if ltb n 9223372036854775808 then some (pos n) else none
as_i64 (number (neg_int n)) = some (negsuc n)
as_i64 _ = none

abbrev find_field : String → Fields → Option Value
find_field k end = none
find_field k (field j v fs) = if str_eq j k then some v else find_field k fs

-- `value.get(key)`: only an object has keys.
abbrev pub get : Value → String → Option Value
get (object fs) k = find_field k fs
get _ k = none

-- An integer as a number.
abbrev pub int : ℤ → Value
int (pos n) = number (pos_int n)
int (negsuc n) = number (neg_int n)

abbrev pub items : List Value → Items
items [] = nil
items (v ∷ vs) = cons v (items vs)
