-- ===== src/Rpc/Json.antt =====
-- The JSON values of serde_json that pool/src/rpc.rs builds and takes apart.
use mining_pool.Base.{
  ℕ, Bool, true, false, ◌||◌, ◌&&◌, Option, none, some, List, [], ◌∷◌, list_eq, if◌then◌else◌,
}
use mining_pool.Base.Int.{ℤ, pos, negsuc}
use mining_pool.Bitcoin.{Bytes}

-- A number is an integer in the range of i64 or u64, or another one, as its text.
mutual
  pub data Json : Type 0 where
    null : Json
    boolean : Bool → Json
    integer : ℤ → Json
    decimal : Bytes → Json
    text : Bytes → Json
    array : Items → Json
    object : Fields → Json

  pub data Items : Type 0 where
    nil : Items
    item : Json → Items → Items

  pub data Fields : Type 0 where
    end : Fields
    field : Bytes → Json → Fields → Fields

-- `Value::get` with a key.
get_field : Bytes → Fields → Option Json
get_field key end = none
get_field key (field name value fields) =
    let rest = get_field key fields in if list_eq name key then some value else rest

unfoldable pub get : Bytes → Json → Option Json
unfolding get_field
get key (object fields) = get_field key fields
get key null = none
get key (boolean b) = none
get key (integer n) = none
get key (decimal n) = none
get key (text t) = none
get key (array items) = none

unfoldable pub is_null : Json → Bool
is_null null = true
is_null (boolean b) = false
is_null (integer n) = false
is_null (decimal n) = false
is_null (text t) = false
is_null (array items) = false
is_null (object fields) = false

unfoldable pub as_str : Json → Option Bytes
as_str (text t) = some t
as_str null = none
as_str (boolean b) = none
as_str (integer n) = none
as_str (decimal n) = none
as_str (array items) = none
as_str (object fields) = none

unfoldable pub as_u64 : Json → Option ℕ
as_u64 (integer (pos n)) = some n
as_u64 (integer (negsuc n)) = none
as_u64 null = none
as_u64 (boolean b) = none
as_u64 (decimal n) = none
as_u64 (text t) = none
as_u64 (array items) = none
as_u64 (object fields) = none

-- `from_value` into a list of texts.
texts_of : Items → Option (List Bytes)
texts_of nil = some []
texts_of (item (text t) items) = elim (texts_of items) [ none ↦ none | some ts ↦ some (t ∷ ts) ]
texts_of (item null items) = none
texts_of (item (boolean b) items) = none
texts_of (item (integer n) items) = none
texts_of (item (decimal n) items) = none
texts_of (item (array items') items) = none
texts_of (item (object fields) items) = none

unfoldable pub text_list : Json → Option (List Bytes)
unfolding texts_of
text_list (array items) = texts_of items
text_list null = none
text_list (boolean b) = none
text_list (integer n) = none
text_list (decimal n) = none
text_list (text t) = none
text_list (object fields) = none

-- `str::starts_with` and `str::contains`.
unfoldable pub starts_with : Bytes → Bytes → Bool
starts_with [] ys = true
starts_with (x ∷ xs) [] = false
starts_with (x ∷ xs) (y ∷ ys) = list_eq (x ∷ []) (y ∷ []) && starts_with xs ys

unfoldable pub contains : Bytes → Bytes → Bool
unfolding starts_with
contains [] part = starts_with part []
contains (x ∷ xs) part = starts_with part (x ∷ xs) || contains xs part
