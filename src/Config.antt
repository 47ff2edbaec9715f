-- ===== src/Config.antt =====
-- core/protocol/config.go: the values of a decoded configuration, and their copies. Its child modules
-- are about core/sessionapi/config.go.
pub mod Clone
pub mod Decode
pub mod Outline
pub mod Parser
use text.Mathlib.Text.{◌==◌ as str_eq}
use dobby_vpn.Common.{ℕ, Text, String, Bool, List, [], ◌∷◌, Option, none, some, if◌then◌else◌}

-- An int64 by its sign and its absolute value.
pub record Integer : Type 0 where
  pub negative : Bool
  pub size : ℕ

-- A value of a table; a table's keys are in the order of some walk over the Go map. `decimal` is a
-- float64, by what int64 makes of it, and `other` a value of another type, by its name.
mutual
  pub data Value : Type 0 where
    string : Text → Value
    integer decimal : Integer → Value
    boolean : Bool → Value
    other : String → Value
    table : Fields → Value
    items : Items → Value
    tables : Tables → Value
    texts : List Text → Value

  pub data Fields : Type 0 where
    no_field : Fields
    field : String → Value → Fields → Fields

  pub data Items : Type 0 where
    no_item : Items
    item : Value → Items → Items

  pub data Tables : Type 0 where
    no_table : Tables
    one_table : Fields → Tables → Tables

unfoldable pub get : String → Fields → Option Value
get key no_field = none
get key (field k v m) = let rest = get key m in if str_eq k key then some v else rest

unfoldable pub is_empty_fields : Fields → Bool
is_empty_fields no_field = Bool.true
is_empty_fields (field k v m) = Bool.false

abbrev pub text_items : List Text → Items
text_items [] = no_item
text_items (t ∷ ts) = item (string t) (text_items ts)

-- cloneValue and CloneFields.
unfoldable mutual
  pub clone_value : Value → Value
  clone_value (string t) = string t
  clone_value (integer n) = integer n
  clone_value (decimal n) = decimal n
  clone_value (boolean b) = boolean b
  clone_value (other t) = other t
  clone_value (table m) = table (clone_fields m)
  clone_value (items l) = items (clone_items l)
  clone_value (tables l) = items (clone_tables l)
  clone_value (texts l) = items (text_items l)

  pub clone_fields : Fields → Fields
  clone_fields no_field = no_field
  clone_fields (field k v m) = field k (clone_value v) (clone_fields m)

  pub clone_items : Items → Items
  clone_items no_item = no_item
  clone_items (item v l) = item (clone_value v) (clone_items l)

  pub clone_tables : Tables → Items
  clone_tables no_table = no_item
  clone_tables (one_table m l) = item (table (clone_fields m)) (clone_tables l)
