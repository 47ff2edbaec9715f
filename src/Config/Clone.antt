-- ===== src/Config/Clone.antt =====
-- A copy of a protocol's table has the shape that the engines read, and says the same.
use dobby_vpn.Common.{
  Text, String, Bool, true, false, List, [], ◌∷◌, ◌≡◌, refl, arith, ap, ◌∙◌, if◌then◌else◌,
}
use mathlib.Core.Option
use dobby_vpn.Config.{
  Value, string, integer, decimal, boolean, other, table, items, tables, texts, Fields, no_field,
  field, Items, no_item, item, Tables, no_table, one_table, get, clone_value, clone_fields,
  clone_items, clone_tables, text_items,
}

-- Whether every array of a value is a list of any values.
unfoldable mutual
  pub is_plain : Value → Bool
  is_plain (string t) = true
  is_plain (integer n) = true
  is_plain (decimal n) = true
  is_plain (boolean b) = true
  is_plain (other t) = true
  is_plain (table m) = is_plain_fields m
  is_plain (items l) = is_plain_items l
  is_plain (tables l) = false
  is_plain (texts l) = false

  pub is_plain_fields : Fields → Bool
  is_plain_fields no_field = true
  is_plain_fields (field k v m) = let rest = is_plain_fields m in if is_plain v then rest else false

  pub is_plain_items : Items → Bool
  is_plain_items no_item = true
  is_plain_items (item v l) = let rest = is_plain_items l in if is_plain v then rest else false

-- What a value says, read from its start to its end; arrays of all kinds read the same.
pub data Token : Type 0 where
  begins_table begins_list ends : Token
  names : String → Token
  says : Value → Token

abbrev tokens_of_texts : List Text → List Token → List Token
tokens_of_texts [] rest = rest
tokens_of_texts (t ∷ ts) rest = says (string t) ∷ tokens_of_texts ts rest

unfoldable mutual
  pub tokens : Value → List Token → List Token
  tokens (string t) rest = says (string t) ∷ rest
  tokens (integer n) rest = says (integer n) ∷ rest
  tokens (decimal n) rest = says (decimal n) ∷ rest
  tokens (boolean b) rest = says (boolean b) ∷ rest
  tokens (other t) rest = says (other t) ∷ rest
  tokens (table m) rest = begins_table ∷ tokens_of_fields m (ends ∷ rest)
  tokens (items l) rest = begins_list ∷ tokens_of_items l (ends ∷ rest)
  tokens (tables l) rest = begins_list ∷ tokens_of_tables l (ends ∷ rest)
  tokens (texts l) rest = begins_list ∷ tokens_of_texts l (ends ∷ rest)

  pub tokens_of_fields : Fields → List Token → List Token
  tokens_of_fields no_field rest = rest
  tokens_of_fields (field k v m) rest = names k ∷ tokens v (tokens_of_fields m rest)

  pub tokens_of_items : Items → List Token → List Token
  tokens_of_items no_item rest = rest
  tokens_of_items (item v l) rest = tokens v (tokens_of_items l rest)

  pub tokens_of_tables : Tables → List Token → List Token
  tokens_of_tables no_table rest = rest
  tokens_of_tables (one_table m l) rest =
      begins_table ∷ tokens_of_fields m (ends ∷ tokens_of_tables l rest)

text_items-tokens :
    (l : List Text) (rest : List Token)
    → tokens_of_items (text_items l) rest ≡ tokens_of_texts l rest
unfolding tokens_of_items tokens
text_items-tokens [] rest = refl
text_items-tokens (t ∷ ts) rest = ap (λ l. says (string t) ∷ l) (text_items-tokens ts rest)

-- A copy says what its original says.
mutual
  unfolding clone_value clone_fields clone_items clone_tables tokens tokens_of_fields
      tokens_of_items tokens_of_tables

  clone_value-tokens : (v : Value) (rest : List Token) → tokens (clone_value v) rest ≡ tokens v rest
  clone_value-tokens (string t) rest = refl
  clone_value-tokens (integer n) rest = refl
  clone_value-tokens (decimal n) rest = refl
  clone_value-tokens (boolean b) rest = refl
  clone_value-tokens (other t) rest = refl
  clone_value-tokens (table m) rest =
      ap (λ l. begins_table ∷ l) (clone_fields-tokens m (ends ∷ rest))
  clone_value-tokens (items l) rest = ap (λ t. begins_list ∷ t) (clone_items-tokens l (ends ∷ rest))
  clone_value-tokens (tables l) rest =
      ap (λ t. begins_list ∷ t) (clone_tables-tokens l (ends ∷ rest))
  clone_value-tokens (texts l) rest = ap (λ t. begins_list ∷ t) (text_items-tokens l (ends ∷ rest))

  clone_fields-tokens :
      (m : Fields) (rest : List Token)
      → tokens_of_fields (clone_fields m) rest ≡ tokens_of_fields m rest
  clone_fields-tokens no_field rest = refl
  clone_fields-tokens (field k v m) rest =
      ap (λ l. names k ∷ l)
        (clone_value-tokens v (tokens_of_fields (clone_fields m) rest)
          ∙ ap (tokens v) (clone_fields-tokens m rest))

  clone_items-tokens :
      (l : Items) (rest : List Token)
      → tokens_of_items (clone_items l) rest ≡ tokens_of_items l rest
  clone_items-tokens no_item rest = refl
  clone_items-tokens (item v l) rest =
      clone_value-tokens v (tokens_of_items (clone_items l) rest)
      ∙ ap (tokens v) (clone_items-tokens l rest)

  clone_tables-tokens :
      (l : Tables) (rest : List Token)
      → tokens_of_items (clone_tables l) rest ≡ tokens_of_tables l rest
  clone_tables-tokens no_table rest = refl
  clone_tables-tokens (one_table m l) rest =
      ap (λ t. begins_table ∷ t)
        (clone_fields-tokens m (ends ∷ tokens_of_items (clone_tables l) rest)
          ∙ ap (λ t. tokens_of_fields m (ends ∷ t)) (clone_tables-tokens l rest))

-- All that a table says.
abbrev pub contents : Fields → List Token
contents m = tokens_of_fields m []

text_items-is_plain_items : (l : List Text) → is_plain_items (text_items l) ≡ true
unfolding is_plain_items is_plain
text_items-is_plain_items [] = refl
text_items-is_plain_items (t ∷ ts) = text_items-is_plain_items ts

mutual
  unfolding clone_value clone_fields clone_items clone_tables is_plain is_plain_fields
      is_plain_items

  clone_value_plain : (v : Value) → is_plain (clone_value v) ≡ true
  clone_value_plain (string t) = refl
  clone_value_plain (integer n) = refl
  clone_value_plain (decimal n) = refl
  clone_value_plain (boolean b) = refl
  clone_value_plain (other t) = refl
  clone_value_plain (table m) = clone_fields_plain m
  clone_value_plain (items l) = clone_items_plain l
  clone_value_plain (tables l) = clone_tables_plain l
  clone_value_plain (texts l) = text_items-is_plain_items l

  clone_fields_plain : (m : Fields) → is_plain_fields (clone_fields m) ≡ true
  clone_fields_plain no_field = refl
  clone_fields_plain (field k v m) = ground (arith, clone_value_plain v, clone_fields_plain m)

  clone_items_plain : (l : Items) → is_plain_items (clone_items l) ≡ true
  clone_items_plain no_item = refl
  clone_items_plain (item v l) = ground (arith, clone_value_plain v, clone_items_plain l)

  clone_tables_plain : (l : Tables) → is_plain_items (clone_tables l) ≡ true
  clone_tables_plain no_table = refl
  clone_tables_plain (one_table m l) = ground (arith, clone_fields_plain m, clone_tables_plain l)

-- A plain value is its own copy.
mutual
  unfolding clone_value clone_fields clone_items is_plain is_plain_fields is_plain_items

  plain_value : (v : Value) → is_plain v ≡ true → clone_value v ≡ v
  plain_value (string t) h = refl
  plain_value (integer n) h = refl
  plain_value (decimal n) h = refl
  plain_value (boolean b) h = refl
  plain_value (other t) h = refl
  plain_value (table m) h = ap table (plain_fields m h)
  plain_value (items l) h = ap items (plain_items l h)
  plain_value (tables l) h = absurd (cc)
  plain_value (texts l) h = absurd (cc)

  plain_fields : (m : Fields) → is_plain_fields m ≡ true → clone_fields m ≡ m
  plain_fields no_field h = refl
  plain_fields (field k v m) h = ground (arith, plain_value v, plain_fields m)

  plain_items : (l : Items) → is_plain_items l ≡ true → clone_items l ≡ l
  plain_items no_item h = refl
  plain_items (item v l) h = ground (arith, plain_value v, plain_items l)

pub get-clone_fields :
    (key : String) (m : Fields) → get key (clone_fields m) ≡ Option.map clone_value (get key m)
unfolding get clone_fields
get-clone_fields key no_field = refl
get-clone_fields key (field k v m) = ground (arith, get-clone_fields key m)

-- The copy of a protocol's table holds no array of tables and no array of texts at any depth, is its
-- own copy, and says what the table says: the same keys in the same order, with the same texts,
-- numbers and flags at the same depths, and arrays of the same elements.
pub clone_fields_lem :
    (m : Fields)
    → (is_plain_fields (clone_fields m) ≡ true)
      × (clone_fields (clone_fields m) ≡ clone_fields m)
      × (contents (clone_fields m) ≡ contents m)
clone_fields_lem m = (
  clone_fields_plain m,
  plain_fields (clone_fields m) (clone_fields_plain m),
  clone_fields-tokens m [],
)
