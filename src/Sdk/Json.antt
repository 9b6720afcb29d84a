-- ===== src/Sdk/Json.antt =====
-- Go's `map[string]any` and `[]any`, as Helm's values and the untyped objects hold them.
use agentgateway_educates_op.Base.{
  String, Bool, false, List, [], ◌∷◌, Text, codes, text_eq, str_eq, if◌then◌else◌,
}
use agentgateway_educates_op.Base.Int.{ℤ}

mutual
  pub data Json : Type 0 where
    null : Json
    boolean : Bool → Json
    number : ℤ → Json
    text : Text → Json
    array : Items → Json
    object : Fields → Json

  pub data Items : Type 0 where
    no_items : Items
    item : Json → Items → Items

  -- The keys in any order; no key twice in a map that the code builds.
  pub data Fields : Type 0 where
    no_fields : Fields
    field : String → Json → Fields → Fields

-- A string of the program's text.
abbrev pub string : String → Json
string s = text (codes s)

-- A missing key reads as `nil`.
unfoldable pub get_field : String → Fields → Json
get_field k no_fields = null
get_field k (field j v m) = if str_eq j k then v else get_field k m

unfoldable pub set_field : String → Json → Fields → Fields
set_field k v no_fields = field k v no_fields
set_field k v (field j w m) = if str_eq j k then field k v m else field j w (set_field k v m)

unfoldable pub items_of : List Json → Items
items_of [] = no_items
items_of (v ∷ l) = item v (items_of l)

-- A map of one key, of two, and so on, from a list.
unfoldable pub fields_from : List (String × Json) → Fields
fields_from [] = no_fields
fields_from ((k, v) ∷ l) = field k v (fields_from l)

-- Go's comparison of an `any` with a string.
unfoldable pub is_string : Json → String → Bool
is_string (text t) s = text_eq t (codes s)
is_string _ s = false
