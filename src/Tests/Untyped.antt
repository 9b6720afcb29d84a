-- ===== src/Tests/Untyped.antt =====
-- apimachinery's helpers on untyped objects and a plain encoding of JSON, as concrete functions.
use agentgateway_educates_op.Base.{
  String, Bool, true, false, ◌&&◌, ◌==◌, Option, none, some, List, [], ◌∷◌, ◌++◌, Text, codes,
  str_eq, text_eq, length, ◌≡◌, refl, eq_iff, text_eq_refl, arith, not, if◌then◌else◌,
}
use agentgateway_educates_op.Base.Int.{ℤ, pos, negsuc}
use agentgateway_educates_op.Sdk.Json.{
  Json, Items, Fields, null, boolean, number, text, array, object, no_items, item, no_fields, field,
  get_field, set_field,
}

abbrev fields_of : Json → Fields
fields_of (object m) = m
fields_of _ = no_fields

unfoldable pub at_path : List String → Json → Json
unfolding get_field
at_path [] v = v
at_path (k ∷ path) v = at_path path (get_field k (fields_of v))

abbrev list_of : Items → List Json
list_of no_items = []
list_of (item v l) = v ∷ list_of l

abbrev pub as_list : Json → Option (List Json)
as_list (array l) = some (list_of l)
as_list _ = none

abbrev pub as_fields : Json → Option Fields
as_fields (object m) = some m
as_fields _ = none

abbrev pub as_number : Json → Option ℤ
as_number (number n) = some n
as_number _ = none

unfoldable pub put : List String → Json → Fields → Fields
unfolding get_field set_field
put [] v m = m
put (k ∷ []) v m = set_field k v m
put (k ∷ (j ∷ path)) v m = set_field k (object (put (j ∷ path) v (fields_of (get_field k m)))) m

abbrev drop_field : String → Fields → Fields
drop_field k no_fields = no_fields
drop_field k (field j v m) = if str_eq j k then m else field j v (drop_field k m)

unfoldable pub take_out : List String → Fields → Fields
unfolding get_field set_field
take_out [] m = m
take_out (k ∷ []) m = drop_field k m
take_out (k ∷ (j ∷ path)) m =
    set_field k (object (take_out (j ∷ path) (fields_of (get_field k m)))) m

abbrev eq_ℤ : ℤ → ℤ → Bool
eq_ℤ (pos m) (pos n) = m == n
eq_ℤ (negsuc m) (negsuc n) = m == n
eq_ℤ _ _ = false

abbrev mutual
  pub json_eq : Json → Json → Bool
  json_eq null null = true
  json_eq (boolean true) (boolean y) = y
  json_eq (boolean false) (boolean y) = not y
  json_eq (text x) (text y) = text_eq x y
  json_eq (number x) (number y) = eq_ℤ x y
  json_eq (array x) (array y) = items_eq x y
  json_eq (object x) (object y) = fields_eq x y
  json_eq _ _ = false

  items_eq : Items → Items → Bool
  items_eq no_items no_items = true
  items_eq (item x l) (item y m) = json_eq x y && items_eq l m
  items_eq _ _ = false

  fields_eq : Fields → Fields → Bool
  fields_eq no_fields no_fields = true
  fields_eq (field j x l) (field k y m) = str_eq j k && (json_eq x y && fields_eq l m)
  fields_eq _ _ = false

abbrev mutual
  unfolding codes

  write_json : Json → Text
  write_json null = 0 ∷ []
  write_json (boolean true) = 1 ∷ (1 ∷ [])
  write_json (boolean false) = 1 ∷ (0 ∷ [])
  write_json (number (pos n)) = 2 ∷ (n ∷ [])
  write_json (number (negsuc n)) = 3 ∷ (n ∷ [])
  write_json (text t) = 4 ∷ (length t ∷ t)
  write_json (array l) = 5 ∷ write_items l
  write_json (object m) = 6 ∷ write_fields_of m

  write_items : Items → Text
  write_items no_items = 0 ∷ []
  write_items (item v l) = 1 ∷ (write_json v ++ write_items l)

  pub write_fields_of : Fields → Text
  write_fields_of no_fields = 0 ∷ []
  write_fields_of (field k v m) = 1 ∷ (codes k ++ (write_json v ++ write_fields_of m))

eq_ℤ_refl : (n : ℤ) → eq_ℤ n n ≡ true
eq_ℤ_refl (pos n) = ground arith
eq_ℤ_refl (negsuc n) = ground arith

mutual
  json_eq_refl : (v : Json) → json_eq v v ≡ true
  json_eq_refl null = refl
  json_eq_refl (boolean true) = refl
  json_eq_refl (boolean false) = refl
  json_eq_refl (number n) = eq_ℤ_refl n
  json_eq_refl (text t) = text_eq_refl t
  json_eq_refl (array l) = items_eq_refl l
  json_eq_refl (object m) = fields_eq_refl m

  items_eq_refl : (l : Items) → items_eq l l ≡ true
  items_eq_refl no_items = refl
  items_eq_refl (item v l) = rw (json_eq_refl v) (items_eq_refl l)

  fields_eq_refl : (m : Fields) → fields_eq m m ≡ true
  fields_eq_refl no_fields = refl
  fields_eq_refl (field k v m) = rw ((eq_iff k k).1 refl, json_eq_refl v) (fields_eq_refl m)

pub deep_equal_refl : (v : Json) → json_eq v v ≡ true
deep_equal_refl v = json_eq_refl v
