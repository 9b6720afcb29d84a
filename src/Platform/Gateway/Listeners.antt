-- ===== src/Platform/Gateway/Listeners.antt =====
-- What becomes of a Gateway's listeners.
use agentgateway_educates_op.Base.{
  String, ◌≡◌, refl, ap, ◌∙◌, Bool, true, false, ◌&&◌, not, List, [], ◌∷◌, arith, str_eq, eq_iff,
  Bool-cases, inl, inr, if◌then◌else◌,
}
use agentgateway_educates_op.Kube.{Packages}
use agentgateway_educates_op.Sdk.Json.{
  Json, Fields, null, boolean, number, text, array, object, no_fields, field, get_field, set_field,
  is_string,
}
use agentgateway_educates_op.Names.{gateway_listener_name}
use agentgateway_educates_op.Platform.Gateway.{
  listener_route_kinds, from_all, map_at, as_map, is_null, allow_models, needs_kinds, with_kinds,
  misses_kinds, scan_listeners,
}

get_field-set_field :
    (k j : String) (v : Json) (m : Fields)
    → get_field j (set_field k v m) ≡ (if str_eq k j then v else get_field j m)
unfolding get_field set_field
get_field-set_field k j v no_fields = refl
get_field-set_field k j v (field i w m) =
    ground (arith, eq_iff k j, eq_iff i k, eq_iff i j, get_field-set_field k j v m)

and-not : {a : Bool} (b : Bool) → a ≡ true → (b && not a) ≡ false
and-not {a} b h = ground arith

module _ (p : Packages) (law : (v : Json) → p.deep_equal v v ≡ true) where
  -- The routes name the model kind once they have been written.
  kinds-allow_models : (m : Fields) → get_field "kinds" (allow_models p m) ≡ listener_route_kinds
  unfolding allow_models
  kinds-allow_models m =
      elim (Bool-cases
        (is_null (get_field "namespaces" (set_field "kinds" listener_route_kinds m)))) [
          | inl h ↦ rw h (
              rw
                (
                  get_field-set_field "namespaces" "kinds" from_all
                      (set_field "kinds" listener_route_kinds m),
                  get_field-set_field "kinds" "kinds" listener_route_kinds m,
                )
                refl)
          | inr h ↦ rw (h, get_field-set_field "kinds" "kinds" listener_route_kinds m) refl
        ]

  -- The listener, with its routes as they have been written.
  abbrev written : Fields → Fields
  written l = set_field "allowedRoutes" (object (allow_models p (map_at "allowedRoutes" l))) l

  kinds-written :
      (l : Fields) → get_field "kinds" (map_at "allowedRoutes" (written l)) ≡ listener_route_kinds
  kinds-written l =
      ap (λ v. get_field "kinds" (as_map v))
        (get_field-set_field "allowedRoutes" "allowedRoutes"
          (object (allow_models p (map_at "allowedRoutes" l))) l)
      ∙ kinds-allow_models (map_at "allowedRoutes" l)

  needs_kinds-written : (l : Fields) → needs_kinds p (written l) ≡ false
  unfolding needs_kinds
  needs_kinds-written l =
      ap
        (λ v.
          is_string (get_field "name" (written l)) gateway_listener_name
          && not (p.deep_equal v listener_route_kinds))
        (kinds-written l)
      ∙ and-not _ (law listener_route_kinds)

  with_kinds-settled : (raw : Json) → misses_kinds p (with_kinds p raw) ≡ false
  unfolding with_kinds misses_kinds
  with_kinds-settled (object l) = elim (Bool-cases (needs_kinds p l)) [
    | inl h ↦ rw h (needs_kinds-written l)
    | inr h ↦ rw h h
  ]
  with_kinds-settled null = refl
  with_kinds-settled (boolean x) = refl
  with_kinds-settled (number x) = refl
  with_kinds-settled (text x) = refl
  with_kinds-settled (array x) = refl

  with_kinds-kept : (raw : Json) → misses_kinds p raw ≡ false → with_kinds p raw ≡ raw
  unfolding with_kinds misses_kinds
  with_kinds-kept (object l) h = rw h refl
  with_kinds-kept null h = refl
  with_kinds-kept (boolean x) h = refl
  with_kinds-kept (number x) h = refl
  with_kinds-kept (text x) h = refl
  with_kinds-kept (array x) h = refl

  rescan : (l : List Json) → (scan_listeners p (scan_listeners p l).listeners).changed ≡ false
  unfolding scan_listeners
  rescan [] = refl
  rescan (raw ∷ l) = rw (with_kinds-settled raw) (rescan l)

  unchanged_scan :
      (l : List Json) → (scan_listeners p l).changed ≡ false → (scan_listeners p l).listeners ≡ l
  unfolding scan_listeners
  unchanged_scan [] h = refl
  unchanged_scan (raw ∷ l) h =
      rw (with_kinds-kept raw (ground (arith, h)), unchanged_scan l (ground (arith, h))) refl

-- Whether a listener has the operator's name.
abbrev pub is_own : Json → Bool
is_own (object l) = is_string (get_field "name" l) gateway_listener_name
is_own _ = false

foreign-kept : (p : Packages) (raw : Json) → is_own raw ≡ false → misses_kinds p raw ≡ false
unfolding misses_kinds needs_kinds
foreign-kept p (object l) h = rw h refl
foreign-kept p null h = refl
foreign-kept p (boolean x) h = refl
foreign-kept p (number x) h = refl
foreign-kept p (text x) h = refl
foreign-kept p (array x) h = refl

-- Where equal values are deeply equal, one pass over a Gateway's listeners is enough: the next one
-- finds nothing to write. A pass that finds nothing to write leaves the listeners as they are, and
-- any pass leaves a listener of another name as it is.
pub scan_listeners-settled :
    (p : Packages) (l : List Json)
    → ((v : Json) → p.deep_equal v v ≡ true)
    → ((scan_listeners p (scan_listeners p l).listeners).changed ≡ false)
      × ((scan_listeners p l).changed ≡ false → (scan_listeners p l).listeners ≡ l)
      × ((raw : Json) → is_own raw ≡ false → with_kinds p raw ≡ raw)
scan_listeners-settled p l law = (
  rescan p law l,
  unchanged_scan p law l,
  λ raw h. with_kinds-kept p law raw (foreign-kept p raw h),
)
