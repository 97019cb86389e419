-- ===== src/Value.antt =====
-- Go's dynamic values (`interface{}`, `map[string]interface{}`), which the payloads, the metadata
-- and the JSON-friendly reports of the program are made of. A map is a list of entries, and
-- `put` replaces an entry in place, so a key stands once.
use newser.Prelude.{
  ◌≡◌, refl, Bool, true, false, String, Option, none, some, str_eq, eq_iff, arith, if◌then◌else◌,
}
use newser.Prelude.Int.{ℤ}

mutual
  pub data Any (F : Type 0) : Type 0 where
    null : Any F
    bool : Bool → Any F
    int : ℤ → Any F
    float : F → Any F
    text : String → Any F
    array : Items F → Any F
    object : Fields F → Any F

  pub data Items (F : Type 0) : Type 0 where
    nil : Items F
    cons : Any F → Items F → Items F

  pub data Fields (F : Type 0) : Type 0 where
    end : Fields F
    field : String → Any F → Fields F → Fields F

module _ {F : Type 0} where
  -- `m[k]`, with the flag of the two-valued form as the option.
  unfoldable pub get : String → Fields F → Option (Any F)
  get k end = none
  get k (field j v m) = if str_eq j k then some v else get k m

  -- `m[k] = v`.
  unfoldable pub put : String → Any F → Fields F → Fields F
  put k v end = field k v end
  put k v (field j w m) = if str_eq j k then field k v m else field j w (put k v m)

  pub get-put :
      (k j : String) (v : Any F) (m : Fields F)
      → get j (put k v m) ≡ (if str_eq k j then some v else get j m)
  unfolding get put
  get-put k j v end = refl
  get-put k j v (field i w m) = ground (arith, eq_iff k j, eq_iff i k, eq_iff i j, get-put k j v m)

  abbrev pub is_end : Fields F → Bool
  is_end end = true
  is_end (field k v m) = false

  -- The type assertions `v.(string)`, `v.(map[string]interface{})` on a looked-up value.
  abbrev pub as_text : Option (Any F) → Option String
  as_text (some (text s)) = some s
  as_text (some null) = none
  as_text _ = none

  abbrev pub as_object : Option (Any F) → Option (Fields F)
  as_object (some (object m)) = some m
  as_object (some null) = none
  as_object _ = none

  abbrev pub as_float : Option (Any F) → Option F
  as_float (some (float x)) = some x
  as_float (some null) = none
  as_float _ = none

  abbrev pub as_int : Option (Any F) → Option ℤ
  as_int (some (int n)) = some n
  as_int (some null) = none
  as_int _ = none

  abbrev pub as_bool : Option (Any F) → Option Bool
  as_bool (some (bool b)) = some b
  as_bool (some null) = none
  as_bool _ = none
