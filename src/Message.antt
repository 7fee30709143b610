-- ===== src/Message.antt =====
-- The messages of the bus: map[string]interface{} with the dynamic types that the components test.
-- F is the type of float64.
use drones.Common.{
  ℕ, String, Bool, true, false, ◌≡◌, Option, none, some, refl, arith, ◌==◌, eq_iff, List, [], ◌∷◌,
  if◌then◌else◌,
}

-- negsuc n is -(n + 1).
pub data ℤ : Type 0 where
  pos : ℕ → ℤ
  negsuc : ℕ → ℤ

mutual
  pub data Value (F : Type 0) : Type 0 where
    null : Value F
    bool : Bool → Value F
    float64 : F → Value F
    float32 : F → Value F
    int : ℤ → Value F
    int32 : ℤ → Value F
    int64 : ℤ → Value F
    str : String → Value F
    arr : Items F → Value F
    maps : Maps F → Value F
    obj : Fields F → Value F

  -- []interface{}
  pub data Items (F : Type 0) : Type 0 where
    nil : Items F
    cons : Value F → Items F → Items F

  -- []map[string]interface{}
  pub data Maps (F : Type 0) : Type 0 where
    no_maps : Maps F
    cons_map : Fields F → Maps F → Maps F

  -- map[string]interface{}, an association list of which the first entry of a key counts
  pub data Fields (F : Type 0) : Type 0 where
    empty : Fields F
    entry : String → Value F → Fields F → Fields F

module _ {F : Type 0} where
  -- m[k], with the second result of the two-valued form as `Option`
  unfoldable pub get : Fields F → String → Option (Value F)
  get empty k = none
  get (entry j v m) k = if j == k then some v else get m k

  -- m[k] = v
  unfoldable pub put : Fields F → String → Value F → Fields F
  put empty k v = entry k v empty
  put (entry j w m) k v = if j == k then entry k v m else entry j w (put m k v)

  -- v.(string) with the zero value where the assertion fails
  abbrev pub string_of : Option (Value F) → String
  string_of (some (str s)) = s
  string_of _ = ""

  -- v.(map[string]interface{}); `none` is the nil map
  abbrev pub map_of : Option (Value F) → Option (Fields F)
  map_of (some (obj m)) = some m
  map_of _ = none

  -- v.(bool)
  abbrev pub bool_of : Option (Value F) → Bool
  bool_of (some (bool b)) = b
  bool_of _ = false

  -- v.([]interface{}); the nil slice has no items
  abbrev pub items_of : Option (Value F) → Items F
  items_of (some (arr xs)) = xs
  items_of _ = nil

  -- m[k] == nil, and its negation
  abbrev pub is_nil : Option (Value F) → Bool
  is_nil none = true
  is_nil (some null) = true
  is_nil (some _) = false

  abbrev pub has : Fields F → String → Bool
  has m k = elim (get m k) [ none ↦ false | some _ ↦ true ]

  abbrev pub get_string : Fields F → String → String
  get_string m k = string_of (get m k)

  abbrev pub get_map : Fields F → String → Option (Fields F)
  get_map m k = map_of (get m k)

  abbrev pub get_bool : Fields F → String → Bool
  get_bool m k = bool_of (get m k)

  abbrev pub get_items : Fields F → String → Items F
  get_items m k = items_of (get m k)

  -- a map as a value; the nil map is null
  abbrev pub map_value : Option (Fields F) → Value F
  map_value none = null
  map_value (some m) = obj m

  -- a map literal
  abbrev pub fields : List (String × Value F) → Fields F
  fields [] = empty
  fields ((k, v) ∷ rest) = entry k v (fields rest)

  abbrev pub only : String → Value F → Fields F
  only k v = entry k v empty

  -- for k, v := range src { dst[k] = v }
  unfoldable pub copy_into : Fields F → Fields F → Fields F
  copy_into dst empty = dst
  copy_into dst (entry k v m) = copy_into (put dst k v) m

  pub get-put :
      (m : Fields F) (k j : String) (v : Value F)
      → get (put m k v) j ≡ (if k == j then some v else get m j)
  unfolding get put
  get-put empty k j v = refl
  get-put (entry i w m) k j v = ground (arith, eq_iff k j, eq_iff i k, eq_iff i j, get-put m k j v)
