-- ===== src/Json.antt =====
-- `serde_json::Value` with the methods that the program calls. An object is a `Map`, a BTreeMap:
-- its entries are in the order of their keys, each key once.
use cherub.Base.{
  Bool, true, false, Option, none, some, List, [], ◌∷◌, ◌&&◌, if◌then◌else◌, ◌≡◌, refl, arith,
  ◌>>=◌, not,
}
use cherub.Base.Bytes.{Str, str_eq, str_lt, str_eq_refl, str_eq→eq}

mutual
  pub data Value (N : Type 0) : Type 0 where
    null : Value N
    bool : Bool → Value N
    number : N → Value N
    string : Str → Value N
    array : Values N → Value N
    object : Map N → Value N

  pub data Values (N : Type 0) : Type 0 where
    nil : Values N
    cons : Value N → Values N → Values N

  pub data Map (N : Type 0) : Type 0 where
    end : Map N
    entry : Str → Value N → Map N → Map N

module _ {N : Type 0} where
  -- `map.get(key)`.
  unfoldable pub get_key : Map N → Str → Option (Value N)
  get_key end k = none
  get_key (entry j v m) k = if str_eq j k then some v else get_key m k

  -- `map.insert(key, value)`.
  pub insert : Str → Value N → Map N → Map N
  insert k v end = entry k v end
  insert k v (entry j w m) =
      if str_eq j k
      then entry j v m
      else if str_lt k j
      then entry k v (entry j w m)
      else entry j w (insert k v m)

  -- Reading after an insertion.
  pub get_key-insert :
      (k j : Str) (v : Value N) (m : Map N)
      → get_key (insert k v m) j ≡ (if str_eq k j then some v else get_key m j)
  unfolding get_key insert
  get_key-insert k j v end = refl
  get_key-insert k j v (entry i w m) = ground (
    arith,
    get_key-insert k j v m,
    str_eq→eq i k,
    str_eq→eq i j,
    str_eq→eq k j,
    str_eq_refl j,
    str_eq_refl k,
    str_eq_refl i,
  )

  -- `value.get(key)`: None on what is no object.
  unfoldable pub get : Value N → Str → Option (Value N)
  unfolding get_key
  get (object m) k = get_key m k
  get null k = none
  get _ k = none

  -- `value.as_str()`.
  abbrev pub as_str : Value N → Option Str
  as_str (string s) = some s
  as_str null = none
  as_str _ = none

  -- The elements of an array, and `value.as_array()`.
  abbrev pub to_list : Values N → List (Value N)
  to_list nil = []
  to_list (cons v vs) = v ∷ to_list vs

  abbrev pub as_array : Value N → Option (List (Value N))
  as_array (array vs) = some (to_list vs)
  as_array null = none
  as_array _ = none

  -- `value.get(key).and_then(|v| v.as_str())`.
  unfoldable pub get_str : Value N → Str → Option Str
  unfolding get
  get_str v k = get v k >>= as_str

-- `value == other`, with the equality of numbers given.
unfoldable mutual
  pub value_eq : {N : Type 0} → (N → N → Bool) → Value N → Value N → Bool
  value_eq ne null null = true
  value_eq ne (bool true) (bool b) = b
  value_eq ne (bool false) (bool b) = not b
  value_eq ne (number a) (number b) = ne a b
  value_eq ne (string s) (string t) = str_eq s t
  value_eq ne (array xs) (array ys) = values_eq ne xs ys
  value_eq ne (object m) (object n) = map_eq ne m n
  value_eq ne _ _ = false

  pub values_eq : {N : Type 0} → (N → N → Bool) → Values N → Values N → Bool
  values_eq ne nil nil = true
  values_eq ne (cons x xs) (cons y ys) = value_eq ne x y && values_eq ne xs ys
  values_eq ne _ _ = false

  pub map_eq : {N : Type 0} → (N → N → Bool) → Map N → Map N → Bool
  map_eq ne end end = true
  map_eq ne (entry j v m) (entry k w n) = str_eq j k && value_eq ne v w && map_eq ne m n
  map_eq ne _ _ = false
