-- ===== src/Json.antt =====
-- What src/lfs.rs and src/server.rs use of the `serde_json` crate, which is not part of the
-- repository: an interface of its operations, and their documented behaviour as laws. A write
-- through `get_mut` is `insert` at a key that is there, or `array` over the elements.
pub mod Tree
use git_cache_proxy.Base.{
  ℕ, Bytes, bytes_eq, List, [], ◌∷◌, Bool, true, Option, none, some, if◌then◌else◌, ◌≡◌,
}

pub record Json : Type 1 where
  pub Value : Type 0
  pub from_slice : Bytes → Option Value
  pub to_vec : Value → Option Bytes
  pub string : Bytes → Value
  pub number : ℕ → Value
  pub array : List Value → Value
  pub object : List (Bytes × Value) → Value
  pub as_str : Value → Option Bytes
  pub as_u64 : Value → Option ℕ
  pub as_array : Value → Option (List Value)
  -- the members of an object, in the order of iteration
  pub as_object : Value → Option (List (Bytes × Value))
  pub get : Bytes → Value → Option Value
  pub insert : Bytes → Value → Value → Value
  pub remove : Bytes → Value → Value
  pub is_object : Value → Bool
  pub as_str-string : (s : Bytes) → as_str (string s) ≡ some s
  pub as_array-array : (l : List Value) → as_array (array l) ≡ some l
  pub get-is_object : (k : Bytes) (v w : Value) → get k v ≡ some w → is_object v ≡ true
  pub insert-is_object :
      (k : Bytes) (w v : Value) → is_object v ≡ true → is_object (insert k w v) ≡ true
  pub get-insert :
      (k j : Bytes) (w v : Value)
      → is_object v ≡ true
      → get j (insert k w v) ≡ (if bytes_eq k j then some w else get j v)
  pub get-remove :
      (k j : Bytes) (v : Value)
      → is_object v ≡ true
      → get j (remove k v) ≡ (if bytes_eq k j then none else get j v)
  pub get_single : (k : Bytes) (v : Value) → get k (object ((k, v) ∷ [])) ≡ some v
