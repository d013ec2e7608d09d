-- ===== src/Json/Tree.antt =====
-- The interface of `Json` met by trees, so that its laws can hold and runs can be evaluated. Texts
-- are not parsed here: `from_slice` is given a table of them.
use git_cache_proxy.Base.{
  ℕ, Bytes, bytes_eq, bytes_eq_iff, bytes_eq_refl, List, [], ◌∷◌, Bool, true, false, Option, none,
  some, if◌then◌else◌, ◌≡◌, refl, ap, arith,
}
use git_cache_proxy.Json.{Json}

mutual
  pub data Tree : Type 0 where
    text : Bytes → Tree
    count : ℕ → Tree
    items : Items → Tree
    members : Members → Tree

  pub data Items : Type 0 where
    nil : Items
    cons : Tree → Items → Items

  pub data Members : Type 0 where
    end : Members
    member : Bytes → Tree → Members → Members

abbrev pub from_items : Items → List Tree
from_items nil = []
from_items (cons t l) = t ∷ from_items l

abbrev pub to_items : List Tree → Items
to_items [] = nil
to_items (t ∷ l) = cons t (to_items l)

abbrev pub from_members : Members → List (Bytes × Tree)
from_members end = []
from_members (member k t l) = (k, t) ∷ from_members l

abbrev pub to_members : List (Bytes × Tree) → Members
to_members [] = end
to_members ((k, t) ∷ l) = member k t (to_members l)

abbrev pub find_member : Bytes → Members → Option Tree
find_member j end = none
find_member j (member k t l) = if bytes_eq k j then some t else find_member j l

abbrev pub drop_member : Bytes → Members → Members
drop_member j end = end
drop_member j (member k t l) =
    let rest = drop_member j l in if bytes_eq k j then rest else member k t rest

abbrev pub get_tree : Bytes → Tree → Option Tree
get_tree k (text s) = none
get_tree k (count n) = none
get_tree k (items l) = none
get_tree k (members m) = find_member k m

abbrev pub insert_tree : Bytes → Tree → Tree → Tree
insert_tree k w (text s) = text s
insert_tree k w (count n) = count n
insert_tree k w (items l) = items l
insert_tree k w (members m) = members (member k w (drop_member k m))

abbrev pub remove_tree : Bytes → Tree → Tree
remove_tree k (text s) = text s
remove_tree k (count n) = count n
remove_tree k (items l) = items l
remove_tree k (members m) = members (drop_member k m)

abbrev pub tree_is_object : Tree → Bool
tree_is_object (text s) = false
tree_is_object (count n) = false
tree_is_object (items l) = false
tree_is_object (members m) = true

find-drop_member :
    (k j : Bytes) (m : Members)
    → find_member j (drop_member k m) ≡ (if bytes_eq k j then none else find_member j m)
find-drop_member k j end = ground arith
find-drop_member k j (member i t m) =
    ground (arith, find-drop_member k j m, bytes_eq_iff i k, bytes_eq_iff i j, bytes_eq_iff k j)

pub from-to_items : (l : List Tree) → from_items (to_items l) ≡ l
from-to_items [] = refl
from-to_items (t ∷ l) = ap (λ r. t ∷ r) (from-to_items l)

pub get-is_object_lem : (k : Bytes) (v w : Tree) → get_tree k v ≡ some w → tree_is_object v ≡ true
get-is_object_lem k (text s) w e = cc
get-is_object_lem k (count n) w e = cc
get-is_object_lem k (items l) w e = cc
get-is_object_lem k (members m) w e = refl

pub insert-is_object_lem :
    (k : Bytes) (w v : Tree) → tree_is_object v ≡ true → tree_is_object (insert_tree k w v) ≡ true
insert-is_object_lem k w (text s) h = h
insert-is_object_lem k w (count n) h = h
insert-is_object_lem k w (items l) h = h
insert-is_object_lem k w (members m) h = refl

pub get-insert_lem :
    (k j : Bytes) (w v : Tree)
    → tree_is_object v ≡ true
    → get_tree j (insert_tree k w v) ≡ (if bytes_eq k j then some w else get_tree j v)
get-insert_lem k j w (text s) h = cc
get-insert_lem k j w (count n) h = cc
get-insert_lem k j w (items l) h = cc
get-insert_lem k j w (members m) h = ground (arith, find-drop_member k j m)

pub get-remove_lem :
    (k j : Bytes) (v : Tree)
    → tree_is_object v ≡ true
    → get_tree j (remove_tree k v) ≡ (if bytes_eq k j then none else get_tree j v)
get-remove_lem k j (text s) h = cc
get-remove_lem k j (count n) h = cc
get-remove_lem k j (items l) h = cc
get-remove_lem k j (members m) h = find-drop_member k j m

pub get_single_lem : (k : Bytes) (v : Tree) → get_tree k (members (member k v end)) ≡ some v
get_single_lem k v = rw (bytes_eq_refl k) refl

abbrev pub tree_json : (Bytes → Option Tree) → Json
tree_json parse = record {
  Value = Tree;
  from_slice = parse;
  to_vec = λ v. some [];
  string = text;
  number = count;
  array = λ l. items (to_items l);
  object = λ l. members (to_members l);
  as_str = λ v. elim v [ text s ↦ some s | count n ↦ none | items l ↦ none | members m ↦ none ];
  as_u64 = λ v. elim v [ text s ↦ none | count n ↦ some n | items l ↦ none | members m ↦ none ];
  as_array = λ v. elim v [
    | text s ↦ none
    | count n ↦ none
    | items l ↦ some (from_items l)
    | members m ↦ none
  ];
  as_object = λ v. elim v [
    | text s ↦ none
    | count n ↦ none
    | items l ↦ none
    | members m ↦ some (from_members m)
  ];
  get = get_tree;
  insert = insert_tree;
  remove = remove_tree;
  is_object = tree_is_object;
  as_str-string = λ s. refl;
  as_array-array = λ l. ap some (from-to_items l);
  get-is_object = get-is_object_lem;
  insert-is_object = insert-is_object_lem;
  get-insert = get-insert_lem;
  get-remove = get-remove_lem;
  get_single = get_single_lem;
}
