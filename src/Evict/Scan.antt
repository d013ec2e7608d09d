-- ===== src/Evict/Scan.antt =====
-- src/evict.rs, the scans of the disk. What is on the disk is a tree. A scan keeps a stack of the
-- directories that it has still to read, with its top first. A link to a directory is not followed.
pub mod Walk
pub mod Totals
pub mod Mirrors
mod Tests
use git_cache_proxy.Base.{
  ℕ, zero, suc, ◌+◌, Bytes, codes, bytes_eq, List, [], ◌∷◌, ◌++◌, map, Bool, true, false, not, ◌&&◌,
  ◌||◌, Option, none, some, ltb, if◌then◌else◌, add64, ends_with, join,
}
use git_cache_proxy.FilePath.{
  Component, root_dir, cur_dir, parent_dir, normal, components, component_eq, path_join,
}
use git_cache_proxy.Repo.{incoming_suffix, evicting_suffix, lfs_objects_dir}
use git_cache_proxy.Evict.{Scanned}
use git_cache_proxy.Lfs.{incoming_dir}

-- A regular file, or a link or special file with whether it leads to a regular file, has a size and a
-- time of modification that may not be readable. A folder may not be listed. `unknown` is an entry
-- whose metadata cannot be read.
mutual
  pub data Node : Type 0 where
    regular : ℕ → Option ℕ → Node
    special : Bool → ℕ → Option ℕ → Node
    folder : Bool → Listing → Node
    unknown : Node

  pub data Listing : Type 0 where
    no_entries : Listing
    entry : Bytes → Node → Listing → Listing

-- A directory: its path, whether it can be listed, and what is in it.
abbrev pub Dir : Type 0
Dir = Bytes × (Bool × Listing)

-- The directories in a listing, those with a name to skip left out, pushed onto the stack.
unfoldable pub push_dirs : (Bytes → Bool) → Bytes → Listing → List Dir → List Dir
push_dirs skip path no_entries stack = stack
push_dirs skip path (entry name (regular n t) l) stack = push_dirs skip path l stack
push_dirs skip path (entry name (special b n t) l) stack = push_dirs skip path l stack
push_dirs skip path (entry name unknown l) stack = push_dirs skip path l stack
push_dirs skip path (entry name (folder r es) l) stack =
    push_dirs skip path l (if skip name then stack else (path_join path name, (r, es)) ∷ stack)

-- The number of directories in a listing.
abbrev pub count_dirs : Listing → ℕ
count_dirs no_entries = 0
count_dirs (entry name (regular n t) l) = count_dirs l
count_dirs (entry name (special b n t) l) = count_dirs l
count_dirs (entry name unknown l) = count_dirs l
count_dirs (entry name (folder r es) l) = count_dirs l + suc (count_dirs es)

module _ {A : Type 0} (visit : Dir → A → A) (stops : Dir → Bool) (skip : Bytes → Bool) where
  -- `while let Some(d) = stack.pop()`: the directory is visited, and unless the walk stops there, the
  -- directories in it are pushed.
  unfoldable pub walk : ℕ → List Dir → A → A
  unfolding push_dirs
  walk zero stack acc = acc
  walk (suc f) [] acc = acc
  walk (suc f) ((path, (r, es)) ∷ stack) acc =
      walk f (if stops (path, (r, es)) then stack else push_dirs skip path es stack)
        (visit (path, (r, es)) acc)

abbrev pub later : Option ℕ → ℕ → ℕ
later none newest = newest
later (some t) newest = if ltb newest t then t else newest

unfoldable pub add_files : Listing → ℕ × ℕ → ℕ × ℕ
add_files no_entries acc = acc
add_files (entry name (regular n t) l) (size, newest) = add_files l (add64 size n, later t newest)
add_files (entry name (special b n t) l) (size, newest) = add_files l (add64 size n, later t newest)
add_files (entry name unknown l) acc = add_files l acc
add_files (entry name (folder r es) l) acc = add_files l acc

abbrev pub unlistable : Dir → Bool
unlistable (path, (r, es)) = not r

unfoldable pub measure_dir : Dir → ℕ × ℕ → ℕ × ℕ
unfolding add_files
measure_dir (path, (r, es)) acc = if r then add_files es acc else acc

-- `measure`: the total size and the newest time. There is fuel for each directory and one round more.
unfoldable pub measure : Dir → ℕ × ℕ
unfolding walk measure_dir
measure d =
    walk measure_dir unlistable (λ name. false) (suc (suc (count_dirs d.1.1))) (d ∷ []) (0, 0)

-- `lossy` is `to_string_lossy` of the standard library: the bytes of a name as text.
abbrev pub component_text : (Bytes → Bytes) → Component → Bytes
component_text lossy root_dir = lossy (codes "/")
component_text lossy cur_dir = lossy (codes ".")
component_text lossy parent_dir = lossy (codes "..")
component_text lossy (normal p) = lossy p

unfoldable pub strip_components : List Component → List Component → Option (List Component)
unfolding component_eq
strip_components [] cs = some cs
strip_components (b ∷ bs) [] = none
strip_components (b ∷ bs) (c ∷ cs) =
    let rest = strip_components bs cs in if component_eq b c then rest else none

unfoldable pub rel_name : (Bytes → Bytes) → Bytes → Bytes → Bytes
unfolding strip_components
rel_name lossy root dir = elim (strip_components (components root) (components dir)) [
  | none ↦ join b'/' (map (component_text lossy) (components dir))
  | some cs ↦ join b'/' (map (component_text lossy) cs)
]

-- Whether `HEAD` in the directory leads to a regular file.
unfoldable pub has_head : Listing → Bool
has_head no_entries = false
has_head (entry name (regular n t) l) = bytes_eq name (codes "HEAD") || has_head l
has_head (entry name (special b n t) l) = (bytes_eq name (codes "HEAD") && b) || has_head l
has_head (entry name unknown l) = has_head l
has_head (entry name (folder r es) l) = has_head l

unfoldable pub skipped : Bytes → Bool
skipped name =
    ends_with incoming_suffix name
    || ends_with evicting_suffix name
    || bytes_eq name lfs_objects_dir

abbrev pub ends_descent : Dir → Bool
ends_descent (path, (r, es)) = has_head es || not r

unfoldable pub add_mirror : (Bytes → Bytes) → Bytes → Dir → List Scanned → List Scanned
unfolding measure rel_name has_head
add_mirror lossy root (path, (r, es)) out =
    let name = rel_name lossy root path in
    let (size, mtime) = measure (path, (r, es)) in
    if has_head es && not (bytes_eq name [])
    then out ++ (record { name = name; size = size; mtime = mtime } ∷ [])
    else out

unfoldable pub find_mirrors : (Bytes → Bytes) → Dir → List Scanned
unfolding walk add_mirror skipped
find_mirrors lossy d =
    walk (add_mirror lossy d.0) ends_descent (λ n. skipped (lossy n)) (suc (suc (count_dirs d.1.1)))
      (d ∷ []) []

abbrev pub or_epoch : Option ℕ → ℕ
or_epoch none = 0
or_epoch (some t) = t

unfoldable pub objects_in : (Bytes → Bytes) → Bytes → Listing → List Scanned
objects_in lossy shard no_entries = []
objects_in lossy shard (entry oid (regular n t) l) =
    record {
      name = lfs_objects_dir ++ (b'/' ∷ (lossy shard ++ (b'/' ∷ lossy oid)));
      size = n;
      mtime = or_epoch t;
    }
    ∷ objects_in lossy shard l
objects_in lossy shard (entry oid (special b n t) l) = objects_in lossy shard l
objects_in lossy shard (entry oid unknown l) = objects_in lossy shard l
objects_in lossy shard (entry oid (folder r es) l) = objects_in lossy shard l

unfoldable pub shards_in : (Bytes → Bytes) → Listing → List Scanned
unfolding objects_in
shards_in lossy no_entries = []
shards_in lossy (entry shard (regular n t) l) = shards_in lossy l
shards_in lossy (entry shard (special b n t) l) = shards_in lossy l
shards_in lossy (entry shard unknown l) = shards_in lossy l
shards_in lossy (entry shard (folder r es) l) =
    let rest = shards_in lossy l in
    if bytes_eq (lossy shard) incoming_dir || not r then rest else objects_in lossy shard es ++ rest

-- The directory of that name, if it can be listed.
unfoldable pub listing_of : Bytes → Listing → Option Listing
listing_of k no_entries = none
listing_of k (entry name (regular n t) l) = listing_of k l
listing_of k (entry name (special b n t) l) = listing_of k l
listing_of k (entry name unknown l) = listing_of k l
listing_of k (entry name (folder r es) l) =
    let rest = listing_of k l in if bytes_eq name k then (if r then some es else none) else rest

unfoldable pub find_lfs_blobs : (Bytes → Bytes) → Dir → List Scanned
unfolding shards_in listing_of
find_lfs_blobs lossy d = elim (listing_of lfs_objects_dir d.1.1) [
  | none ↦ []
  | some es ↦ shards_in lossy es
]
