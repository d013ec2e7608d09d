-- ===== src/FilePath.antt =====
-- `std::path` on Unix, as far as src/repo.rs and src/git.rs use it: `Path::components`,
-- `Path::join` and `Path::starts_with`. A path is its bytes.
pub mod Join
use git_cache_proxy.Base.{
  Bytes, codes, bytes_eq, split, List, [], ◌∷◌, ◌++◌, Bool, true, false, ◌&&◌, Option, none, some,
  ◌==◌, if◌then◌else◌, ◌||◌, starts_with,
}

pub data Component : Type 0 where
  root_dir : Component
  cur_dir : Component
  parent_dir : Component
  normal : Bytes → Component

-- Empty pieces and `.` are skipped.
unfoldable pub body : List Bytes → List Component
body [] = []
body (p ∷ ps) =
    let rest = body ps in
    if bytes_eq p [] || bytes_eq p (codes ".")
    then rest
    else if bytes_eq p (codes "..")
    then parent_dir ∷ rest
    else normal p ∷ rest

-- A leading `.` of a relative path is kept.
unfoldable pub lead : List Bytes → List Component
unfolding body
lead [] = []
lead (p ∷ ps) = if bytes_eq p (codes ".") then cur_dir ∷ body ps else body (p ∷ ps)

unfoldable pub components : Bytes → List Component
unfolding lead
components p =
    if starts_with (codes "/") p then root_dir ∷ body (split b'/' p) else lead (split b'/' p)

-- Whether a separator has to be pushed: the path does not end in one, and is not empty.
unfoldable pub need_sep : Bytes → Bool
need_sep [] = false
need_sep (c ∷ []) = if c == b'/' then false else true
need_sep (c ∷ d ∷ s) = need_sep (d ∷ s)

-- An absolute second path replaces the first.
unfoldable pub path_join : Bytes → Bytes → Bytes
unfolding need_sep
path_join p q =
    if starts_with (codes "/") q then q else if need_sep p then p ++ b'/' ∷ q else p ++ q

unfoldable pub component_eq : Component → Component → Bool
component_eq root_dir root_dir = true
component_eq cur_dir cur_dir = true
component_eq parent_dir parent_dir = true
component_eq (normal p) (normal q) = bytes_eq p q
component_eq _ _ = false

unfoldable pub is_prefix : List Component → List Component → Bool
unfolding component_eq
is_prefix [] qs = true
is_prefix (p ∷ ps) [] = false
is_prefix (p ∷ ps) (q ∷ qs) = component_eq p q && is_prefix ps qs

unfoldable pub path_starts_with : Bytes → Bytes → Bool
unfolding components is_prefix
path_starts_with p base = is_prefix (components base) (components p)
