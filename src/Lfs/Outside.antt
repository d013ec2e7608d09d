-- ===== src/Lfs/Outside.antt =====
-- What src/lfs.rs meets outside: the answers of the upstream and of the disk, the files, and the errors
-- that a call ends with.
use git_cache_proxy.Base.{Bytes, bytes_eq, List, [], ◌∷◌, Bool, Option, none, some, if◌then◌else◌}
use git_cache_proxy.Lfs.Batch.{Headers, HeaderText, ActionError}

-- An answer to a GET: whether there was one with a good status, and the chunks of its body before the
-- end, or before an error.
pub record Transfer : Type 0 where
  pub connected : Bool
  pub chunks : List Bytes
  pub complete : Bool

-- `post` is given the URL, the credential header and the body, and gives the body of an answer with a
-- good status. `sha256` is the digest of the `sha2` crate.
pub record Upstream : Type 0 where
  pub http : HeaderText
  pub trim : Bytes → Bytes
  pub post : Bytes → Option (Bytes × Bytes) → Bytes → Option Bytes
  pub get : Bytes → Headers → Transfer
  pub sha256 : Bytes → Bytes

-- What the disk answers. `write_fails` is given the content with the next chunk, and says that the
-- write fails and what it leaves.
pub record Disk : Type 0 where
  pub first_stat : Bool
  pub second_stat : Bool
  pub incoming_created : Bool
  pub file_created : Bool
  pub write_fails : Bytes → Option Bytes
  pub flushed : Bool
  pub removed : Bool
  pub hashed : Bool
  pub shard_created : Bool
  pub metadata_read : Bool
  pub renamed : Bool

pub data LfsError : Type 0 where
  no_size post_failed not_json not_serialized incoming_failed download_failed : LfsError
  hash_failed shard_failed rename_failed : LfsError
  action_failed : ActionError → LfsError
  integrity_failed : Bytes → LfsError

unfoldable pub find_file : Bytes → List (Bytes × Bytes) → Option Bytes
find_file p [] = none
find_file p ((q, c) ∷ l) = if bytes_eq q p then some c else find_file p l

unfoldable pub remove_file : Bytes → List (Bytes × Bytes) → List (Bytes × Bytes)
remove_file p [] = []
remove_file p ((q, c) ∷ l) =
    let rest = remove_file p l in if bytes_eq q p then rest else (q, c) ∷ rest

unfoldable pub write_file : Bytes → Bytes → List (Bytes × Bytes) → List (Bytes × Bytes)
unfolding remove_file
write_file p c l = (p, c) ∷ remove_file p l
