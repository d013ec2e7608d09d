-- ===== src/Lfs/Downloads.antt =====
-- The downloads of src/lfs.rs that run at the same time: each await is a point where other tasks act,
-- so one call of `ensure_object` is a sequence of moves, and the moves of all calls interleave in any
-- order, with those of the task that evicts objects. Task `i` asks for the object `oid i`.
pub mod Apart
pub mod Moves
pub mod Invariant
pub mod Safety
pub mod Locks
pub mod Parts
pub mod Fetches
pub mod Alone
mod Tests
use git_cache_proxy.Base.{
  ℕ, suc, zero, ◌+◌, ◌%◌, u64_mod, Bytes, List, ◌∷◌, ◌++◌, [], Bool, true, false, Option, none,
  some, if◌then◌else◌, is_some, ◌==◌, ◌≡◌, ◌≢◌, bytes_eq,
}
use git_cache_proxy.Repo.{lfs_object_path, valid_lfs_oid}
use git_cache_proxy.Lfs.{
  LfsConfig, Upstream, find_file, remove_file, write_file, tmp_path, sha256_hex,
}

abbrev pub Files : Type 0
Files = List (Bytes × Bytes)

-- Where a call stands: before it holds the lock of its object; with it; with the number of its
-- temporary file; with the file open, closed, and found to have the right hash; about to remove it
-- after a failure; and at its end.
pub data Pc : Type 0 where
  waiting locked finished : Pc
  named writing written verified dropping : ℕ → Pc

abbrev pub holds : Pc → Bool
holds waiting = false
holds finished = false
holds locked = true
holds (named n) = true
holds (writing n) = true
holds (written n) = true
holds (verified n) = true
holds (dropping n) = true

-- The number of the temporary file of a call.
abbrev pub number_of : Pc → Option ℕ
number_of waiting = none
number_of locked = none
number_of finished = none
number_of (named n) = some n
number_of (writing n) = some n
number_of (written n) = some n
number_of (verified n) = some n
number_of (dropping n) = some n

abbrev pub after_drop : Bool → Bytes → Files → Files
after_drop removed tmp f = if removed then remove_file tmp f else f

-- A move of a call for `oid`: the files, the counter and its place before and after. A call may end by
-- an error after each await; what the disk was asked for when a client goes away is done or is not.
pub data Move (up : Upstream) (cfg : LfsConfig) (oid : Bytes)
    : Files → ℕ → Pc → Files → ℕ → Pc → Type 0 where
  hit :
      {f : Files} {k : ℕ}
      → is_some (find_file (lfs_object_path cfg.cache_root oid) f) ≡ true
      → Move up cfg oid f k waiting f k finished
  hit_locked :
      {f : Files} {k : ℕ}
      → is_some (find_file (lfs_object_path cfg.cache_root oid) f) ≡ true
      → Move up cfg oid f k locked f k finished
  -- the client is gone, at any await
  cancelled : {f : Files} {k : ℕ} {p : Pc} → Move up cfg oid f k p f k finished
  no_action : {f : Files} {k : ℕ} → Move up cfg oid f k locked f k finished
  number : {f : Files} {k : ℕ} → Move up cfg oid f k locked f ((k + 1) % u64_mod) (named k)
  no_answer : {f : Files} {k n : ℕ} → Move up cfg oid f k (named n) f k (dropping n)
  create :
      {f : Files} {k n : ℕ}
      → Move up cfg oid f k (named n) (write_file (tmp_path cfg n) [] f) k (writing n)
  append :
      {f : Files} {k n : ℕ} {c : Bytes}
      → (chunk : Bytes) → find_file (tmp_path cfg n) f ≡ some c
      → Move up cfg oid f k (writing n) (write_file (tmp_path cfg n) (c ++ chunk) f) k (writing n)
  broken : {f : Files} {k n : ℕ} → Move up cfg oid f k (writing n) f k (dropping n)
  torn :
      {f : Files} {k n : ℕ}
      → (left : Bytes)
      → Move up cfg oid f k (writing n) (write_file (tmp_path cfg n) left f) k (dropping n)
  flush : {f : Files} {k n : ℕ} → Move up cfg oid f k (writing n) f k (written n)
  unreadable : {f : Files} {k n : ℕ} → Move up cfg oid f k (written n) f k finished
  wrong_hash :
      {f : Files} {k n : ℕ} {c : Bytes}
      → find_file (tmp_path cfg n) f ≡ some c
      → sha256_hex up c ≢ oid
      → Move up cfg oid f k (written n) f k (dropping n)
  dropped :
      {f : Files} {k n : ℕ}
      → (removed : Bool)
      → Move up cfg oid f k (dropping n) (after_drop removed (tmp_path cfg n) f) k finished
  right_hash :
      {f : Files} {k n : ℕ} {c : Bytes}
      → find_file (tmp_path cfg n) f ≡ some c
      → sha256_hex up c ≡ oid
      → Move up cfg oid f k (written n) f k (verified n)
  not_moved : {f : Files} {k n : ℕ} → Move up cfg oid f k (verified n) f k finished
  rename :
      {f : Files} {k n : ℕ} {c : Bytes}
      → find_file (tmp_path cfg n) f ≡ some c
      → Move up cfg oid f k
          (verified n)
          (write_file (lfs_object_path cfg.cache_root oid) c (remove_file (tmp_path cfg n) f))
          k
          finished

-- Moves of one call, with nothing in between.
pub data Run (up : Upstream) (cfg : LfsConfig) (oid : Bytes)
    : Files → ℕ → Pc → Files → ℕ → Pc → Type 0 where
  still : {f : Files} {k : ℕ} {p : Pc} → Run up cfg oid f k p f k p
  next :
      {f g h : Files} {k l m : ℕ} {p q r : Pc}
      → Move up cfg oid f k p g l q
      → Run up cfg oid g l q h m r
      → Run up cfg oid f k p h m r

-- `slots` has the lock of each object that was asked for, `locks` the number of the next lock, `held`
-- the locks that are taken, and `got` the lock that a call got from the map.
pub record System : Type 0 where
  pub files : Files
  pub counter : ℕ
  pub slots : List (Bytes × ℕ)
  pub locks : ℕ
  pub held : ℕ → Bool
  pub got : ℕ → Option ℕ
  pub pc : ℕ → Pc

abbrev pub place {ℓ} : {A : Type ℓ} → (ℕ → A) → ℕ → A → ℕ → A
place f i p j = if i == j then p else f j

unfoldable pub slot_at : Bytes → List (Bytes × ℕ) → Option ℕ
slot_at oid [] = none
slot_at oid ((k, l) ∷ rest) = if bytes_eq k oid then some l else slot_at oid rest

-- The lock of an object, with the map and the number of the next lock: a new lock for an object that
-- has none.
unfoldable pub or_insert : Option ℕ → Bytes → List (Bytes × ℕ) → ℕ → ℕ × List (Bytes × ℕ) × ℕ
or_insert (some l) oid slots locks = (l, slots, locks)
or_insert none oid slots locks = (locks, (oid, locks) ∷ slots, suc locks)

unfoldable pub get_slot : Bytes → List (Bytes × ℕ) → ℕ → ℕ × List (Bytes × ℕ) × ℕ
unfolding or_insert
get_slot oid slots locks = or_insert (slot_at oid slots) oid slots locks

unfoldable pub ask : (ℕ → Bytes) → ℕ → System → System
unfolding get_slot
ask oid i s =
    let (l, slots, locks) = get_slot (oid i) s.slots s.locks in
    record s { slots = slots; locks = locks; got = place s.got i (some l) }

-- A call that held its lock and does no longer gives it up: its guard is dropped with the call.
unfoldable pub give_up : Bool → Bool → Option ℕ → (ℕ → Bool) → ℕ → Bool
give_up true false (some l) held = place held l false
give_up true false none held = held
give_up true true o held = held
give_up false b o held = held

-- A call gets the lock of its object from the map, and takes it when it is free.
pub data Step (up : Upstream) (cfg : LfsConfig) (oid : ℕ → Bytes) : System → System → Type 0 where
  ask_slot :
      {s : System} (i : ℕ) → s.pc i ≡ waiting → s.got i ≡ none → Step up cfg oid s (ask oid i s)
  acquire :
      {s : System} (i l : ℕ)
      → s.pc i ≡ waiting
      → s.got i ≡ some l
      → s.held l ≡ false
      → Step up cfg oid s (record s { held = place s.held l true; pc = place s.pc i locked })
  proceed :
      {s : System} (i : ℕ) {f : Files} {k : ℕ} {p : Pc}
      → Move up cfg (oid i) s.files s.counter (s.pc i) f k p
      → Step up cfg oid s (record s {
        files = f;
        counter = k;
        held = give_up (holds (s.pc i)) (holds p) (s.got i) s.held;
        pc = place s.pc i p;
      })
  evict :
      {s : System} (k : Bytes)
      → valid_lfs_oid k ≡ true
      → Step up cfg oid s
          (record s { files = remove_file (lfs_object_path cfg.cache_root k) s.files })

-- The states that are reached, with the number of steps.
pub data Reach (up : Upstream) (cfg : LfsConfig) (oid : ℕ → Bytes) (init : System)
    : ℕ → System → Type 0 where
  initial : Reach up cfg oid init 0 init
  after :
      {n : ℕ} {s t : System}
      → Reach up cfg oid init n s
      → Step up cfg oid s t
      → Reach up cfg oid init (suc n) t

-- The state of a process that has just started.
abbrev pub quiet : Files → System
quiet f = record {
  files = f;
  counter = 0;
  slots = [];
  locks = 0;
  held = λ l. false;
  got = λ i. none;
  pc = λ i. waiting;
}
