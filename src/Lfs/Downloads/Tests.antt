-- ===== src/Lfs/Downloads/Tests.antt =====
-- A download of src/lfs.rs, step by step.
use git_cache_proxy.Base.{
  Bytes, codes, ℕ, [], ◌∷◌, true, false, none, some, ◌≡◌, refl, arith, to_decimal, bytes_eq, ◌⊎◌,
}
use git_cache_proxy.FilePath.{path_join}
use git_cache_proxy.Repo.{lfs_object_path, valid_lfs_oid}
use git_cache_proxy.Lfs.{
  slot, ensure_object, LfsConfig, find_file, remove_file, write_file, tmp_path, sha256_hex,
}
use git_cache_proxy.Lfs.Samples.{
  sample_oid, sample_oid_valid, sample_upstream, sample_store, sample_json, sample_disk, alone,
  alone-same,
}
use git_cache_proxy.Lfs.Downloads.{
  Files, ask, ask_slot, get_slot, or_insert, slot_at, give_up, waiting, locked, finished, named,
  writing, written, verified, number, create, append, flush, right_hash, rename, System, place,
  Step, acquire, proceed, Reach, initial, after, quiet,
}
use git_cache_proxy.Lfs.Downloads.Apart.{object_in_files}
use git_cache_proxy.Lfs.Downloads.Parts.{Ends}
use git_cache_proxy.Lfs.Downloads.Alone.{ensure_object_moves}
use git_cache_proxy.Lfs.Downloads.Invariant.{AllGood}
use git_cache_proxy.Lfs.Downloads.Safety.{
  store_of, Change, objects_stay_good, downloads_apart, single_flight, step_changes,
}

abbrev cfg : LfsConfig
cfg = sample_store.cfg

-- Every task asks for the same object.
abbrev oid : ℕ → Bytes
oid i = sample_oid

abbrev well : (i : ℕ) → valid_lfs_oid (oid i) ≡ true
well i = sample_oid_valid

abbrev Run : ℕ → System → Type 0
Run n s = Reach sample_upstream cfg oid (quiet []) n s

abbrev asked_state : System
asked_state = record (quiet []) {
  slots = (sample_oid, 0) ∷ [];
  locks = 1;
  got = place (λ i. none) 0 (some 0);
}

asked-Run : Run 1 asked_state
unfolding ask get_slot or_insert slot_at
asked-Run = after initial (ask_slot 0 refl refl)

abbrev numbered_state : System
numbered_state = record asked_state {
  counter = 1;
  held = place asked_state.held 0 true;
  pc = place (place (λ i. waiting) 0 locked) 0 (named 0);
}

named-Run : Run 3 numbered_state
unfolding give_up
named-Run = after (after asked-Run (acquire 0 0 refl refl refl)) (proceed 0 number)

abbrev tmp : Bytes
tmp = tmp_path cfg 0

abbrev content : Bytes
content = codes "data"

abbrev tmp_files : Files
tmp_files = write_file tmp content (write_file tmp [] [])

abbrev checked_state : System
checked_state = record numbered_state {
  files = tmp_files;
  counter = 1;
  pc =
      place (place (place (place numbered_state.pc 0 (writing 0)) 0 (writing 0)) 0 (written 0)) 0
        (verified 0);
}

there : find_file tmp tmp_files ≡ some content
unfolding find_file write_file tmp_path path_join to_decimal bytes_eq
there = refl

empty : find_file tmp (write_file tmp [] []) ≡ some []
unfolding find_file write_file tmp_path path_join to_decimal bytes_eq
empty = refl

hashed : sha256_hex sample_upstream content ≡ sample_oid
unfolding sha256_hex
hashed = refl

checked-Run : Run 7 checked_state
unfolding give_up
checked-Run =
    after
      (after (after (after named-Run (proceed 0 create)) (proceed 0 (append content empty)))
        (proceed 0 flush))
      (proceed 0 (right_hash there hashed))

abbrev stored_state : System
stored_state = record checked_state {
  files =
      write_file (lfs_object_path cfg.cache_root sample_oid) content (remove_file tmp tmp_files);
  held = place checked_state.held 0 false;
  pc = place checked_state.pc 0 finished;
}

rename_step : Step sample_upstream cfg oid checked_state stored_state
unfolding give_up
rename_step = proceed 0 (rename there)

stored_there : object_in_files cfg sample_oid stored_state.files ≡ some content
unfolding find_file write_file remove_file tmp_path path_join to_decimal bytes_eq lfs_object_path
stored_there = refl

no_objects : AllGood sample_upstream cfg []
unfolding find_file
no_objects o c v e = absurd (cc e)

objects_stay_good_example : sha256_hex sample_upstream content ≡ sample_oid
objects_stay_good_example =
    objects_stay_good sample_upstream cfg oid well [] no_objects 8 (omega arith) stored_state
      (after checked-Run rename_step) sample_oid content sample_oid_valid stored_there

downloads_apart_example : ◌≡◌ {A = ℕ} 0 0
downloads_apart_example =
    downloads_apart sample_upstream cfg oid well [] no_objects 7 (omega arith) checked_state
      checked-Run 0 0 0 0 refl refl refl

single_flight_example : ◌≡◌ {A = ℕ} 0 0
single_flight_example =
    single_flight sample_upstream cfg oid [] 7 checked_state checked-Run 0 0 refl refl refl

step_changes_example :
    Change sample_upstream (store_of cfg checked_state) (store_of cfg stored_state)
step_changes_example =
    step_changes sample_upstream cfg oid well [] no_objects 7 (omega arith) checked_state
      checked-Run stored_state (omega arith) rename_step

-- The whole download of the sample, as moves.
ensure_object_moves_example :
    let r =
      (ensure_object sample_json sample_upstream sample_disk alone
        (codes "a")
        sample_oid
        (some 4)
        sample_store).1 in
    Ends sample_upstream cfg sample_oid [] 0 waiting r
    ⊎ Ends sample_upstream cfg sample_oid [] 0 locked r
unfolding slot
ensure_object_moves_example =
    ensure_object_moves sample_upstream sample_disk sample_oid sample_oid_valid sample_json
      (codes "a") alone alone-same (some 4) sample_store
