-- ===== src/Lfs/Downloads/Parts.antt =====
-- Runs of moves for the parts of a download of src/lfs.rs: the chunks, the hash and the rename.
use git_cache_proxy.Base.{
  ℕ, Bytes, bytes_eq, bytes_eq_iff, bytes_eq_refl, ◌∷◌, ◌++◌, [], List, Bool, true, false, not,
  none, some, if◌then◌else◌, ◌≡◌, refl, sym, ap, subst, arith, inl, inr, Bool-cases, Option-cases,
}
use git_cache_proxy.Repo.{lfs_object_path, valid_lfs_oid}
use git_cache_proxy.Lfs.{
  Lfs, LfsConfig, Upstream, Disk, Stored, find_file, remove_file, write_file, tmp_path, sha256_hex,
  drop_tmp, move_into_place, verify, write_chunks,
}
use git_cache_proxy.Lfs.Files.{find-write_file}
use git_cache_proxy.Lfs.Fetch.{verify-none, verify-unread, verify-wrong, verify-right}
use git_cache_proxy.Lfs.Downloads.{
  Files, Pc, finished, writing, written, verified, dropping, append, torn, unreadable, wrong_hash,
  dropped, right_hash, not_moved, rename, Run, still, next,
}

remove-twice : (p : Bytes) (l : Files) → remove_file p (remove_file p l) ≡ remove_file p l
unfolding remove_file
remove-twice p [] = refl
remove-twice p ((q, c) ∷ l) = elim (Bool-cases (bytes_eq q p)) [
  | inl e ↦ ground (arith, e, remove-twice p l)
  | inr e ↦ ground (arith, e, remove-twice p l)
]

write-twice : (p c d : Bytes) (l : Files) → write_file p d (write_file p c l) ≡ write_file p d l
unfolding write_file remove_file
write-twice p c d l = ap (λ r. (p, d) ∷ r) (ground (arith, bytes_eq_refl p, remove-twice p l))

find-written : (p c : Bytes) (l : Files) → find_file p (write_file p c l) ≡ some c
find-written p c l = ground (arith, find-write_file p p c l, bytes_eq_refl p)

module _ (up : Upstream) (cfg : LfsConfig) (oid : Bytes) where
  pub Run-then :
      {f g h : Files} {k l m : ℕ} {p q r : Pc}
      → Run up cfg oid f k p g l q
      → Run up cfg oid g l q h m r
      → Run up cfg oid f k p h m r
  Run-then still b = b
  Run-then (next a rest) b = next a (Run-then rest b)

  -- A call whose chunks are written, or not.
  abbrev pub after_chunks : Bool → ℕ → Pc
  after_chunks true n = writing n
  after_chunks false n = dropping n

  chunk_torn :
      (disk : Disk) (x : Bytes) (xs : List Bytes) (c left : Bytes)
      → disk.write_fails (c ++ x) ≡ some left
      → write_chunks disk (x ∷ xs) c ≡ (left, false)
  unfolding write_chunks
  chunk_torn disk x xs c left e = rw (write_chunks, e) refl

  chunk_written :
      (disk : Disk) (x : Bytes) (xs : List Bytes) (c : Bytes)
      → disk.write_fails (c ++ x) ≡ none
      → write_chunks disk (x ∷ xs) c ≡ write_chunks disk xs (c ++ x)
  unfolding write_chunks
  chunk_written disk x xs c e = rw (write_chunks, e) refl

  -- A run over a file that has `c` to one where the chunks are.
  abbrev pub Writes : ℕ → ℕ → Files → Bytes → Bytes × Bool → Type 0
  Writes n k g c w =
      Run up cfg oid (write_file (tmp_path cfg n) c g) k (writing n)
        (write_file (tmp_path cfg n) w.0 g) k (after_chunks w.1 n)

  pub Run-write_chunks :
      (disk : Disk) (n k : ℕ) (g : Files) (chunks : List Bytes) (c : Bytes)
      → Writes n k g c (write_chunks disk chunks c)
  unfolding write_chunks
  Run-write_chunks disk n k g [] c = still
  Run-write_chunks disk n k g (x ∷ xs) c =
      let tmp : Bytes = tmp_path cfg n in
      elim (Option-cases (disk.write_fails (c ++ x))) [
        | inr (left, e) ↦ subst (Writes n k g c) (sym (chunk_torn disk x xs c left e)) (
            subst (λ f. Run up cfg oid (write_file tmp c g) k (writing n) f k (dropping n))
              (write-twice tmp c left g) (next (torn left) still))
        | inl e ↦ subst (Writes n k g c) (sym (chunk_written disk x xs c e)) (
            next (append x (find-written tmp c g)) (
              subst
                (λ f.
                  Run up cfg oid f k (writing n)
                    (write_file tmp (write_chunks disk xs (c ++ x)).0 g) k
                    (after_chunks (write_chunks disk xs (c ++ x)).1 n))
                (sym (write-twice tmp c (c ++ x) g)) (Run-write_chunks disk n k g xs (c ++ x))))
      ]

  -- A run to the end of a call.
  abbrev pub Ends : Files → ℕ → Pc → Lfs → Type 0
  Ends f k p r = Run up cfg oid f k p r.files r.tmp_counter finished

module _ (up : Upstream) (disk : Disk) (oid : Bytes) (well : valid_lfs_oid oid ≡ true) where
  pub Ends-if :
      (cfg : LfsConfig) (f : Files) (k : ℕ) (p : Pc) (b : Bool) (r t : Lfs)
      → Ends up cfg oid f k p r
      → Ends up cfg oid f k p t
      → Ends up cfg oid f k p (if b then r else t)
  Ends-if cfg f k p true r t a b = a
  Ends-if cfg f k p false r t a b = b

  pub Ends-either :
      (cfg : LfsConfig) (f : Files) (k : ℕ) (p : Pc) (b : Bool) (r t : Stored)
      → Ends up cfg oid f k p r.1
      → Ends up cfg oid f k p t.1
      → Ends up cfg oid f k p (if b then r else t).1
  Ends-either cfg f k p true r t a b = a
  Ends-either cfg f k p false r t a b = b

  pub after_wrong :
      (n : ℕ) (s : Lfs)
      → Ends up s.cfg oid s.files s.tmp_counter (dropping n) (drop_tmp disk (tmp_path s.cfg n) s)
  after_wrong n s =
      Ends-if s.cfg s.files s.tmp_counter (dropping n) disk.removed _ _ (next (dropped true) still)
        (next (dropped false) still)

  after_right :
      (n : ℕ) (s : Lfs) (c : Bytes)
      → find_file (tmp_path s.cfg n) s.files ≡ some c
      → Ends up s.cfg oid s.files s.tmp_counter
          (verified n)
          (move_into_place disk oid (tmp_path s.cfg n) (lfs_object_path s.cfg.cache_root oid) c s).1
  unfolding move_into_place
  after_right n s c e =
      let moved : Ends up s.cfg oid s.files s.tmp_counter (verified n) (record s {
        files =
            write_file (lfs_object_path s.cfg.cache_root oid) c
              (remove_file (tmp_path s.cfg n) s.files);
      }) =
        next (rename e) still in
      Ends-either s.cfg s.files s.tmp_counter (verified n) (not disk.shard_created) _ _
        (next not_moved still)
        (Ends-either s.cfg s.files s.tmp_counter (verified n) (not disk.renamed) _ _
          (next not_moved still)
          (Ends-if s.cfg s.files s.tmp_counter (verified n) s.cfg.has_index _ _ moved moved))

  pub Run-verify :
      (n : ℕ) (s : Lfs)
      → Ends up s.cfg oid s.files s.tmp_counter
          (written n)
          (verify up disk oid (tmp_path s.cfg n) (lfs_object_path s.cfg.cache_root oid) s).1
  Run-verify n s =
      let P : Stored → Type 0 = λ r. Ends up s.cfg oid s.files s.tmp_counter (written n) r.1 in
      elim (Option-cases (find_file (tmp_path s.cfg n) s.files)) [
        | inl e ↦ subst P (sym (verify-none up disk oid well n s e)) (next unreadable still)
        | inr (c, e) ↦ elim (Bool-cases disk.hashed) [
          | inr h ↦ subst P (sym (verify-unread up disk oid well n s c e h)) (next unreadable still)
          | inl h ↦ elim (Bool-cases (bytes_eq (sha256_hex up c) oid)) [
            | inr b ↦ subst P (sym (verify-wrong up disk oid well n s c e h b)) (
                next
                  (wrong_hash e (λ same.
                    let q = (bytes_eq_iff (sha256_hex up c) oid).1 same in absurd (cc (q, b))))
                  (after_wrong n s))
            | inl b ↦ subst P (sym (verify-right up disk oid well n s c e h b)) (
                next (right_hash e ((bytes_eq_iff (sha256_hex up c) oid).0 b))
                  (after_right n s c e))
          ]
        ]
      ]
