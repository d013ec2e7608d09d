-- ===== src/Lfs/Downloads/Moves.antt =====
-- What one move of a call of src/lfs.rs does to the files, and what it leaves alone.
use git_cache_proxy.Base.{
  ℕ, suc, ◌<◌, ◌≤◌, u64_mod, Bytes, bytes_eq, bytes_eq_iff, ◌++◌, [], Bool, true, Option, some, ◌≡◌,
  ◌≢◌, ◌⊎◌, refl, sym, ap, ◌∙◌, arith, inl, inr, Bool-cases,
}
use git_cache_proxy.Repo.{lfs_object_path, valid_lfs_oid}
use git_cache_proxy.Lfs.{LfsConfig, Upstream, remove_file, write_file, tmp_path, sha256_hex}
use git_cache_proxy.Lfs.Files.{find-write_file, lfs_object_path-injective, tmp-ne-object}
use git_cache_proxy.Lfs.Downloads.{
  Files, Pc, waiting, locked, finished, named, writing, written, verified, dropping, holds,
  number_of, after_drop, Move, hit, hit_locked, cancelled, no_action, number, no_answer, create,
  append, broken, torn, flush, unreadable, wrong_hash, dropped, right_hash, not_moved, rename,
}
use git_cache_proxy.Lfs.Downloads.Apart.{
  tmp_path-injective, tmp_in_files, object_in_files, object-write_tmp, object-remove_tmp,
  object-after_drop, find-write_other, find-remove_other, find-drop_other,
}

module _ (up : Upstream) (cfg : LfsConfig) where
  -- A file with a content whose hash is the oid.
  abbrev pub Good : Bytes → Option Bytes → Type 0
  Good oid o = (c : Bytes) × (o ≡ some c) × (sha256_hex up c ≡ oid)

  -- The hashed file of a call that is about to move it.
  abbrev pub Checked : Bytes → Files → Pc → Type 0
  Checked oid f p = (n : ℕ) → p ≡ verified n → Good oid (tmp_in_files cfg n f)

  pub record Facts (oid : Bytes) (f : Files) (k : ℕ) (p : Pc) (g : Files) (l : ℕ) (q : Pc)
      : Type 0 where
    pub objects :
        (o : Bytes)
        → valid_lfs_oid o ≡ true
        → (object_in_files cfg o g ≡ object_in_files cfg o f)
          ⊎ ((o ≡ oid) × Good oid (object_in_files cfg o g))
    pub others :
        (m : ℕ)
        → m < u64_mod
        → number_of p ≢ some m
        → number_of q ≢ some m
        → tmp_in_files cfg m g ≡ tmp_in_files cfg m f
    pub fresh : (n : ℕ) → number_of q ≡ some n → (number_of p ≡ some n) ⊎ ((n ≡ k) × (l ≡ suc k))
    pub grows : (k ≤ l) × (l ≤ suc k)
    pub checked : Checked oid g q

  -- A move that ends the call and leaves all files alone.
  idle-Facts : (oid : Bytes) (f : Files) (k : ℕ) (p : Pc) → Facts oid f k p f k finished
  idle-Facts oid f k p = record {
    objects = λ o v. inl refl;
    others = λ m h d e. refl;
    fresh = λ n e. absurd (cc e);
    grows = (omega arith, omega arith);
    checked = λ n e. absurd (cc e);
  }

  -- A move that only goes on.
  kept-Facts :
      (oid : Bytes) (f : Files) (k : ℕ) (p q : Pc)
      → number_of q ≡ number_of p
      → holds p ≡ true
      → ((n : ℕ) → q ≢ verified n)
      → Facts oid f k p f k q
  kept-Facts oid f k p q e held d = record {
    objects = λ o v. inl refl;
    others = λ m h d d'. refl;
    fresh = λ n e'. inl (sym e ∙ e');
    grows = (omega arith, omega arith);
    checked = λ n e'. absurd (d n e');
  }

  -- One that ends the call and may remove its own temporary file.
  drop-Facts :
      (oid : Bytes) (f : Files) (k n : ℕ) (p : Pc) (b : Bool)
      → number_of p ≡ some n
      → n < u64_mod
      → Facts oid f k p (after_drop b (tmp_path cfg n) f) k finished
  drop-Facts oid f k n p b e small = record {
    objects = λ o v. inl (object-after_drop cfg b n o f v);
    others = λ m h d _.
        find-drop_other cfg b (tmp_path cfg n) (tmp_path cfg m) f
          (λ same. d (e ∙ ap some (tmp_path-injective cfg n m small h same)));
    fresh = λ n' e'. absurd (cc e');
    grows = (omega arith, omega arith);
    checked = λ n' e'. absurd (cc e');
  }

  -- One that writes its own temporary file.
  write-Facts :
      (oid : Bytes) (f : Files) (k n : ℕ) (p q : Pc) (c : Bytes)
      → number_of p ≡ some n
      → number_of q ≡ some n
      → n < u64_mod
      → holds p ≡ true
      → ((m : ℕ) → q ≢ verified m)
      → Facts oid f k p (write_file (tmp_path cfg n) c f) k q
  write-Facts oid f k n p q c e e'' small held open_file = record {
    objects = λ o v. inl (object-write_tmp cfg n o c f v);
    others = λ m h d _.
        find-write_other cfg (tmp_path cfg n) (tmp_path cfg m) c f
          (λ same. d (e ∙ ap some (tmp_path-injective cfg n m small h same)));
    fresh = λ n' e'. inl (e ∙ (sym e'' ∙ e'));
    grows = (omega arith, omega arith);
    checked = λ n' e'. absurd (open_file n' e');
  }

  -- The rename: the content of its own file becomes the object.
  renamed :
      (oid : Bytes) (f : Files) (n : ℕ) (c o : Bytes)
      → valid_lfs_oid oid ≡ true
      → valid_lfs_oid o ≡ true
      → sha256_hex up c ≡ oid
      → let g =
          write_file (lfs_object_path cfg.cache_root oid) c (remove_file (tmp_path cfg n) f) in
        (object_in_files cfg o g ≡ object_in_files cfg o f)
        ⊎ ((o ≡ oid) × Good oid (object_in_files cfg o g))
  renamed oid f n c o well v hash =
      let final : Bytes = lfs_object_path cfg.cache_root oid in
      let here : Bytes = lfs_object_path cfg.cache_root o in
      let found = find-write_file final here c (remove_file (tmp_path cfg n) f) in
      elim (Bool-cases (bytes_eq final here)) [
        | inl e ↦
            let same =
              lfs_object_path-injective cfg.cache_root oid o well v
                ((bytes_eq_iff final here).0 e) in
            inr (sym same, (c, ground (arith, found, e), hash))
        | inr e ↦ inl (ground (arith, found, e) ∙ object-remove_tmp cfg n o f v)
      ]

  rename-Facts :
      (oid : Bytes) (f : Files) (k n : ℕ) (c : Bytes)
      → valid_lfs_oid oid ≡ true
      → n < u64_mod
      → sha256_hex up c ≡ oid
      → Facts oid f k
          (verified n)
          (write_file (lfs_object_path cfg.cache_root oid) c (remove_file (tmp_path cfg n) f))
          k
          finished
  rename-Facts oid f k n c well small hash = record {
    objects = λ o v. renamed oid f n c o well v hash;
    others = λ m h d _.
        find-write_other cfg (lfs_object_path cfg.cache_root oid) (tmp_path cfg m) c
          (remove_file (tmp_path cfg n) f) (λ same. tmp-ne-object cfg m oid well (sym same))
        ∙ find-remove_other cfg (tmp_path cfg n) (tmp_path cfg m) f
            (λ same. d (ap some (tmp_path-injective cfg n m small h same)));
    fresh = λ n' e'. absurd (cc e');
    grows = (omega arith, omega arith);
    checked = λ n' e'. absurd (cc e');
  }

  module _ (oid : Bytes) (well : valid_lfs_oid oid ≡ true) where
    pub Facts-Move :
        {f : Files} {k : ℕ} {p : Pc} {g : Files} {l : ℕ} {q : Pc}
        → suc k < u64_mod
        → ((n : ℕ) → number_of p ≡ some n → n < u64_mod)
        → Checked oid f p
        → Move up cfg oid f k p g l q
        → Facts oid f k p g l q
    Facts-Move {f} {k} room small sound (hit e) = idle-Facts oid f k waiting
    Facts-Move {f} {k} room small sound (hit_locked e) = idle-Facts oid f k locked
    Facts-Move {f} {k} {p} room small sound cancelled = idle-Facts oid f k p
    Facts-Move {f} {k} room small sound no_action = idle-Facts oid f k locked
    Facts-Move {f} {k} room small sound number = record {
      objects = λ o v. inl refl;
      others = λ m h d d'. refl;
      fresh = λ n e. inr (cc e, omega arith);
      grows = (omega arith, omega arith);
      checked = λ n e. absurd (cc e);
    }
    Facts-Move {f} {k} room small sound (no_answer {n = n}) =
        kept-Facts oid f k (named n) (dropping n) refl refl (λ m e. absurd (cc e))
    Facts-Move {f} {k} room small sound (create {n = n}) =
        write-Facts oid f k n (named n) (writing n) [] refl refl (small n refl) refl
          (λ m e. absurd (cc e))
    Facts-Move {f} {k} room small sound (append {n = n} {c = c} chunk e) =
        write-Facts oid f k n (writing n) (writing n) (c ++ chunk) refl refl (small n refl) refl
          (λ m e. absurd (cc e))
    Facts-Move {f} {k} room small sound (broken {n = n}) =
        kept-Facts oid f k (writing n) (dropping n) refl refl (λ m e. absurd (cc e))
    Facts-Move {f} {k} room small sound (torn {n = n} left) =
        write-Facts oid f k n (writing n) (dropping n) left refl refl (small n refl) refl
          (λ m e. absurd (cc e))
    Facts-Move {f} {k} room small sound (flush {n = n}) =
        kept-Facts oid f k (writing n) (written n) refl refl (λ m e. absurd (cc e))
    Facts-Move {f} {k} room small sound (unreadable {n = n}) = idle-Facts oid f k (written n)
    Facts-Move {f} {k} room small sound (wrong_hash {n = n} e d) =
        kept-Facts oid f k (written n) (dropping n) refl refl (λ m e. absurd (cc e))
    Facts-Move {f} {k} room small sound (dropped {n = n} b) =
        drop-Facts oid f k n (dropping n) b refl (small n refl)
    Facts-Move {f} {k} room small sound (right_hash {n = n} {c = c} e hash) = record {
      objects = λ o v. inl refl;
      others = λ m h d d'. refl;
      fresh = λ m e'. inl e';
      grows = (omega arith, omega arith);
      checked = λ m e'. (c, ap (λ (i : ℕ). tmp_in_files cfg i f) (cc e') ∙ e, hash);
    }
    Facts-Move {f} {k} room small sound (not_moved {n = n}) = idle-Facts oid f k (verified n)
    Facts-Move {f} {k} room small sound (rename {n = n} {c = c} e) =
        let (d, there, hash) = sound n refl in
        rename-Facts oid f k n c well (small n refl) (ap (sha256_hex up) (cc (e, there)) ∙ hash)
