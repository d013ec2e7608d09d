-- ===== src/Evict/Scan/Walk.antt =====
-- The loops of src/evict.rs over a stack of directories, as one recursion over the tree.
use git_cache_proxy.Base.{
  ℕ, zero, suc, ◌≤◌, Bytes, List, [], ◌∷◌, ◌++◌, Bool, true, false, if◌then◌else◌, length,
  length-append, append_assoc, append-nil, ◌≡◌, refl, ap, ◌∙◌, arith, Bool-cases, inl, inr,
}
use git_cache_proxy.FilePath.{path_join}
use git_cache_proxy.Evict.Scan.{
  Listing, Dir, regular, special, folder, unknown, no_entries, entry, push_dirs, count_dirs, walk,
}

length-guarded :
    (b c : Bool) (d : Dir) (inner : List Dir) (n : ℕ)
    → length inner ≤ n
    → length (if b then [] else d ∷ (if c then [] else inner)) ≤ suc n
length-guarded true c d inner n h = omega arith
length-guarded false true d inner n h = omega arith
length-guarded false false d inner n h = omega (arith, h)

module _ {A : Type 0} (visit : Dir → A → A) (stops : Dir → Bool) (skip : Bytes → Bool) where
  -- The directories that are visited below a listing, the last entry's first.
  abbrev pub below : Bytes → Listing → List Dir
  below path no_entries = []
  below path (entry name (regular n t) l) = below path l
  below path (entry name (special b n t) l) = below path l
  below path (entry name unknown l) = below path l
  below path (entry name (folder r es) l) =
      let rest = below path l in
      let inner = below (path_join path name) es in
      rest
      ++ (if skip name
          then []
          else (path_join path name, (r, es))
            ∷ (if stops (path_join path name, (r, es)) then [] else inner))

  abbrev pub visited : Dir → List Dir
  visited (path, (r, es)) =
      let inner = below path es in (path, (r, es)) ∷ (if stops (path, (r, es)) then [] else inner)

  abbrev pub all_visited : List Dir → List Dir
  all_visited [] = []
  all_visited (d ∷ stack) = visited d ++ all_visited stack

  abbrev pub visit_all : List Dir → A → A
  visit_all [] acc = acc
  visit_all (d ∷ ds) acc = visit_all ds (visit d acc)

  pub visit_all-append :
      (ds es : List Dir) (acc : A) → visit_all (ds ++ es) acc ≡ visit_all es (visit_all ds acc)
  visit_all-append [] es acc = refl
  visit_all-append (d ∷ ds) es acc = visit_all-append ds es (visit d acc)

  visited-push :
      (path : Bytes) (l : Listing) (stack : List Dir)
      → all_visited (push_dirs skip path l stack) ≡ below path l ++ all_visited stack
  unfolding push_dirs
  visited-push path no_entries stack = refl
  visited-push path (entry name (regular n t) l) stack = visited-push path l stack
  visited-push path (entry name (special b n t) l) stack = visited-push path l stack
  visited-push path (entry name unknown l) stack = visited-push path l stack
  visited-push path (entry name (folder r es) l) stack = elim (Bool-cases (skip name)) [
    | inl e ↦ rw e (visited-push path l stack ∙ simp append_assoc)
    | inr e ↦
        rw e (visited-push path l ((path_join path name, (r, es)) ∷ stack) ∙ simp append_assoc)
  ]

  below-count : (path : Bytes) (l : Listing) → length (below path l) ≤ count_dirs l
  below-count path no_entries = omega arith
  below-count path (entry name (regular n t) l) = below-count path l
  below-count path (entry name (special b n t) l) = below-count path l
  below-count path (entry name unknown l) = below-count path l
  below-count path (entry name (folder r es) l) =
      let d : Dir = (path_join path name, (r, es)) in
      let inner : List Dir = below (path_join path name) es in
      let all =
        length-append (below path l)
          (if skip name then [] else d ∷ (if stops d then [] else inner)) in
      let first = below-count path l in
      let second =
        length-guarded (skip name) (stops d) d inner (count_dirs es)
          (below-count (path_join path name) es) in
      omega (arith, all, first, second)

  visited-count :
      (path : Bytes) (r : Bool) (es : Listing)
      → length (visited (path, (r, es))) ≤ suc (count_dirs es)
  visited-count path r es =
      length-guarded false (stops (path, (r, es))) (path, (r, es)) (below path es) (count_dirs es)
        (below-count path es)

  pub walk_lem :
      (f : ℕ) (stack : List Dir) (acc : A)
      → length (all_visited stack) ≤ f
      → walk visit stops skip f stack acc ≡ visit_all (all_visited stack) acc
  unfolding walk
  walk_lem zero [] acc h = refl
  walk_lem zero (d ∷ stack) acc h = absurd (omega (arith, h))
  walk_lem (suc f) [] acc h = refl
  walk_lem (suc f) ((path, (r, es)) ∷ stack) acc h = elim (Bool-cases (stops (path, (r, es)))) [
    | inl e ↦ rw e (walk_lem f stack (visit (path, (r, es)) acc) (ground (arith, e, h)))
    | inr e ↦
        let pushed = visited-push path es stack in
        rw e (
          walk_lem f (push_dirs skip path es stack) (visit (path, (r, es)) acc)
            (ground (arith, e, h, pushed))
          ∙ ap (λ ds. visit_all ds (visit (path, (r, es)) acc)) pushed)
  ]

  -- From one directory, with fuel for each directory below it and more.
  pub walk-one :
      (path : Bytes) (r : Bool) (es : Listing) (acc : A)
      → walk visit stops skip (suc (suc (count_dirs es))) ((path, (r, es)) ∷ []) acc
        ≡ visit_all (visited (path, (r, es))) acc
  walk-one path r es acc =
      walk_lem (suc (suc (count_dirs es))) ((path, (r, es)) ∷ []) acc
        (omega (arith, length-append (visited (path, (r, es))) [], visited-count path r es))
      ∙ ap (λ ds. visit_all ds acc) (append-nil (visited (path, (r, es))))
