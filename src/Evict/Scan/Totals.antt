-- ===== src/Evict/Scan/Totals.antt =====
-- What `measure` of src/evict.rs adds up.
use git_cache_proxy.Base.{
  ℕ, ◌+◌, ◌%◌, Bytes, List, Bool, true, false, Option, none, some, if◌then◌else◌, ltb, add64,
  add64_lem, u64_mod, ◌≡◌, refl, sym, ap, ◌∙◌, arith,
}
use git_cache_proxy.FilePath.{path_join}
use git_cache_proxy.Evict.Scan.{
  Listing, Dir, regular, special, folder, unknown, no_entries, entry, later, add_files, unlistable,
  measure_dir, measure,
}
use git_cache_proxy.Evict.Scan.Walk.{below, visited, visit_all, visit_all-append, walk-one}

abbrev pub larger : ℕ → ℕ → ℕ
larger a b = if ltb a b then b else a

-- The sum of the sizes of all files below a listing, in the directories that can be listed.
abbrev pub total_size : Listing → ℕ
total_size no_entries = 0
total_size (entry name (regular n t) l) = n + total_size l
total_size (entry name (special b n t) l) = n + total_size l
total_size (entry name unknown l) = total_size l
total_size (entry name (folder r es) l) =
    let inner = total_size es in (if r then inner else 0) + total_size l

-- The newest time of these files, zero if there is none.
abbrev pub newest_time : Listing → ℕ
newest_time no_entries = 0
newest_time (entry name (regular n t) l) = later t (newest_time l)
newest_time (entry name (special b n t) l) = later t (newest_time l)
newest_time (entry name unknown l) = newest_time l
newest_time (entry name (folder r es) l) =
    let inner = newest_time es in larger (if r then inner else 0) (newest_time l)

-- The same for the files of the listing itself, and for those in its directories.
abbrev direct_size : Listing → ℕ
direct_size no_entries = 0
direct_size (entry name (regular n t) l) = n + direct_size l
direct_size (entry name (special b n t) l) = n + direct_size l
direct_size (entry name unknown l) = direct_size l
direct_size (entry name (folder r es) l) = direct_size l

abbrev deeper_size : Listing → ℕ
deeper_size no_entries = 0
deeper_size (entry name (regular n t) l) = deeper_size l
deeper_size (entry name (special b n t) l) = deeper_size l
deeper_size (entry name unknown l) = deeper_size l
deeper_size (entry name (folder r es) l) =
    let inner = direct_size es + deeper_size es in deeper_size l + (if r then inner else 0)

abbrev direct_time : Listing → ℕ
direct_time no_entries = 0
direct_time (entry name (regular n t) l) = later t (direct_time l)
direct_time (entry name (special b n t) l) = later t (direct_time l)
direct_time (entry name unknown l) = direct_time l
direct_time (entry name (folder r es) l) = direct_time l

abbrev deeper_time : Listing → ℕ
deeper_time no_entries = 0
deeper_time (entry name (regular n t) l) = deeper_time l
deeper_time (entry name (special b n t) l) = deeper_time l
deeper_time (entry name unknown l) = deeper_time l
deeper_time (entry name (folder r es) l) =
    let inner = larger (direct_time es) (deeper_time es) in
    larger (deeper_time l) (if r then inner else 0)

total-split : (l : Listing) → total_size l ≡ direct_size l + deeper_size l
total-split no_entries = refl
total-split (entry name (regular n t) l) = omega (arith, total-split l)
total-split (entry name (special b n t) l) = omega (arith, total-split l)
total-split (entry name unknown l) = total-split l
total-split (entry name (folder true es) l) = omega (arith, total-split l, total-split es)
total-split (entry name (folder false es) l) = omega (arith, total-split l)

larger-later : (t : Option ℕ) (a b : ℕ) → later t (larger a b) ≡ larger (later t a) b
larger-later none a b = refl
larger-later (some t) a b = ground arith

later-larger : (t : Option ℕ) (a b : ℕ) → larger (later t a) b ≡ larger a (later t b)
later-larger none a b = refl
later-larger (some t) a b = ground arith

larger_assoc : (a b c : ℕ) → larger (larger a b) c ≡ larger a (larger b c)
larger_assoc a b c = ground arith

larger_comm : (a b : ℕ) → larger a b ≡ larger b a
larger_comm a b = ground arith

larger_zero : (a : ℕ) → larger a 0 ≡ a
larger_zero a = ground arith

newest-split : (l : Listing) → newest_time l ≡ larger (direct_time l) (deeper_time l)
newest-split no_entries = refl
newest-split (entry name (regular n t) l) =
    ap (later t) (newest-split l) ∙ larger-later t (direct_time l) (deeper_time l)
newest-split (entry name (special b n t) l) =
    ap (later t) (newest-split l) ∙ larger-later t (direct_time l) (deeper_time l)
newest-split (entry name unknown l) = newest-split l
newest-split (entry name (folder true es) l) =
    larger_comm (newest_time es) (newest_time l)
    ∙ (ap (λ n. larger n (newest_time es)) (newest-split l)
        ∙ (ap (larger (larger (direct_time l) (deeper_time l))) (newest-split es)
            ∙ larger_assoc (direct_time l) (deeper_time l)
                (larger (direct_time es) (deeper_time es))))
newest-split (entry name (folder false es) l) =
    larger_comm 0 (newest_time l)
    ∙ (larger_zero (newest_time l)
        ∙ (newest-split l ∙ ap (larger (direct_time l)) (sym (larger_zero (deeper_time l)))))

same_pair : (a b c d : ℕ) → a ≡ b → c ≡ d → ◌≡◌ {A = ℕ × ℕ} (a, c) (b, d)
same_pair a b c d e f = cc

add_file :
    (l : Listing) (s m n : ℕ) (t : Option ℕ)
    → add_files l ((s + n) % u64_mod, later t m)
      ≡ ((s + n + direct_size l) % u64_mod, larger (later t m) (direct_time l))
    → add_files l (add64 (s % u64_mod) n, later t m)
      ≡ ((s + (n + direct_size l)) % u64_mod, larger m (later t (direct_time l)))
add_file l s m n t h =
    ap (λ k. add_files l (k, later t m)) (add64_lem s n)
    ∙ (h
        ∙ same_pair ((s + n + direct_size l) % u64_mod) ((s + (n + direct_size l)) % u64_mod)
            (larger (later t m) (direct_time l)) (larger m (later t (direct_time l))) (omega arith)
            (later-larger t m (direct_time l)))

add_files_lem :
    (l : Listing) (s m : ℕ)
    → add_files l (s % u64_mod, m) ≡ ((s + direct_size l) % u64_mod, larger m (direct_time l))
unfolding add_files
add_files_lem no_entries s m =
    same_pair (s % u64_mod) ((s + 0) % u64_mod) m (larger m 0) (omega arith) (sym (larger_zero m))
add_files_lem (entry name (regular n t) l) s m =
    add_file l s m n t (add_files_lem l (s + n) (later t m))
add_files_lem (entry name (special b n t) l) s m =
    add_file l s m n t (add_files_lem l (s + n) (later t m))
add_files_lem (entry name unknown l) s m = add_files_lem l s m
add_files_lem (entry name (folder r es) l) s m = add_files_lem l s m

abbrev Sums : Type 0
Sums = ℕ × ℕ

abbrev no_skip : Bytes → Bool
no_skip name = false

abbrev go : List Dir → Sums → Sums
go = visit_all measure_dir unlistable no_skip

abbrev Deeper : Bytes → Listing → Type 0
Deeper path l =
    (s m : ℕ)
    → ◌≡◌ {A = Sums} (go (below measure_dir unlistable no_skip path l) (s % u64_mod, m))
        ((s + deeper_size l) % u64_mod, larger m (deeper_time l))

visited_lem :
    (path : Bytes) (r : Bool) (es : Listing)
    → Deeper path es
    → (s m : ℕ)
    → ◌≡◌ {A = Sums}
        (go (visited measure_dir unlistable no_skip (path, (r, es))) (s % u64_mod, m))
        (
          (s + (if r then direct_size es + deeper_size es else 0)) % u64_mod,
          larger m (if r then larger (direct_time es) (deeper_time es) else 0),
        )
unfolding measure_dir
visited_lem path false es h s m =
    same_pair (s % u64_mod) ((s + 0) % u64_mod) m (larger m 0) (omega arith) (sym (larger_zero m))
visited_lem path true es h s m =
    ap (go (below measure_dir unlistable no_skip path es)) (add_files_lem es s m)
    ∙ (h (s + direct_size es) (larger m (direct_time es))
        ∙ same_pair ((s + direct_size es + deeper_size es) % u64_mod)
            ((s + (direct_size es + deeper_size es)) % u64_mod)
            (larger (larger m (direct_time es)) (deeper_time es))
            (larger m (larger (direct_time es) (deeper_time es))) (omega arith)
            (larger_assoc m (direct_time es) (deeper_time es)))

deeper_lem : (path : Bytes) (l : Listing) → Deeper path l
deeper_lem path no_entries s m =
    same_pair (s % u64_mod) ((s + 0) % u64_mod) m (larger m 0) (omega arith) (sym (larger_zero m))
deeper_lem path (entry name (regular n t) l) s m = deeper_lem path l s m
deeper_lem path (entry name (special b n t) l) s m = deeper_lem path l s m
deeper_lem path (entry name unknown l) s m = deeper_lem path l s m
deeper_lem path (entry name (folder r es) l) s m =
    let inner : ℕ = if r then direct_size es + deeper_size es else 0 in
    let time : ℕ = if r then larger (direct_time es) (deeper_time es) else 0 in
    let sub = path_join path name in
    visit_all-append measure_dir unlistable no_skip (below measure_dir unlistable no_skip path l)
      (visited measure_dir unlistable no_skip (sub, (r, es))) (s % u64_mod, m)
    ∙ (ap (go (visited measure_dir unlistable no_skip (sub, (r, es)))) (deeper_lem path l s m)
        ∙ (visited_lem sub r es (deeper_lem sub es) (s + deeper_size l) (larger m (deeper_time l))
            ∙ same_pair ((s + deeper_size l + inner) % u64_mod)
                ((s + (deeper_size l + inner)) % u64_mod) (larger (larger m (deeper_time l)) time)
                (larger m (larger (deeper_time l) time)) (omega arith)
                (larger_assoc m (deeper_time l) time)))

-- The walk of a mirror with an explicit stack gives what one recursion over the tree gives: the sum
-- of the sizes of all its files as a `u64`, and the newest of their times; nothing, where the
-- directory cannot be listed.
pub measure_lem :
    (path : Bytes) (r : Bool) (es : Listing)
    → measure (path, (r, es))
      ≡ ((if r then total_size es else 0) % u64_mod, if r then newest_time es else 0)
unfolding measure
measure_lem path r es =
    walk-one measure_dir unlistable no_skip path r es (0, 0)
    ∙ (visited_lem path r es (deeper_lem path es) 0 0
        ∙ same_pair ((0 + (if r then direct_size es + deeper_size es else 0)) % u64_mod)
            ((if r then total_size es else 0) % u64_mod)
            (larger 0 (if r then larger (direct_time es) (deeper_time es) else 0))
            (if r then newest_time es else 0)
            (ap (λ (k : ℕ). (0 + (if r then k else 0)) % u64_mod) (sym (total-split es))
              ∙ omega arith)
            (larger_comm 0 (if r then larger (direct_time es) (deeper_time es) else 0)
              ∙ (larger_zero (if r then larger (direct_time es) (deeper_time es) else 0)
                  ∙ ap (λ (k : ℕ). if r then k else 0) (sym (newest-split es)))))
