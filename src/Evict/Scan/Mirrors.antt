-- ===== src/Evict/Scan/Mirrors.antt =====
-- Which mirrors `find_mirrors` of src/evict.rs finds, and under which names.
use git_cache_proxy.Base.{
  All, subst, ◌%◌, Bytes, bytes_eq, bytes_eq_iff, List, [], ◌∷◌, ◌++◌, map, append_assoc,
  append-nil, Bool, true, false, some, if◌then◌else◌, u64_mod, join, split_no_sep, NoByte, ◌≡◌, ◌≢◌,
  refl, sym, ap, ◌∙◌, arith, Bool-cases, inl, inr,
}
use git_cache_proxy.FilePath.{Component, normal, components, path_join}
use git_cache_proxy.FilePath.Join.{IsPlain, components-path_join, component_eq_refl}
use git_cache_proxy.Evict.{Scanned}
use git_cache_proxy.Evict.Scan.{
  Listing, Dir, regular, special, folder, unknown, no_entries, entry, has_head, skipped,
  ends_descent, component_text, strip_components, rel_name, add_mirror, find_mirrors,
}
use git_cache_proxy.Evict.Scan.Walk.{below, visited, visit_all, visit_all-append, walk-one}
use git_cache_proxy.Evict.Scan.Totals.{total_size, newest_time, measure_lem}

-- The name of a directory entry: not empty, `.` or `..`, and without a separator.
abbrev pub IsFileName : Bytes → Type 0
IsFileName name = IsPlain name × NoByte b'/' name

-- The directories of a listing have such names, and `lossy` reads each as it is: it is UTF-8.
abbrev pub IsNamed : (Bytes → Bytes) → Listing → Type 0
IsNamed lossy no_entries = Unit {0}
IsNamed lossy (entry name (regular n t) l) = IsNamed lossy l
IsNamed lossy (entry name (special b n t) l) = IsNamed lossy l
IsNamed lossy (entry name unknown l) = IsNamed lossy l
IsNamed lossy (entry name (folder r es) l) =
    IsFileName name × (lossy name ≡ name) × IsNamed lossy es × IsNamed lossy l

abbrev pub mirror_of : List Bytes → Bool → Listing → Scanned
mirror_of names r es = record {
  name = join b'/' names;
  size = (if r then total_size es else 0) % u64_mod;
  mtime = if r then newest_time es else 0;
}

-- The mirrors below a directory that the names lead to: a directory with a `HEAD` is one, and is not
-- searched; those with a name to skip, and those that cannot be listed, are not searched either.
abbrev pub mirrors_below : List Bytes → Listing → List Scanned
mirrors_below names no_entries = []
mirrors_below names (entry name (regular n t) l) = mirrors_below names l
mirrors_below names (entry name (special b n t) l) = mirrors_below names l
mirrors_below names (entry name unknown l) = mirrors_below names l
mirrors_below names (entry name (folder r es) l) =
    let rest = mirrors_below names l in
    let inner = mirrors_below (names ++ (name ∷ [])) es in
    rest
    ++ (if skipped name
        then []
        else if has_head es
        then mirror_of (names ++ (name ∷ [])) r es ∷ []
        else if r
        then inner
        else [])

strip-append : (bs cs : List Component) → strip_components bs (bs ++ cs) ≡ some cs
unfolding strip_components
strip-append [] cs = refl
strip-append (b ∷ bs) cs = rw (component_eq_refl b) (strip-append bs cs)

rel_open :
    (lossy : Bytes → Bytes) (root path : Bytes) (cs : List Component)
    → strip_components (components root) (components path) ≡ some cs
    → rel_name lossy root path ≡ join b'/' (map (component_text lossy) cs)
unfolding rel_name
rel_open lossy root path cs e = rw (rel_name, e) refl

module _ (lossy : Bytes → Bytes) (root : Bytes) where
  abbrev is_skipped : Bytes → Bool
  is_skipped n = skipped (lossy n)

  -- The path that the names lead to from the root, and that `lossy` reads them as they are.
  abbrev Leads : List Bytes → Bytes → Type 0
  Leads names path =
      (components path ≡ components root ++ map normal names)
      × (map (component_text lossy) (map normal names) ≡ names)

  Leads-rel_name :
      (names : List Bytes) (path : Bytes)
      → Leads names path
      → rel_name lossy root path ≡ join b'/' names
  Leads-rel_name names path h =
      rel_open lossy root path (map normal names) (
        ap (strip_components (components root)) h.0
        ∙ strip-append (components root) (map normal names))
      ∙ ap (join b'/') h.1

  map-snoc :
      (names : List Bytes) (n : Bytes)
      → map normal (names ++ (n ∷ [])) ≡ map normal names ++ (normal n ∷ [])
  map-snoc [] n = refl
  map-snoc (m ∷ names) n = ap (λ l. normal m ∷ l) (map-snoc names n)

  texts-snoc :
      (names : List Bytes) (n : Bytes)
      → map (component_text lossy) (map normal (names ++ (n ∷ [])))
        ≡ map (component_text lossy) (map normal names) ++ (lossy n ∷ [])
  texts-snoc [] n = refl
  texts-snoc (m ∷ names) n = ap (λ l. lossy m ∷ l) (texts-snoc names n)

  Leads-path_join :
      (names : List Bytes) (path name : Bytes)
      → Leads names path
      → IsFileName name
      → lossy name ≡ name
      → Leads (names ++ (name ∷ [])) (path_join path name)
  Leads-path_join names path name h f utf8 =
      let one = split_no_sep b'/' name f.1 in
      (
        components-path_join path name (subst (All IsPlain) (sym one) (f.0, tt))
            ∙ (ap (λ ps. components path ++ map normal ps) one
                ∙ (ap (λ cs. cs ++ (normal name ∷ [])) h.0
                    ∙ (append_assoc (components root) (map normal names) (normal name ∷ [])
                        ∙ ap (λ cs. components root ++ cs) (sym (map-snoc names name))))),
        texts-snoc names name
            ∙ (ap (λ l. l ++ (lossy name ∷ [])) h.1 ∙ ap (λ n. names ++ (n ∷ [])) utf8),
      )

  join-ne-nil : (names : List Bytes) (n : Bytes) → n ≢ [] → join b'/' (names ++ (n ∷ [])) ≢ []
  unfolding join
  join-ne-nil [] n h e = h e
  join-ne-nil ([] ∷ []) n h e = cc e
  join-ne-nil ((c ∷ p) ∷ []) n h e = cc e
  join-ne-nil ([] ∷ q ∷ names) n h e = cc e
  join-ne-nil ((c ∷ p) ∷ q ∷ names) n h e = cc e

  abbrev Found : Type 0
  Found = List Scanned

  abbrev go : List Dir → Found → Found
  go = visit_all (add_mirror lossy root) ends_descent is_skipped

  abbrev sub_dirs : Bytes → Listing → List Dir
  sub_dirs = below (add_mirror lossy root) ends_descent is_skipped

  abbrev FoundBelow : Bytes → List Bytes → Listing → Type 0
  FoundBelow path names l = (out : Found) → go (sub_dirs path l) out ≡ out ++ mirrors_below names l

  added :
      (names : List Bytes) (path : Bytes) (r : Bool) (es : Listing) (out : Found)
      → Leads names path
      → has_head es ≡ true
      → join b'/' names ≢ []
      → add_mirror lossy root (path, (r, es)) out ≡ out ++ (mirror_of names r es ∷ [])
  unfolding add_mirror
  added names path r es out h there n =
      let named : bytes_eq (join b'/' names) [] ≡ false =
        ground (arith, n, bytes_eq_iff (join b'/' names) []) in
      rw (add_mirror, Leads-rel_name names path h, measure_lem path r es, there, named) refl

  not_added :
      (path : Bytes) (r : Bool) (es : Listing) (out : Found)
      → has_head es ≡ false
      → add_mirror lossy root (path, (r, es)) out ≡ out
  unfolding add_mirror
  not_added path r es out none_there = rw (add_mirror, none_there) refl

  headless :
      (path : Bytes) (names : List Bytes) (r : Bool) (es : Listing) (out : Found)
      → has_head es ≡ false
      → FoundBelow path names es
      → go (visited (add_mirror lossy root) ends_descent is_skipped (path, (r, es))) out
        ≡ out
          ++ (if has_head es
              then mirror_of names r es ∷ []
              else if r
              then mirrors_below names es
              else [])
  headless path names true es out e ih =
      rw e (ap (go (sub_dirs path es)) (not_added path true es out e) ∙ ih out)
  headless path names false es out e ih =
      rw e (not_added path false es out e ∙ sym (append-nil out))

  visited_lem :
      (path : Bytes) (names : List Bytes) (r : Bool) (es : Listing) (out : Found)
      → Leads names path
      → join b'/' names ≢ []
      → FoundBelow path names es
      → go (visited (add_mirror lossy root) ends_descent is_skipped (path, (r, es))) out
        ≡ out
          ++ (if has_head es
              then mirror_of names r es ∷ []
              else if r
              then mirrors_below names es
              else [])
  visited_lem path names r es out h n ih = elim (Bool-cases (has_head es)) [
    | inl there ↦ rw there (added names path r es out h there n)
    | inr none_there ↦ headless path names r es out none_there ih
  ]

  one_more :
      (ds new : List Dir) (b : Bool) (m n out : Found)
      → go ds out ≡ out ++ m
      → go new (out ++ m) ≡ (out ++ m) ++ n
      → go (ds ++ (if b then [] else new)) out ≡ out ++ (m ++ (if b then [] else n))
  one_more ds new true m n out h k =
      visit_all-append (add_mirror lossy root) ends_descent is_skipped ds [] out
      ∙ (h ∙ ap (λ l. out ++ l) (sym (append-nil m)))
  one_more ds new false m n out h k =
      visit_all-append (add_mirror lossy root) ends_descent is_skipped ds new out
      ∙ (ap (go new) h ∙ (k ∙ append_assoc out m n))

  FoundBelow-lem :
      (path : Bytes) (names : List Bytes) (l : Listing)
      → Leads names path
      → IsNamed lossy l
      → FoundBelow path names l
  FoundBelow-lem path names no_entries h k out = sym (append-nil out)
  FoundBelow-lem path names (entry name (regular n t) l) h k out =
      FoundBelow-lem path names l h k out
  FoundBelow-lem path names (entry name (special b n t) l) h k out =
      FoundBelow-lem path names l h k out
  FoundBelow-lem path names (entry name unknown l) h k out = FoundBelow-lem path names l h k out
  FoundBelow-lem path names (entry name (folder r es) l) h (f, utf8, inner, k) out =
      let at = Leads-path_join names path name h f utf8 in
      let sub = path_join path name in
      let longer : List Bytes = names ++ (name ∷ []) in
      subst
        (λ n.
          go (sub_dirs path (entry name (folder r es) l)) out
          ≡ out
            ++ (mirrors_below names l
                ++ (if skipped n
                    then []
                    else if has_head es
                    then mirror_of longer r es ∷ []
                    else if r
                    then mirrors_below longer es
                    else [])))
        utf8
        (one_more (sub_dirs path l)
          (visited (add_mirror lossy root) ends_descent is_skipped (sub, (r, es))) (is_skipped name)
          (mirrors_below names l)
          (if has_head es
            then mirror_of longer r es ∷ []
            else if r
            then mirrors_below longer es
            else [])
          out (FoundBelow-lem path names l h k out)
          (visited_lem sub longer r es (out ++ mirrors_below names l) at
            (join-ne-nil names name f.0.0) (FoundBelow-lem sub longer es at inner)))

-- The scan of the cache root with an explicit stack finds what one recursion over the tree finds,
-- where the root can be listed, has no `HEAD` itself, and the directories have names without a
-- separator that are UTF-8, so that `lossy` reads them as they are: the mirrors that no skipped
-- directory and no other mirror holds, each under the names that lead to it, with the sum of the sizes
-- of its files as a `u64` and the newest of their times.
pub find_mirrors_lem :
    (lossy : Bytes → Bytes) (root : Bytes) (es : Listing)
    → IsNamed lossy es
    → has_head es ≡ false
    → find_mirrors lossy (root, (true, es)) ≡ mirrors_below [] es
unfolding find_mirrors
find_mirrors_lem lossy root es named no_head =
    walk-one (add_mirror lossy root) ends_descent (is_skipped lossy root) root true es []
    ∙ (headless lossy root root [] true es [] no_head
          (FoundBelow-lem lossy root root [] es (sym (append-nil (components root)), refl) named)
        ∙ ap (λ b. if b then mirror_of [] true es ∷ [] else mirrors_below [] es) no_head)
