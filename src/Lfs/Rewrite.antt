-- ===== src/Lfs/Rewrite.antt =====
-- What the client sees of a download action after `rewrite_download_hrefs` of src/lfs.rs.
use git_cache_proxy.Base.{
  Bytes, codes, bytes_eq, bytes_eq_refl, List, map, true, Option, none, some, if◌then◌else◌, ◌≡◌,
  refl, ap, ◌∙◌, arith, Option-cases, inl, inr,
}
use git_cache_proxy.Json.{Json}
use git_cache_proxy.Lfs.Batch.{
  object_url, str_at, array_at, update_at, bearer, rewrite_download, size_of, rewrite_object,
  rewrite_objects, rewrite_download_hrefs, action_of,
}

module _ (json : Json) where
  open json use {
    Value, as_str, as_array, array, string, get, insert, remove, is_object, get-insert, get-remove,
    get-is_object, insert-is_object, as_array-array,
  }

  get-update_at :
      (k j : Bytes) (f : Value → Value) (v w : Value)
      → get k v ≡ some w
      → get j (update_at json k f v) ≡ (if bytes_eq k j then some (f w) else get j v)
  unfolding update_at
  get-update_at k j f v w e = ground (arith, e, get-insert k j (f w) v, get-is_object k v w e)

  -- The header that a client is told to send: the proxy's own token, or none.
  abbrev pub own_header : Option Bytes → Option Value
  own_header none = none
  own_header (some token) = some (bearer json token)

  get-rewrite_download :
      (href : Bytes) (token : Option Bytes) (d : Value) (j : Bytes)
      → is_object d ≡ true
      → get j (rewrite_download json href token d) ≡ (
          if bytes_eq (codes "header") j
          then own_header token
          else if bytes_eq (codes "href") j
          then some (string href)
          else get j d)
  unfolding rewrite_download
  get-rewrite_download href none d j h = ground (
    arith,
    h,
    insert-is_object (codes "href") (string href) d,
    get-insert (codes "href") j (string href) d,
    get-remove (codes "header") j (insert (codes "href") (string href) d),
  )
  get-rewrite_download href (some token) d j h = ground (
    arith,
    h,
    insert-is_object (codes "href") (string href) d,
    get-insert (codes "href") j (string href) d,
    get-insert (codes "header") j (bearer json token) (insert (codes "href") (string href) d),
  )

  here : (k : Bytes) (w : Value) (o : Option Value) → (if bytes_eq k k then some w else o) ≡ some w
  here k w o = rw (bytes_eq_refl k) refl

  array_found : (k : Bytes) (v w : Value) → get k v ≡ some w → array_at json k v ≡ as_array w
  array_found k v w e = rw (array_at, e) refl

  hrefs_open :
      (base repo : Bytes) (token : Option Bytes) (v : Value)
      → rewrite_download_hrefs json base repo token v
        ≡ update_at json (codes "objects") (rewrite_objects json base repo token) v
  unfolding rewrite_download_hrefs
  hrefs_open base repo token v = refl

  rewrite-some :
      (base repo oid : Bytes) (token : Option Bytes) (obj : Value)
      → str_at json (codes "oid") obj ≡ some oid
      → rewrite_object json base repo token obj
        ≡ update_at json
            (codes "actions")
            (update_at json
              (codes "download")
              (rewrite_download json (object_url base repo oid (size_of json obj)) token))
            obj
  unfolding rewrite_object
  rewrite-some base repo oid token obj o = rw (rewrite_object, o) refl

  rewrite-array :
      (base repo : Bytes) (token : Option Bytes) (w : Value) (l : List Value)
      → as_array w ≡ some l
      → rewrite_objects json base repo token w ≡ array (map (rewrite_object json base repo token) l)
  unfolding rewrite_objects
  rewrite-array base repo token w l e = rw (rewrite_objects, e) refl

  elements :
      (v w : Value) (l : List Value)
      → get (codes "objects") v ≡ some w
      → array_at json (codes "objects") v ≡ some l
      → as_array w ≡ some l
  elements v w l at e = ground (arith, e, at)

  rewrite-action :
      (base repo oid : Bytes) (token : Option Bytes) (obj actions d : Value)
      → str_at json (codes "oid") obj ≡ some oid
      → get (codes "actions") obj ≡ some actions
      → get (codes "download") actions ≡ some d
      → action_of json (rewrite_object json base repo token obj)
        ≡ some (rewrite_download json (object_url base repo oid (size_of json obj)) token d)
  rewrite-action base repo oid token obj actions d o a e =
      let url : Bytes = object_url base repo oid (size_of json obj) in
      let edit : Value → Value =
        update_at json (codes "download") (rewrite_download json url token) in
      let outer : get (codes "actions") (rewrite_object json base repo token obj)
          ≡ some (edit actions) =
        ap (get (codes "actions")) (rewrite-some base repo oid token obj o)
        ∙ (get-update_at (codes "actions") (codes "actions") edit obj actions a
            ∙ here (codes "actions") (edit actions) (get (codes "actions") obj)) in
      let inner : get (codes "download") (edit actions) ≡ some (rewrite_download json url token d) =
        get-update_at (codes "download") (codes "download") (rewrite_download json url token)
          actions d e
        ∙ here (codes "download") (rewrite_download json url token d)
            (get (codes "download") actions) in
      rw (action_of, outer) inner

  rewrite-objects :
      (base repo : Bytes) (token : Option Bytes) (v : Value) (l : List Value)
      → array_at json (codes "objects") v ≡ some l
      → array_at json (codes "objects") (rewrite_download_hrefs json base repo token v)
        ≡ some (map (rewrite_object json base repo token) l)
  rewrite-objects base repo token v l e = elim (Option-cases (get (codes "objects") v)) [
    | inl n ↦ absurd (ground (arith, e, n))
    | inr (w, at) ↦
        let listed : as_array w ≡ some l = elements v w l at e in
        let edited =
          get-update_at (codes "objects") (codes "objects") (rewrite_objects json base repo token) v
            w at in
        let whole : rewrite_objects json base repo token w
            ≡ array (map (rewrite_object json base repo token) l) =
          rewrite-array base repo token w l listed in
        ap (array_at json (codes "objects")) (hrefs_open base repo token v)
        ∙ (array_found (codes "objects")
              (update_at json (codes "objects") (rewrite_objects json base repo token) v)
              (rewrite_objects json base repo token w)
              (edited
                ∙ here (codes "objects") (rewrite_objects json base repo token w)
                    (get (codes "objects") v))
            ∙ (ap as_array whole ∙ as_array-array (map (rewrite_object json base repo token) l)))
  ]

  -- The client's view of a document of the upstream: it has the objects in their order, and where an
  -- object with an oid has a download action, that action has the URL of this proxy with the size,
  -- and as its header the proxy's own token or none, so never a credential of the upstream; all
  -- else in the action is as it was.
  pub rewritten_action :
      (base repo oid : Bytes) (token : Option Bytes) (v obj actions d : Value) (l : List Value)
      (j : Bytes)
      → array_at json (codes "objects") v ≡ some l
      → str_at json (codes "oid") obj ≡ some oid
      → get (codes "actions") obj ≡ some actions
      → get (codes "download") actions ≡ some d
      → is_object d ≡ true
      → (array_at json (codes "objects") (rewrite_download_hrefs json base repo token v)
          ≡ some (map (rewrite_object json base repo token) l))
        × ((e : Value) × (action_of json (rewrite_object json base repo token obj) ≡ some e)
            × (get j e ≡ (
                if bytes_eq (codes "header") j
                then own_header token
                else if bytes_eq (codes "href") j
                then some (string (object_url base repo oid (size_of json obj)))
                else get j d)))
  rewritten_action base repo oid token v obj actions d l j listed o a e is =
      let url : Bytes = object_url base repo oid (size_of json obj) in
      (
        rewrite-objects base repo token v l listed,
        (
          rewrite_download json url token d,
          rewrite-action base repo oid token obj actions d o a e,
          get-rewrite_download url token d j is,
        ),
      )
