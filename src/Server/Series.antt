-- ===== src/Server/Series.antt =====
-- src/metrics.rs: the families of metrics with their labels, and the series that each call counts in.
use git_cache_proxy.Base.{
  Bytes, codes, bytes_eq, List, [], ◌∷◌, Bool, true, false, not, ◌&&◌, Option, none, some,
  if◌then◌else◌, length, ◌==◌, ◌≡◌, refl, ap, sym, ◌∙◌,
}
use git_cache_proxy.Git.Mirrors.{
  CacheOutcome, cloned, fetched, cached, UpstreamOp, clone_op, fetch_op, want_fetch_op,
}
use git_cache_proxy.Server.{
  RequestKind, auth_request, receive_pack_request, info_refs_request, upload_pack_request,
  lfs_batch_request, lfs_object_request, RequestStatus, ok_status, error_status,
  upstream_error_status, rejected_status, unauthorized_status, LfsResult, lfs_hit, lfs_miss,
  lfs_error, ServeKind, serve_info_refs, serve_upload_pack,
}

unfoldable pub kind_str : RequestKind → Bytes
kind_str info_refs_request = codes "info_refs"
kind_str upload_pack_request = codes "upload_pack"
kind_str auth_request = codes "auth"
kind_str receive_pack_request = codes "receive_pack"
kind_str lfs_batch_request = codes "lfs_batch"
kind_str lfs_object_request = codes "lfs_object"

unfoldable pub status_str : RequestStatus → Bytes
status_str ok_status = codes "ok"
status_str error_status = codes "error"
status_str upstream_error_status = codes "upstream_error"
status_str unauthorized_status = codes "unauthorized"
status_str rejected_status = codes "rejected"

unfoldable pub op_str : UpstreamOp → Bytes
op_str clone_op = codes "clone"
op_str fetch_op = codes "fetch"
op_str want_fetch_op = codes "want_fetch"

unfoldable pub serve_str : ServeKind → Bytes
serve_str serve_info_refs = codes "info_refs"
serve_str serve_upload_pack = codes "upload_pack"

unfoldable pub lfs_str : LfsResult → Bytes
lfs_str lfs_hit = codes "hit"
lfs_str lfs_miss = codes "miss"
lfs_str lfs_error = codes "error"

unfoldable pub outcome_str : CacheOutcome → Bytes
outcome_str cloned = codes "cloned"
outcome_str fetched = codes "fetched"
outcome_str cached = codes "cached"

-- A family as it is registered: its name and the names of its labels.
pub record Family : Type 0 where
  pub name : Bytes
  pub labels : List Bytes

abbrev pub requests : Family
requests = record {
  name = codes "gitcacheproxy_requests_total";
  labels = codes "kind" ∷ codes "result" ∷ codes "repo" ∷ [];
}

abbrev pub upstream : Family
upstream = record {
  name = codes "gitcacheproxy_upstream_ops_total";
  labels = codes "op" ∷ codes "result" ∷ codes "repo" ∷ [];
}

abbrev pub cache_bytes : Family
cache_bytes = record { name = codes "gitcacheproxy_cache_bytes"; labels = [] }

abbrev pub cache_mirrors : Family
cache_mirrors = record { name = codes "gitcacheproxy_cache_mirrors"; labels = [] }

abbrev pub cache_max_bytes : Family
cache_max_bytes = record { name = codes "gitcacheproxy_cache_max_bytes"; labels = [] }

abbrev pub fetch_ttl_seconds : Family
fetch_ttl_seconds = record { name = codes "gitcacheproxy_fetch_ttl_seconds"; labels = [] }

abbrev pub evictions : Family
evictions = record { name = codes "gitcacheproxy_evictions_total"; labels = [] }

abbrev pub lfs_objects : Family
lfs_objects = record {
  name = codes "gitcacheproxy_lfs_objects_total";
  labels = codes "result" ∷ [];
}

abbrev pub cache_outcome : Family
cache_outcome = record {
  name = codes "gitcacheproxy_cache_outcome_total";
  labels = codes "outcome" ∷ [];
}

abbrev pub upstream_duration : Family
upstream_duration = record {
  name = codes "gitcacheproxy_upstream_duration_seconds";
  labels = codes "op" ∷ codes "repo" ∷ [];
}

abbrev pub serve_duration : Family
serve_duration = record {
  name = codes "gitcacheproxy_serve_duration_seconds";
  labels = codes "kind" ∷ codes "repo" ∷ [];
}

-- In the order of the registration.
unfoldable pub registered : List Family
registered =
    requests ∷ upstream ∷ cache_bytes ∷ cache_mirrors ∷ cache_max_bytes ∷ fetch_ttl_seconds
    ∷ evictions ∷ lfs_objects ∷ cache_outcome ∷ upstream_duration ∷ serve_duration ∷ []

-- A series: its family and the values of the labels.
abbrev pub Series : Type 0
Series = Family × List Bytes

unfoldable pub request_series : RequestKind → RequestStatus → Bytes → Series
unfolding kind_str status_str
request_series kind result repo = (requests, kind_str kind ∷ status_str result ∷ repo ∷ [])

unfoldable pub upstream_series : UpstreamOp → RequestStatus → Bytes → Series
unfolding op_str status_str
upstream_series op result repo = (upstream, op_str op ∷ status_str result ∷ repo ∷ [])

unfoldable pub lfs_series : LfsResult → Series
unfolding lfs_str
lfs_series result = (lfs_objects, lfs_str result ∷ [])

unfoldable pub outcome_series : CacheOutcome → Series
unfolding outcome_str
outcome_series outcome = (cache_outcome, outcome_str outcome ∷ [])

unfoldable pub upstream_duration_series : UpstreamOp → Bytes → Series
unfolding op_str
upstream_duration_series op repo = (upstream_duration, op_str op ∷ repo ∷ [])

unfoldable pub serve_duration_series : ServeKind → Bytes → Series
unfolding serve_str
serve_duration_series kind repo = (serve_duration, serve_str kind ∷ repo ∷ [])

abbrev pub known_name : Bytes → List Family → Bool
known_name name [] = false
known_name name (f ∷ l) = if bytes_eq f.name name then true else known_name name l

-- Registering a family again fails.
abbrev pub distinct : List Family → Bool
distinct [] = true
distinct (f ∷ l) = not (known_name f.name l) && distinct l

-- A series is taken if its family is registered and every label has a value.
abbrev pub taken : Series → Bool
taken (f, values) = known_name f.name registered && length values == length f.labels

-- No family is registered twice; and whatever is recorded, the series is one of a registered family,
-- with one value for each of its labels.
pub series_taken :
    (kind : RequestKind) (result : RequestStatus) (op : UpstreamOp) (lfs : LfsResult)
    (outcome : CacheOutcome) (serve : ServeKind) (repo : Bytes)
    → (distinct registered ≡ true)
      × (taken (request_series kind result repo) ≡ true)
      × (taken (upstream_series op result repo) ≡ true)
      × (taken (lfs_series lfs) ≡ true)
      × (taken (outcome_series outcome) ≡ true)
      × (taken (upstream_duration_series op repo) ≡ true)
      × (taken (serve_duration_series serve repo) ≡ true)
unfolding registered request_series upstream_series lfs_series outcome_series
    upstream_duration_series serve_duration_series bytes_eq
series_taken kind result op lfs outcome serve repo = (refl, refl, refl, refl, refl, refl, refl)

-- The texts of the labels, read back.
abbrev kind_of : Bytes → Option RequestKind
kind_of s =
    if bytes_eq s (codes "info_refs")
    then some info_refs_request
    else if bytes_eq s (codes "upload_pack")
    then some upload_pack_request
    else if bytes_eq s (codes "auth")
    then some auth_request
    else if bytes_eq s (codes "receive_pack")
    then some receive_pack_request
    else if bytes_eq s (codes "lfs_batch")
    then some lfs_batch_request
    else if bytes_eq s (codes "lfs_object")
    then some lfs_object_request
    else none

abbrev status_of : Bytes → Option RequestStatus
status_of s =
    if bytes_eq s (codes "ok")
    then some ok_status
    else if bytes_eq s (codes "error")
    then some error_status
    else if bytes_eq s (codes "upstream_error")
    then some upstream_error_status
    else if bytes_eq s (codes "unauthorized")
    then some unauthorized_status
    else if bytes_eq s (codes "rejected")
    then some rejected_status
    else none

kind_of-str : (k : RequestKind) → kind_of (kind_str k) ≡ some k
unfolding kind_str bytes_eq
kind_of-str info_refs_request = refl
kind_of-str upload_pack_request = refl
kind_of-str auth_request = refl
kind_of-str receive_pack_request = refl
kind_of-str lfs_batch_request = refl
kind_of-str lfs_object_request = refl

status_of-str : (r : RequestStatus) → status_of (status_str r) ≡ some r
unfolding status_str bytes_eq
status_of-str ok_status = refl
status_of-str error_status = refl
status_of-str upstream_error_status = refl
status_of-str unauthorized_status = refl
status_of-str rejected_status = refl

-- Requests that differ in kind, in status or in the recorded repository count in different series.
pub request_series_injective :
    (k k' : RequestKind) (r r' : RequestStatus) (n n' : Bytes)
    → request_series k r n ≡ request_series k' r' n'
    → (k ≡ k') × (r ≡ r') × (n ≡ n')
unfolding request_series
request_series_injective k k' r r' n n' e =
    let kinds : kind_str k ≡ kind_str k' = cc e in
    let results : status_str r ≡ status_str r' = cc e in
    (
      cc (sym (kind_of-str k) ∙ (ap kind_of kinds ∙ kind_of-str k')),
      cc (sym (status_of-str r) ∙ (ap status_of results ∙ status_of-str r')),
      cc e,
    )
