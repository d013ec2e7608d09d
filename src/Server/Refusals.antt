-- ===== src/Server/Refusals.antt =====
-- What the handlers of src/server.rs refuse, and what they record about it.
use git_cache_proxy.Base.{
  ℕ, ◌+◌, ◌%◌, ◌≤◌, u64_mod, ◌⊎◌, length-take, ends_with, strip_suffix-append, contains-append,
  Bytes, codes, bytes_eq_iff, ◌∷◌, ◌++◌, Bool, true, false, Option, none, some, length,
  if◌then◌else◌, strip_prefix, strip_prefix-eq-some, strip_prefix-append, ◌≡◌, ◌↔◌, refl, arith,
  Bool-cases, Option-cases, inl, inr, Option-cases,
}
use git_cache_proxy.Server.{
  App, Request, Outside, record_request, rejected_status, unauthorized_status, auth_request,
  receive_pack_request, token_matches, check_auth, within_limit, decode_gzip, read_limited,
  decode_body, is_push, handle_git,
}

-- What a request has to show: the token, if there is one, as a bearer token.
abbrev pub Shows : Option Bytes → Option Bytes → Type 0
Shows none authorization = Unit {0}
Shows (some token) authorization = authorization ≡ some (codes "Bearer " ++ token)

check_auth_iff :
    (token authorization : Option Bytes)
    → (check_auth token authorization ≡ true) ↔ Shows token authorization
unfolding check_auth token_matches
check_auth_iff none authorization = (λ h. tt, λ h. refl)
check_auth_iff (some token) none = ground arith
check_auth_iff (some token) (some v) = elim (Option-cases (strip_prefix (codes "Bearer ") v)) [
  | inl e ↦ (
    λ h. absurd (ground (arith, e, h)),
    λ h. absurd (ground (arith, e, h, strip_prefix-append (codes "Bearer ") token)),
  )
  | inr (t, e) ↦ ground (
    arith,
    e,
    strip_prefix-eq-some (codes "Bearer ") v t e,
    bytes_eq_iff t token,
    strip_prefix-append (codes "Bearer ") token,
  )
]

-- The size of what is handed on.
abbrev pub handed : Option Bytes → ℕ
handed none = 0
handed (some out) = length out

handed-within_limit : (body : Bytes) (max : ℕ) → handed (within_limit body max) ≤ max
unfolding within_limit
handed-within_limit body max = ground arith

decode_gzip_bounded :
    (gunzip : Bytes → Bytes × Bool) (body : Bytes) (max : ℕ)
    → ((decode_gzip gunzip body max).0 ≤ max + 1) × (handed (decode_gzip gunzip body max).1 ≤ max)
unfolding decode_gzip read_limited
decode_gzip_bounded gunzip body max = (
  bounded (gunzip body).0 (gunzip body).1,
  if_complete (read_limited ((max + 1) % u64_mod) (gunzip body)).1
      (read_limited ((max + 1) % u64_mod) (gunzip body)).0,
)
  where
    bounded :
        (out : Bytes) (complete : Bool)
        → length (read_limited ((max + 1) % u64_mod) (out, complete)).0 ≤ max + 1
    bounded out complete = ground (arith, length-take ((max + 1) % u64_mod) out)

    if_complete : (b : Bool) (out : Bytes) → handed (if b then within_limit out max else none) ≤ max
    if_complete true out = handed-within_limit out max
    if_complete false out = omega arith

-- Whatever the encoding, and whatever the decoder makes of the body: a body that is handed on is within
-- the limit, and the buffer of the decoder never has more than one byte above the limit, also when the
-- body is rejected.
pub decode_body_bounded :
    (trim : Bytes → Bytes) (gunzip : Bytes → Bytes × Bool) (encoding : Option Bytes) (body : Bytes)
    (max : ℕ)
    → (handed (decode_body trim gunzip encoding body max) ≤ max)
      × ((decode_gzip gunzip body max).0 ≤ max + 1)
unfolding decode_body
decode_body_bounded trim gunzip none body max =
    (handed-within_limit body max, (decode_gzip_bounded gunzip body max).0)
decode_body_bounded trim gunzip (some encoding) body max =
    let (buffer, out) = decode_gzip_bounded gunzip body max in
    let plain = handed-within_limit body max in (ground (arith, out, plain), buffer)

-- A request to push, in its path or in its query.
abbrev pub Pushes : Request → Type 0
Pushes req =
    ((p : Bytes) × (req.path ≡ p ++ codes "/git-receive-pack"))
    ⊎ ((x : Bytes) × (y : Bytes) × (req.query ≡ x ++ (codes "service=git-receive-pack" ++ y)))

Pushes-is_push : (req : Request) → Pushes req → is_push req ≡ true
unfolding is_push ends_with
Pushes-is_push req (inl (p, e)) =
    let found = strip_suffix-append p (codes "/git-receive-pack") in ground (arith, e, found)
Pushes-is_push req (inr (x, y, e)) =
    let found = contains-append x (codes "service=git-receive-pack") y in ground (arith, e, found)

-- A request that does not show the token, if there is one, is answered with 401; one that does and that
-- pushes, by its path or its query, with 403. Neither comes near a repository: the mirrors, their slots
-- and git and the store of objects are left alone, and the one thing recorded names no repository.
pub refused_untouched :
    (out : Outside) (req : Request) (st : App)
    → (¬ Shows st.serve_token req.authorization) ⊎ Pushes req
    → let r = handle_git out req st in
      (r.1.cache ≡ st.cache)
      × (r.1.lfs ≡ st.lfs)
      × (((¬ Shows st.serve_token req.authorization)
            × (r.0.0 ≡ 401)
            × (r.1.recorded
                ≡ record_request auth_request unauthorized_status (codes "-") ∷ st.recorded))
          ⊎ (Shows st.serve_token req.authorization
              × (r.0.0 ≡ 403)
              × (r.1.recorded
                  ≡ record_request receive_pack_request rejected_status (codes "-") ∷ st.recorded)))
unfolding handle_git
refused_untouched out req st e =
    let (shown, passes) = check_auth_iff st.serve_token req.authorization in
    elim (Bool-cases (check_auth st.serve_token req.authorization)) [
      | inl a ↦ elim e [
        | inl hidden ↦ absurd (hidden (shown a))
        | inr pushes ↦
            rw (handle_git, a, Pushes-is_push req pushes) (refl, refl, inr (shown a, refl, refl))
      ]
      | inr a ↦
          rw (handle_git, a)
            (refl, refl, inl (λ h. let b = passes h in absurd (cc (a, b)), refl, refl))
    ]
