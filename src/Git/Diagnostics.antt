-- ===== src/Git/Diagnostics.antt =====
-- `transient_upstream_error` of src/git.rs: the classification of what git wrote on its standard
-- error. `from_utf8_lossy` keeps every ASCII byte and every well-formed character, and all patterns
-- are ASCII, so the text is the bytes as they are.
use git_cache_proxy.Base.{
  ℕ, Bytes, codes, List, [], ◌∷◌, Bool, true, false, ◌&&◌, ◌||◌, Option, none, some, contains,
  ends_with, split, to_ascii_lowercase, leb, ◌==◌, if◌then◌else◌,
}

-- Whether `any` message of the list is in the text.
unfoldable pub any_in : List Bytes → Bytes → Bool
any_in [] text = false
any_in (m ∷ ms) text = contains m text || any_in ms text

abbrev pub permanent_messages : List Bytes
permanent_messages =
    codes "authentication failed"
    ∷ codes "repository not found"
    ∷ codes "could not read username"
    ∷ codes "certificate problem"
    ∷ codes "certificate verify failed"
    ∷ codes "certificate verification failed"
    ∷ codes "server certificate verification failed"
    ∷ codes "no space left on device"
    ∷ codes "permission denied"
    ∷ codes "read-only file system"
    ∷ codes ".lock"
    ∷ codes "returned error: 401"
    ∷ codes "returned error: 403"
    ∷ codes "returned error: 404"
    ∷ []

abbrev pub status_messages : List Bytes
status_messages =
    codes "returned error: 408"
    ∷ codes "returned error: 429"
    ∷ codes "returned error: 500"
    ∷ codes "returned error: 502"
    ∷ codes "returned error: 503"
    ∷ codes "returned error: 504"
    ∷ []

abbrev pub tls_messages : List Bytes
tls_messages =
    codes "unexpected eof while reading"
    ∷ codes "gnutls_handshake() failed: the tls connection was non-properly terminated"
    ∷ codes "gnutls recv error (-110)"
    ∷ codes "ssl_error_syscall"
    ∷ []

abbrev pub connection_messages : List Bytes
connection_messages =
    codes "connection reset"
    ∷ codes "connection timed out"
    ∷ codes "connection refused"
    ∷ codes "failed to connect to"
    ∷ codes "operation timed out"
    ∷ codes "connection timeout"
    ∷ codes "empty reply from server"
    ∷ codes "recv failure:"
    ∷ codes "send failure:"
    ∷ codes "curl 18 "
    ∷ codes "curl 28 "
    ∷ codes "curl 52 "
    ∷ codes "curl 55 "
    ∷ codes "curl 56 "
    ∷ codes "curl 92 "
    ∷ []

abbrev pub dns_messages : List Bytes
dns_messages =
    codes "temporary failure in name resolution"
    ∷ codes "could not resolve host:"
    ∷ codes "could not resolve proxy:"
    ∷ []

-- Whether the bytes, read backwards, start with the bytes of a white-space character.
unfoldable pub is_ascii_space : ℕ → Bool
is_ascii_space c = (leb 9 c && leb c 13) || c == 32

unfoldable pub is_wide_space : ℕ → ℕ → ℕ → Bool
is_wide_space a b c =
    (a == 225 && b == 154 && c == 128)
    || (a == 226 && b == 128 && ((leb 128 c && leb c 138) || c == 168 || c == 169 || c == 175))
    || (a == 226 && b == 129 && c == 159)
    || (a == 227 && b == 128 && c == 128)

-- `str::trim_end`: what is left is empty, or does not end in a white-space character.
unfoldable pub all_space : Bytes → Bool
unfolding is_ascii_space is_wide_space
all_space [] = true
all_space (c ∷ []) = is_ascii_space c
all_space (b ∷ c ∷ []) =
    let rest = all_space (c ∷ []) in
    (is_ascii_space b && rest) || (b == 194 && (c == 133 || c == 160))
all_space (a ∷ b ∷ c ∷ s) =
    let one = all_space (b ∷ c ∷ s) in
    let two = all_space (c ∷ s) in
    let three = all_space s in
    (is_ascii_space a && one)
    || (a == 194 && (b == 133 || b == 160) && two)
    || (is_wide_space a b c && three)

unfoldable pub trim_end : Bytes → Bytes
unfolding all_space
trim_end [] = []
trim_end (c ∷ s) = let rest = trim_end s in if all_space (c ∷ s) then [] else c ∷ rest

-- `str::lines`, whose last empty piece does not matter here: no message is empty. The carriage
-- return that it takes off is a space that `trim_end` takes off as well.
unfoldable pub any_line : (Bytes → Bool) → List Bytes → Bool
any_line p [] = false
any_line p (l ∷ ls) = p l || any_line p ls

unfoldable pub any_status : List Bytes → Bytes → Bool
unfolding trim_end any_line
any_status [] text = false
any_status (m ∷ ms) text =
    any_line (λ line. ends_with m (trim_end line)) (split b'\n' text) || any_status ms text

pub data Reason : Type 0 where
  transient_status tls_interrupted connection_interrupted dns_failed : Reason

unfoldable pub transient_upstream_error : Bytes → Option Reason
unfolding any_in any_status
transient_upstream_error stderr =
    let text = to_ascii_lowercase stderr in
    if any_in permanent_messages text
    then none
    else if any_status status_messages text
    then some transient_status
    else if any_in tls_messages text
    then some tls_interrupted
    else if any_in connection_messages text
    then some connection_interrupted
    else if any_in dns_messages text
    then some dns_failed
    else none
