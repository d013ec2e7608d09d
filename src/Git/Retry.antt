-- ===== src/Git/Retry.antt =====
-- `run_upstream` and `clean_staging` of src/git.rs: an upstream git command, its retries and the
-- delays between them. What the processes and the disk answer is a function of the attempt, from 0;
-- what the function does to them is returned in order.
pub mod Tail
pub mod Attempts
pub mod Calls
use git_cache_proxy.Base.{
  ℕ, zero, suc, ◌+◌, ◌-◌, ◌*◌, Bytes, List, [], ◌∷◌, ◌++◌, Bool, true, false, not, ◌&&◌, Option,
  none, some, Result, ok, err, length, drop, ltb, ◌==◌, if◌then◌else◌, is_some,
}
use git_cache_proxy.Git.Diagnostics.{Reason, transient_upstream_error}

abbrev pub upstream_retry_delays : List ℕ
upstream_retry_delays = 1 ∷ 2 ∷ 4 ∷ []

abbrev pub max_upstream_retries : ℕ
max_upstream_retries = length upstream_retry_delays

abbrev pub max_upstream_stderr_bytes : ℕ
max_upstream_stderr_bytes = 64 * 1024

-- What `remove_dir_all` says.
pub data RemovedDir : Type 0 where
  dir_removed dir_not_found remove_failed : RemovedDir

-- How the process ended: with a code (0 is success), or by a signal.
pub data Exit : Type 0 where
  exited : ℕ → Exit
  signalled : Exit

-- The answers in one attempt. `chunks` are the reads of standard error before its end, `read_ok`
-- says that the end was reached, and `exit` is `none` when `wait` failed.
pub record Attempt : Type 0 where
  pub clean_before : RemovedDir
  pub spawned : Bool
  pub chunks : List Bytes
  pub read_ok : Bool
  pub exit : Option Exit
  pub clean_after : RemovedDir

pub data Call : Type 0 where
  remove_staging : Call
  spawn : Call
  sleep : ℕ → Call

-- `upstream_failed` has the number of attempts and the reason that the message shows.
pub data UpstreamError : Type 0 where
  clean_failed spawn_failed read_failed wait_failed : UpstreamError
  upstream_failed : ℕ → Option Reason → UpstreamError
  unreachable : UpstreamError

abbrev pub Finished : Type 0
Finished = Result UpstreamError (Unit {0})

unfoldable pub clean_staging : RemovedDir → Bool
clean_staging dir_removed = true
clean_staging dir_not_found = true
clean_staging remove_failed = false

-- One chunk more, and only the last bytes kept.
unfoldable pub keep_tail : Bytes → Bytes → Bytes
keep_tail tail chunk =
    let more = tail ++ chunk in
    if ltb max_upstream_stderr_bytes (length more)
    then drop (length more - max_upstream_stderr_bytes) more
    else more

unfoldable pub read_tail : List Bytes → Bytes → Bytes
unfolding keep_tail
read_tail [] tail = tail
read_tail (c ∷ cs) tail = read_tail cs (keep_tail tail c)

unfoldable pub success : Exit → Bool
success (exited c) = c == 0
success signalled = false

unfoldable pub has_code : Exit → Bool
has_code (exited c) = true
has_code signalled = false

-- `UPSTREAM_RETRY_DELAYS.get(_)`
unfoldable pub get_delay : List ℕ → ℕ → Option ℕ
get_delay [] n = none
get_delay (d ∷ ds) zero = some d
get_delay (d ∷ ds) (suc n) = get_delay ds n

-- What follows an attempt that failed with this reason: a delay, or the end.
unfoldable pub retry_delay : Option Reason → Exit → ℕ → Option ℕ
unfolding has_code get_delay
retry_delay reason exit attempt =
    if is_some reason
    then if has_code exit then get_delay upstream_retry_delays attempt else none
    else none

abbrev pub removal : Bool → List Call
removal staging = if staging then remove_staging ∷ [] else []

-- The end of an attempt: the error or `Ok`, or the delay before the next.
pub data Step : Type 0 where
  done : Finished → Step
  again : ℕ → Step

-- After a process that did not succeed.
unfoldable pub after_failure : Bool → ℕ → Attempt → Exit → List Call × Step
unfolding clean_staging read_tail retry_delay
after_failure staging attempt a exit =
    let reason = transient_upstream_error (read_tail a.chunks []) in
    (
      removal staging,
      (if staging && not (clean_staging a.clean_after)
          then done (err clean_failed)
          else elim (retry_delay reason exit attempt) [
            | none ↦ done (err (upstream_failed (attempt + 1) reason))
            | some delay ↦ again delay
          ]),
    )

unfoldable pub run_child : Bool → ℕ → Attempt → List Call × Step
unfolding after_failure success
run_child staging attempt a = if not a.read_ok then ([], done (err read_failed)) else elim a.exit [
  | none ↦ ([], done (err wait_failed))
  | some exit ↦ if success exit then ([], done (ok tt)) else after_failure staging attempt a exit
]

-- One round of the loop.
unfoldable pub run_attempt : Bool → ℕ → Attempt → List Call × Step
unfolding run_child
run_attempt staging attempt a =
    if staging && not (clean_staging a.clean_before)
    then (removal staging, done (err clean_failed))
    else if not a.spawned
    then (removal staging ++ spawn ∷ [], done (err spawn_failed))
    else let rest = run_child staging attempt a in (removal staging ++ spawn ∷ rest.0, rest.1)

-- The rounds from `attempt` on, as many as the first argument says.
unfoldable pub attempts : ℕ → Bool → (ℕ → Attempt) → ℕ → List Call × Finished
attempts zero staging world attempt = ([], err unreachable)
attempts (suc f) staging world attempt =
    let (calls, step) = run_attempt staging attempt (world attempt) in
    elim step [
      | done r ↦ (calls, r)
      | again delay ↦
          let rest = attempts f staging world (attempt + 1) in
          (calls ++ sleep delay ∷ rest.0, rest.1)
    ]

unfoldable pub run_upstream : Bool → (ℕ → Attempt) → List Call × Finished
unfolding attempts
run_upstream staging world = attempts (max_upstream_retries + 1) staging world 0
