-- ===== src/Git/Retry/Attempts.antt =====
-- When `run_upstream` of src/git.rs succeeds, and what it does on the way.
use git_cache_proxy.Base.{
  ℕ, zero, suc, ◌+◌, ◌≤◌, ◌<◌, List, ◌∷◌, ◌++◌, Bool, true, false, not, ◌&&◌, ◌||◌, Option, none,
  some, ok, is_some, ◌==◌, ◌≡◌, ◌≢◌, ◌↔◌, ◌⊎◌, refl, sym, ap, ◌∙◌, arith, Bool-cases, ==_iff,
  Option-cases, inl, inr,
}
use git_cache_proxy.Git.Diagnostics.{transient_upstream_error}
use git_cache_proxy.Git.Retry.{
  RemovedDir, Attempt, Call, Step, Exit, Finished, exited, signalled, done, again, sleep,
  clean_staging, success, get_delay, retry_delay, upstream_retry_delays, max_upstream_stderr_bytes,
  after_failure, run_child, run_attempt, attempts, run_upstream,
}
use git_cache_proxy.Git.Retry.Tail.{concat, last_bytes, read_tail_lem}

-- The staging directory could be removed, or there is none to remove.
abbrev pub cleaned : Bool → RemovedDir → Bool
cleaned staging r = not staging || clean_staging r

abbrev pub exited_well : Option Exit → Bool
exited_well none = false
exited_well (some e) = success e

-- The process failed by itself: it was not killed.
abbrev pub exited_badly : Option Exit → Bool
exited_badly none = false
exited_badly (some (exited c)) = not (c == 0)
exited_badly (some signalled) = false

abbrev pub succeeds : Bool → Attempt → Bool
succeeds staging a =
    cleaned staging a.clean_before && (a.spawned && (a.read_ok && exited_well a.exit))

-- An attempt after which another is made, while there are delays left.
abbrev pub is_transient : Bool → Attempt → Bool
is_transient staging a =
    cleaned staging a.clean_before
    && (a.spawned
        && (a.read_ok
            && (exited_badly a.exit
                && (cleaned staging a.clean_after
                    && is_some (
                        transient_upstream_error
                          (last_bytes max_upstream_stderr_bytes (concat a.chunks)))))))

run_attempt-ok :
    (staging : Bool) (n : ℕ) (a : Attempt)
    → (((run_attempt staging n a).1 ≡ done (ok tt)) ↔ (succeeds staging a ≡ true))
unfolding run_attempt run_child after_failure
run_attempt-ok staging n a = ground (arith)

pub run_attempt-again :
    (staging : Bool) (n d : ℕ) (a : Attempt)
    → (((run_attempt staging n a).1 ≡ again d)
        ↔ ((is_transient staging a ≡ true) × (get_delay upstream_retry_delays n ≡ some d)))
unfolding run_attempt run_child after_failure retry_delay
run_attempt-again staging n d a = ground (arith, read_tail_lem a.chunks)

-- The attempts from `n` on, of which `f` are left, end well exactly when one of them succeeds and
-- all before it fail for a transient reason.
abbrev pub EndsWell : Bool → (ℕ → Attempt) → ℕ → ℕ → Type 0
EndsWell staging world n f =
    (k : ℕ) × (n ≤ k)
    × (k < n + f)
    × ((j : ℕ) → n ≤ j → j < k → is_transient staging (world j) ≡ true)
    × (succeeds staging (world k) ≡ true)

pub Step-cases : (s : Step) → ((r : Finished) × (s ≡ done r)) ⊎ ((d : ℕ) × (s ≡ again d))
Step-cases (done r) = inl (r, refl)
Step-cases (again d) = inr (d, refl)

done_injective : (r s : Finished) → done r ≡ done s → r ≡ s
done_injective r s e = cc

pub attempts_done :
    (f : ℕ) (staging : Bool) (world : ℕ → Attempt) (n : ℕ) (r : Finished)
    → (run_attempt staging n (world n)).1 ≡ done r
    → attempts (suc f) staging world n ≡ ((run_attempt staging n (world n)).0, r)
unfolding attempts
attempts_done f staging world n r e = rw (attempts, e) refl

pub attempts_again :
    (f : ℕ) (staging : Bool) (world : ℕ → Attempt) (n d : ℕ)
    → (run_attempt staging n (world n)).1 ≡ again d
    → attempts (suc f) staging world n ≡ (
      (run_attempt staging n (world n)).0 ++ sleep d ∷ (attempts f staging world (n + 1)).0,
      (attempts f staging world (n + 1)).1,
    )
unfolding attempts
attempts_again f staging world n d e = rw (attempts, e) refl

delay_iff : (n : ℕ) → (is_some (get_delay upstream_retry_delays n) ≡ true) ↔ (n < 3)
unfolding get_delay
delay_iff zero = ground arith
delay_iff (suc zero) = ground arith
delay_iff (suc (suc zero)) = ground arith
delay_iff (suc (suc (suc n))) = ground arith

no_attempts :
    (staging : Bool) (world : ℕ → Attempt) (n : ℕ) → (attempts 0 staging world n).1 ≢ ok tt
unfolding attempts
no_attempts staging world n e = ground (arith, e)

attempts_sound :
    (f : ℕ) (staging : Bool) (world : ℕ → Attempt) (n : ℕ)
    → (attempts f staging world n).1 ≡ ok tt
    → EndsWell staging world n f
attempts_sound zero staging world n e = absurd (no_attempts staging world n e)
attempts_sound (suc f) staging world n e = elim (Step-cases (run_attempt staging n (world n)).1) [
  | inl (r, h) ↦
      let good : r ≡ ok tt =
        cc (ap (λ (p : List Call × Finished). p.1) (attempts_done f staging world n r h)) in
      (
        n,
        omega arith,
        omega arith,
        λ j a b. absurd (omega (arith, a, b)),
        (run_attempt-ok staging n (world n)).0 (h ∙ ap done good),
      )
  | inr (d, h) ↦
      let later : (j : ℕ) → n ≤ j → (j == n) ≡ false → n + 1 ≤ j = λ j x o. ground (arith, x, o) in
      let (k, a, b, before, last) =
        attempts_sound f staging world (n + 1) (
          sym (ap (λ (p : List Call × Finished). p.1) (attempts_again f staging world n d h))
          ∙ e) in
      (
        k,
        omega (arith, a),
        omega (arith, b),
        λ j x y. elim (Bool-cases (j == n)) [
          | inl same ↦
              ap (λ m. is_transient staging (world m)) ((==_iff j n).0 same)
              ∙ ((run_attempt-again staging n d (world n)).0 h).0
          | inr other ↦ before j (later j x other) y
        ],
        last,
      )
]

attempts_complete :
    (f : ℕ) (staging : Bool) (world : ℕ → Attempt) (n : ℕ)
    → n + f ≤ 4
    → EndsWell staging world n f
    → (attempts f staging world n).1 ≡ ok tt
attempts_complete zero staging world n top (k, a, b, before, last) = absurd (omega (arith, a, b))
attempts_complete (suc f) staging world n top (k, a, b, before, last) = elim (Bool-cases (k == n)) [
  | inl same ↦
      let here : succeeds staging (world n) ≡ true =
        ap (λ m. succeeds staging (world m)) (sym ((==_iff k n).0 same)) ∙ last in
      ap (λ (p : List Call × Finished). p.1)
        (attempts_done f staging world n (ok tt) ((run_attempt-ok staging n (world n)).1 here))
  | inr other ↦
      let past : n < k = ground (arith, a, other) in
      let (d, has) = delay n (omega (arith, past, b, top)) in
      ap (λ (p : List Call × Finished). p.1)
        (attempts_again f staging world n d
          ((run_attempt-again staging n d (world n)).1 (before n (omega arith) past, has)))
      ∙ attempts_complete f staging world (n + 1) (omega (arith, top))
          (k, omega (arith, past), omega (arith, b), λ j x y. before j (omega (arith, x)) y, last)
]
  where
    delay : (n : ℕ) → n < 3 → (d : ℕ) × (get_delay upstream_retry_delays n ≡ some d)
    delay n h = elim (Option-cases (get_delay upstream_retry_delays n)) [
      | inl e ↦ absurd (ground (arith, e, (delay_iff n).1 h))
      | inr (d, e) ↦ (d, e)
    ]

-- `run_upstream` succeeds exactly when one of the first four attempts does: its staging directory
-- could be removed, git was started, its output was read, and it exited with 0; and every attempt
-- before it exited by itself with another code, showed a transient error in the last 64 KiB of
-- its standard error, and left a staging directory that could be removed.
pub run_upstream_iff :
    (staging : Bool) (world : ℕ → Attempt)
    → ((run_upstream staging world).1 ≡ ok tt) ↔ EndsWell staging world 0 4
unfolding run_upstream
run_upstream_iff staging world =
    (attempts_sound 4 staging world 0, attempts_complete 4 staging world 0 (omega arith))
