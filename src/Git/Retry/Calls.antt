-- ===== src/Git/Retry/Calls.antt =====
-- What `run_upstream` of src/git.rs does to the upstream and to the staging directory, whatever
-- they answer.
use git_cache_proxy.Base.{
  ℕ, zero, suc, ◌+◌, ◌≤◌, ◌<◌, List, [], ◌∷◌, ◌++◌, drop, Bool, true, false, ◌&&◌, Option, some,
  err, ◌≡◌, ◌≢◌, refl, sym, ap, ◌∙◌, arith, inl, inr,
}
use git_cache_proxy.Git.Diagnostics.{Reason}
use git_cache_proxy.Git.Retry.{
  Attempt, Call, Finished, done, again, remove_staging, spawn, sleep, unreachable, get_delay,
  upstream_retry_delays, run_attempt, run_child, after_failure, attempts, run_upstream,
  upstream_failed,
}
use git_cache_proxy.Git.Retry.Attempts.{
  Step-cases, attempts_done, attempts_again, run_attempt-again,
}

abbrev pub spawns : List Call → ℕ
spawns [] = 0
spawns (remove_staging ∷ l) = spawns l
spawns (spawn ∷ l) = 1 + spawns l
spawns (sleep d ∷ l) = spawns l

abbrev pub slept : List Call → ℕ
slept [] = 0
slept (remove_staging ∷ l) = slept l
slept (spawn ∷ l) = slept l
slept (sleep d ∷ l) = d + slept l

-- Every `spawn` comes right after a removal; the first argument says whether one came just before.
abbrev pub staged : Bool → List Call → Bool
staged just [] = true
staged just (remove_staging ∷ l) = staged true l
staged just (spawn ∷ l) = just && staged false l
staged just (sleep d ∷ l) = staged false l

abbrev pub ends_removed : Bool → List Call → Bool
ends_removed b [] = b
ends_removed b (remove_staging ∷ l) = ends_removed true l
ends_removed b (spawn ∷ l) = ends_removed false l
ends_removed b (sleep d ∷ l) = ends_removed false l

spawns-append : (l k : List Call) → spawns (l ++ k) ≡ spawns l + spawns k
spawns-append [] k = omega arith
spawns-append (remove_staging ∷ l) k = spawns-append l k
spawns-append (spawn ∷ l) k = ground (arith, spawns-append l k)
spawns-append (sleep d ∷ l) k = spawns-append l k

slept-append : (l k : List Call) → slept (l ++ k) ≡ slept l + slept k
slept-append [] k = omega arith
slept-append (remove_staging ∷ l) k = slept-append l k
slept-append (spawn ∷ l) k = slept-append l k
slept-append (sleep d ∷ l) k = ground (arith, slept-append l k)

staged-append :
    (b : Bool) (l : List Call) (d : ℕ) (k : List Call)
    → staged b l ≡ true
    → staged false k ≡ true
    → staged b (l ++ sleep d ∷ k) ≡ true
staged-append b [] d k h g = g
staged-append b (remove_staging ∷ l) d k h g = staged-append true l d k h g
staged-append true (spawn ∷ l) d k h g = staged-append false l d k h g
staged-append false (spawn ∷ l) d k h g = absurd (ground (arith, h))
staged-append b (sleep e ∷ l) d k h g = staged-append false l d k h g

ends_removed-append :
    (b : Bool) (l : List Call) (d : ℕ) (k : List Call)
    → ends_removed b (l ++ sleep d ∷ k) ≡ ends_removed false k
ends_removed-append b [] d k = refl
ends_removed-append b (remove_staging ∷ l) d k = ends_removed-append true l d k
ends_removed-append b (spawn ∷ l) d k = ends_removed-append false l d k
ends_removed-append b (sleep e ∷ l) d k = ends_removed-append false l d k

spawns-run_attempt : (staging : Bool) (n : ℕ) (a : Attempt) → spawns (run_attempt staging n a).0 ≤ 1
unfolding run_attempt run_child after_failure
spawns-run_attempt staging n a = ground (arith)

slept-run_attempt : (staging : Bool) (n : ℕ) (a : Attempt) → slept (run_attempt staging n a).0 ≡ 0
unfolding run_attempt run_child after_failure
slept-run_attempt staging n a = ground (arith)

staged-run_attempt : (n : ℕ) (a : Attempt) → staged false (run_attempt true n a).0 ≡ true
unfolding run_attempt run_child after_failure
staged-run_attempt n a = ground (arith)

spawned_again :
    (staging : Bool) (n d : ℕ) (a : Attempt)
    → (run_attempt staging n a).1 ≡ again d
    → spawns (run_attempt staging n a).0 ≡ 1
unfolding run_attempt run_child after_failure
spawned_again staging n d a e = ground (arith, e)

failed_calls :
    (staging : Bool) (n m : ℕ) (a : Attempt) (reason : Option Reason)
    → (run_attempt staging n a).1 ≡ done (err (upstream_failed m reason))
    → (m ≡ n + spawns (run_attempt staging n a).0)
      × (ends_removed false (run_attempt staging n a).0 ≡ staging)
unfolding run_attempt run_child after_failure
failed_calls staging n m a reason e = ground (arith, e)

never_unreachable :
    (staging : Bool) (n : ℕ) (a : Attempt) → (run_attempt staging n a).1 ≢ done (err unreachable)
unfolding run_attempt run_child after_failure
never_unreachable staging n a e = ground (arith, e)

abbrev sum : List ℕ → ℕ
sum [] = 0
sum (d ∷ ds) = d + sum ds

-- The delays that are left from attempt `n` on.
abbrev delays_from : ℕ → ℕ
delays_from n = sum (drop n upstream_retry_delays)

delays_step :
    (ds : List ℕ) (n d : ℕ) → get_delay ds n ≡ some d → sum (drop n ds) ≡ d + sum (drop (n + 1) ds)
unfolding get_delay
delays_step [] n d e = absurd (ground (arith, e))
delays_step (x ∷ ds) zero d e = ground (arith, e)
delays_step (x ∷ ds) (suc n) d e = delays_step ds n d e ∙ ap (λ k. d + sum (drop k (x ∷ ds))) up
  where
    up : suc (n + 1) ≡ suc n + 1
    up = omega arith

attempts-spawns :
    (f : ℕ) (staging : Bool) (world : ℕ → Attempt) (n : ℕ)
    → spawns (attempts f staging world n).0 ≤ f
attempts-spawns zero staging world n = unfold attempts in omega arith
attempts-spawns (suc f) staging world n = elim (Step-cases (run_attempt staging n (world n)).1) [
  | inl (r, h) ↦
      rw (attempts_done f staging world n r h)
        (omega (arith, spawns-run_attempt staging n (world n)))
  | inr (d, h) ↦
      rw
        (
          attempts_again f staging world n d h,
          spawns-append (run_attempt staging n (world n)).0
              (sleep d ∷ (attempts f staging world (n + 1)).0),
        )
        (omega
          (arith, spawns-run_attempt staging n (world n), attempts-spawns f staging world (n + 1)))
]

attempts-slept :
    (f : ℕ) (staging : Bool) (world : ℕ → Attempt) (n : ℕ)
    → slept (attempts f staging world n).0 ≤ delays_from n
attempts-slept zero staging world n = unfold attempts in omega arith
attempts-slept (suc f) staging world n = elim (Step-cases (run_attempt staging n (world n)).1) [
  | inl (r, h) ↦
      rw (attempts_done f staging world n r h)
        (omega (arith, slept-run_attempt staging n (world n)))
  | inr (d, h) ↦
      rw
        (
          attempts_again f staging world n d h,
          slept-append (run_attempt staging n (world n)).0
              (sleep d ∷ (attempts f staging world (n + 1)).0),
        )
        (omega (
          arith,
          slept-run_attempt staging n (world n),
          attempts-slept f staging world (n + 1),
          delays_step upstream_retry_delays n d ((run_attempt-again staging n d (world n)).0 h).1,
        ))
]

has_delay : (n d : ℕ) → get_delay upstream_retry_delays n ≡ some d → n < 3
unfolding get_delay
has_delay zero d e = omega arith
has_delay (suc zero) d e = omega arith
has_delay (suc (suc zero)) d e = omega arith
has_delay (suc (suc (suc n))) d e = absurd (ground (arith, e))

attempts-reachable :
    (f : ℕ) (staging : Bool) (world : ℕ → Attempt) (n : ℕ)
    → 4 ≤ f + n
    → n < 4
    → (attempts f staging world n).1 ≢ err unreachable
attempts-reachable zero staging world n top low e = absurd (omega (arith, top, low))
attempts-reachable (suc f) staging world n top low e =
    elim (Step-cases (run_attempt staging n (world n)).1) [
      | inl (r, h) ↦ never_unreachable staging n (world n) (
          h
          ∙ ap done (
              sym (ap (λ (p : List Call × Finished). p.1) (attempts_done f staging world n r h))
              ∙ e))
      | inr (d, h) ↦
          let more : n < 3 = has_delay n d ((run_attempt-again staging n d (world n)).0 h).1 in
          attempts-reachable f staging world (n + 1) (omega (arith, top)) (omega (arith, more)) (
            sym (ap (λ (p : List Call × Finished). p.1) (attempts_again f staging world n d h)) ∙ e)
    ]

attempts-staged :
    (f : ℕ) (world : ℕ → Attempt) (n : ℕ) → staged false (attempts f true world n).0 ≡ true
attempts-staged zero world n = unfold attempts in refl
attempts-staged (suc f) world n = elim (Step-cases (run_attempt true n (world n)).1) [
  | inl (r, h) ↦ rw (attempts_done f true world n r h) (staged-run_attempt n (world n))
  | inr (d, h) ↦ rw (attempts_again f true world n d h) (
      staged-append false (run_attempt true n (world n)).0 d (attempts f true world (n + 1)).0
        (staged-run_attempt n (world n)) (attempts-staged f world (n + 1)))
]

attempts-failed :
    (f : ℕ) (staging : Bool) (world : ℕ → Attempt) (n m : ℕ) (reason : Option Reason)
    → (attempts f staging world n).1 ≡ err (upstream_failed m reason)
    → (m ≡ n + spawns (attempts f staging world n).0)
      × (ends_removed false (attempts f staging world n).0 ≡ staging)
attempts-failed zero staging world n m reason e = absurd (unfold attempts in ground (arith, e))
attempts-failed (suc f) staging world n m reason e =
    elim (Step-cases (run_attempt staging n (world n)).1) [
      | inl (r, h) ↦
          let same = attempts_done f staging world n r h in
          rw same (
            failed_calls staging n m (world n) reason
              (h ∙ ap done (sym (ap (λ (p : List Call × Finished). p.1) same) ∙ e)))
      | inr (d, h) ↦
          let same = attempts_again f staging world n d h in
          let rest =
            attempts-failed f staging world (n + 1) m reason
              (sym (ap (λ (p : List Call × Finished). p.1) same) ∙ e) in
          rw
            (
              same,
              spawns-append (run_attempt staging n (world n)).0
                  (sleep d ∷ (attempts f staging world (n + 1)).0),
              ends_removed-append false (run_attempt staging n (world n)).0 d
                  (attempts f staging world (n + 1)).0,
            )
            (omega (arith, rest.0, spawned_again staging n d (world n) h), rest.1)
    ]

-- Whatever git, the disk and the upstream answer: git is started at most four times, the delays add
-- up to at most seven seconds, and the end of the loop behind its last attempt is not reached.
pub run_upstream_bounded :
    (staging : Bool) (world : ℕ → Attempt)
    → (spawns (run_upstream staging world).0 ≤ 4)
      × (slept (run_upstream staging world).0 ≤ 7)
      × ((run_upstream staging world).1 ≢ err unreachable)
unfolding run_upstream
run_upstream_bounded staging world = (
  attempts-spawns 4 staging world 0,
  attempts-slept 4 staging world 0,
  attempts-reachable 4 staging world 0 (omega arith) (omega arith),
)

-- With a staging directory, git is never started but right after the removal of what an earlier
-- attempt left there.
pub run_upstream-staged : (world : ℕ → Attempt) → staged false (run_upstream true world).0 ≡ true
unfolding run_upstream
run_upstream-staged world = attempts-staged 4 world 0

-- When git itself failed for good, the number in the message is the number of times it was started,
-- and the staging directory, if there is one, was removed last.
pub run_upstream_failed :
    (staging : Bool) (world : ℕ → Attempt) (m : ℕ) (reason : Option Reason)
    → (run_upstream staging world).1 ≡ err (upstream_failed m reason)
    → (m ≡ spawns (run_upstream staging world).0)
      × (ends_removed false (run_upstream staging world).0 ≡ staging)
unfolding run_upstream
run_upstream_failed staging world m reason e =
    let (count, cleared) = attempts-failed 4 staging world 0 m reason e in
    (omega (arith, count), cleared)
