-- ===== src/Git/Serve/Once.antt =====
-- What holds in every interleaving of the reader, the child and the task of src/git.rs that reaps it.
use git_cache_proxy.Base.{
  ℕ, zero, suc, ◌+◌, List, [], ◌∷◌, Bool, true, false, not, ◌&&◌, ◌||◌, if◌then◌else◌, ◌≡◌, refl,
  arith,
}
use git_cache_proxy.Git.Serve.{
  Channel, pending, sent, closed, Reaper, selecting, waiting, reaped, lost, Signal, Serving, Polled,
  not_ready, failed, filled, rpc_started, record_serve, finish, poll_read, drop_reader,
  reaped_child, lose_child, kill, reap, child_exit, ServeStep, polled, dropped, child_exited,
  task_polled, ServeSteps, no_steps, then_step,
}

abbrev pub is_pending : Channel → Bool
is_pending pending = true
is_pending sent = false
is_pending closed = false

abbrev pub is_sent : Channel → Bool
is_sent pending = false
is_sent sent = true
is_sent closed = false

abbrev pub is_reaped : Reaper → Bool
is_reaped selecting = false
is_reaped waiting = false
is_reaped reaped = true
is_reaped lost = false

-- The task has ended.
abbrev pub is_over : Reaper → Bool
is_over selecting = false
is_over waiting = false
is_over reaped = true
is_over lost = true

abbrev pub is_waiting : Reaper → Bool
is_waiting selecting = false
is_waiting waiting = true
is_waiting reaped = false
is_waiting lost = false

abbrev pub is_selecting : Reaper → Bool
is_selecting selecting = true
is_selecting waiting = false
is_selecting reaped = false
is_selecting lost = false

abbrev pub any : List Signal → Bool
any [] = false
any (x ∷ l) = true

-- `total` is the number of observations that there are in the end.
pub record IsServing (total : ℕ) (s : Serving) : Type 0 where
  pub once : s.observed + (if s.recorder then 1 else 0) ≡ total
  pub gone : ((s.recorder || s.sender) && not s.reading) ≡ false
  pub open_sender : is_pending s.channel ≡ s.sender
  pub sent_recorded : (is_sent s.channel && s.recorder) ≡ false
  pub capped : s.permit ≡ not (is_over s.reaper)
  pub after_exit : (is_reaped s.reaper && not s.exited) ≡ false
  pub unread : (any s.signals && (is_pending s.channel || is_sent s.channel)) ≡ false
  pub stopped : (is_selecting s.reaper && any s.signals) ≡ false
  pub settled : (is_waiting s.reaper && not (is_sent s.channel) && not (any s.signals)) ≡ false

IsServing-poll_read :
    (n : ℕ) (p : Polled) (s : Serving)
    → s.reading ≡ true
    → IsServing n s
    → IsServing n (poll_read p s)
unfolding poll_read finish record_serve
IsServing-poll_read n not_ready s r h = h
IsServing-poll_read n failed s r h = h
IsServing-poll_read n (filled (suc k)) s r h = h
IsServing-poll_read n (filled zero) s r h = record {
  once = ground (arith, h.once);
  gone = ground (arith, h.gone, r);
  open_sender = ground (arith, h.open_sender);
  sent_recorded = ground (arith, h.sent_recorded);
  capped = ground (arith, h.capped);
  after_exit = ground (arith, h.after_exit);
  unread = ground (arith, h.unread, h.open_sender);
  stopped = ground (arith, h.stopped);
  settled = ground (arith, h.settled, h.open_sender);
}

IsServing-drop_reader :
    (n : ℕ) (s : Serving) → s.reading ≡ true → IsServing n s → IsServing n (drop_reader s)
unfolding drop_reader record_serve
IsServing-drop_reader n s r h = record {
  once = ground (arith, h.once);
  gone = ground (arith, h.gone);
  open_sender = ground (arith, h.open_sender);
  sent_recorded = ground (arith, h.sent_recorded);
  capped = ground (arith, h.capped);
  after_exit = ground (arith, h.after_exit);
  unread = ground (arith, h.unread, h.open_sender);
  stopped = ground (arith, h.stopped);
  settled = ground (arith, h.settled, h.open_sender);
}

IsServing-reap : (n : ℕ) (f g : Bool) (s : Serving) → IsServing n s → IsServing n (reap f g s)
unfolding reap kill reaped_child lose_child
IsServing-reap n f g s h = record {
  once = ground (arith, h.once);
  gone = ground (arith, h.gone);
  open_sender = ground (arith, h.open_sender);
  sent_recorded = ground (arith, h.sent_recorded);
  capped = ground (arith, h.capped);
  after_exit = ground (arith, h.after_exit);
  unread = ground (arith, h.unread);
  stopped = ground (arith, h.stopped);
  settled = ground (arith, h.settled, h.open_sender);
}

IsServing-step : (n : ℕ) (s t : Serving) → ServeStep s t → IsServing n s → IsServing n t
unfolding child_exit
IsServing-step n s _ (polled p r) h = IsServing-poll_read n p s r h
IsServing-step n s _ (dropped r) h = IsServing-drop_reader n s r h
IsServing-step n s _ child_exited h = record {
  once = h.once;
  gone = h.gone;
  open_sender = h.open_sender;
  sent_recorded = h.sent_recorded;
  capped = h.capped;
  after_exit = ground arith;
  unread = h.unread;
  stopped = h.stopped;
  settled = h.settled;
}
IsServing-step n s _ (task_polled f g) h = IsServing-reap n f g s h

pub IsServing-steps : (n : ℕ) (s t : Serving) → ServeSteps s t → IsServing n s → IsServing n t
IsServing-steps n s _ no_steps h = h
IsServing-steps n s u (then_step {t = t} before last) h =
    IsServing-step n t u last (IsServing-steps n s t before h)

IsServing-rpc_started : (w : Bool) → IsServing (if w then 1 else 0) (rpc_started w)
unfolding rpc_started
IsServing-rpc_started true = record {
  once = omega arith;
  gone = refl;
  open_sender = refl;
  sent_recorded = refl;
  capped = refl;
  after_exit = refl;
  unread = refl;
  stopped = refl;
  settled = refl;
}
IsServing-rpc_started false = record {
  once = omega arith;
  gone = refl;
  open_sender = refl;
  sent_recorded = refl;
  capped = refl;
  after_exit = refl;
  unread = refl;
  stopped = refl;
  settled = refl;
}

pub IsServing-reached :
    (w : Bool) (s : Serving) → ServeSteps (rpc_started w) s → IsServing (if w then 1 else 0) s
IsServing-reached w s steps =
    IsServing-steps (if w then 1 else 0) (rpc_started w) s steps (IsServing-rpc_started w)

-- In every interleaving: the time of a serve is observed when the recorder is taken, at most once, and
-- exactly once when the reader was made and has been dropped; never, if the request was not written.
pub served_once :
    (w : Bool) (s : Serving)
    → ServeSteps (rpc_started w) s
    → (s.observed + (if s.recorder then 1 else 0) ≡ (if w then 1 else 0))
      × ((s.recorder && not s.reading) ≡ false)
served_once w s steps = let h = IsServing-reached w s steps in (h.once, ground (arith, h.gone))

-- In every interleaving: the permit is held until the task ends; it ends when it has reaped the child,
-- which has exited then, or when the wait for the child failed; a signal is sent only if the client
-- went before the end of the pack, or the request was not written, and not while the task still
-- selects.
pub capped_until_reaped :
    (w : Bool) (s : Serving)
    → ServeSteps (rpc_started w) s
    → (s.permit ≡ not (is_over s.reaper))
      × ((is_reaped s.reaper && not s.exited) ≡ false)
      × ((any s.signals && (is_pending s.channel || is_sent s.channel)) ≡ false)
      × ((is_selecting s.reaper && any s.signals) ≡ false)
capped_until_reaped w s steps =
    let h = IsServing-reached w s steps in (h.capped, h.after_exit, h.unread, h.stopped)
