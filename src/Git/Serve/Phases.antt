-- ===== src/Git/Serve/Phases.antt =====
-- The serving of a pack in src/git.rs as its client, the child and the cap on concurrent packs see it.
use git_cache_proxy.Base.{zero, suc, Bool, true, false, not, ◌||◌, if◌then◌else◌}
use git_cache_proxy.Git.Serve.{
  Channel, pending, sent, closed, Serving, Polled, not_ready, failed, filled, ServeStep, polled,
  dropped, child_exited, task_polled,
}
use git_cache_proxy.Git.Serve.Once.{any, is_over}

-- A call is packing until the client has read the pack to its end or is gone; then it waits for the
-- child to end, which it signals if the client is gone.
pub data Phase : Type 0 where
  packing complete abandoned over : Phase

-- What a call shows: its phase, whether the child runs, whether the child was sent a signal, and
-- whether the call counts against the cap.
pub record Call : Type 0 where
  pub phase : Phase
  pub running : Bool
  pub signalled : Bool
  pub capped : Bool

-- What happens: the client reads on, reads the end, or goes; the child exits; or the task is polled,
-- and the wait for the child may fail.
pub data Happening : Type 0 where
  reads_on reads_end leaves exits : Happening
  polls : Bool → Happening

abbrev pub read_end : Phase → Phase
read_end packing = complete
read_end complete = complete
read_end abandoned = abandoned
read_end over = over

abbrev pub leave : Phase → Phase
leave packing = abandoned
leave complete = complete
leave abandoned = abandoned
leave over = over

-- A poll while the child runs.
abbrev pub poll_running : Call → Call
poll_running c = elim c.phase [
  | packing ↦ c
  | complete ↦ c
  | abandoned ↦ record c { signalled = true }
  | over ↦ c
]

-- A poll when there is nothing left to wait for.
abbrev pub poll_ended : Call → Call
poll_ended c = elim c.phase [
  | packing ↦ record c { phase = over; capped = false }
  | complete ↦ record c { phase = over; capped = false }
  | abandoned ↦ record c { phase = over; capped = false }
  | over ↦ c
]

-- The call as it should go.
abbrev pub advance : Happening → Call → Call
advance reads_on c = c
advance reads_end c = record c { phase = read_end c.phase }
advance leaves c = record c { phase = leave c.phase }
advance exits c = record c { running = false }
advance (polls wait_failed) c =
    if wait_failed || not c.running then poll_ended c else poll_running c

abbrev pub channel_phase : Channel → Phase
channel_phase pending = packing
channel_phase sent = complete
channel_phase closed = abandoned

abbrev pub view : Serving → Call
view s = record {
  phase = if is_over s.reaper then over else channel_phase s.channel;
  running = not s.exited;
  signalled = any s.signals;
  capped = s.permit;
}

abbrev pub read_happens : Polled → Happening
read_happens not_ready = reads_on
read_happens failed = reads_on
read_happens (filled zero) = reads_end
read_happens (filled (suc n)) = reads_on

abbrev pub happens : {s t : Serving} → ServeStep s t → Happening
happens (polled p r) = read_happens p
happens (dropped r) = leaves
happens child_exited = exits
happens (task_polled f g) = polls f
