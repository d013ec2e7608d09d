-- ===== src/Git/Serve/Tests.antt =====
-- A call of src/git.rs whose client goes in the middle of the pack.
use git_cache_proxy.Base.{◌+◌, true, false, not, ◌&&◌, ◌||◌, if◌then◌else◌, ◌≡◌, refl}
use git_cache_proxy.Git.Serve.{
  Serving, filled, rpc_started, poll_read, drop_reader, reap, polled, dropped, task_polled,
  ServeSteps, no_steps, then_step, record_serve, kill,
}
use git_cache_proxy.Git.Serve.Once.{
  is_over, is_reaped, is_pending, is_sent, is_selecting, any, served_once, capped_until_reaped,
}

abbrev gone : Serving
gone = drop_reader (poll_read (filled 9) (rpc_started true))

gone_steps : ServeSteps (rpc_started true) gone
unfolding rpc_started poll_read
gone_steps = then_step (then_step no_steps (polled (filled 9) refl)) (dropped refl)

abbrev stopped : Serving
stopped = reap false false gone

stopped_steps : ServeSteps (rpc_started true) stopped
stopped_steps = then_step gone_steps (task_polled false false)

signalled : any stopped.signals ≡ true
unfolding rpc_started poll_read drop_reader record_serve reap kill
signalled = refl

served_once_example :
    (stopped.observed + (if stopped.recorder then 1 else 0) ≡ 1)
    × ((stopped.recorder && not stopped.reading) ≡ false)
served_once_example = served_once true stopped stopped_steps

capped_until_reaped_example :
    (stopped.permit ≡ not (is_over stopped.reaper))
    × ((is_reaped stopped.reaper && not stopped.exited) ≡ false)
    × ((any stopped.signals && (is_pending stopped.channel || is_sent stopped.channel)) ≡ false)
    × ((is_selecting stopped.reaper && any stopped.signals) ≡ false)
capped_until_reaped_example = capped_until_reaped true stopped stopped_steps
