-- ===== src/Git/Serve.antt =====
-- src/git.rs, the streaming of a pack: `upload_pack_rpc`, the `TimedReader` that the client reads
-- from, and `reap_upload_pack`, the task that waits for the child. The two share a channel. The
-- reader, the child and the task take their steps in any order.
pub mod Once
pub mod Phases
mod Tests
use git_cache_proxy.Base.{
  ℕ, zero, suc, ◌+◌, List, [], ◌∷◌, Bool, true, false, Option, none, some, if◌then◌else◌, ◌≡◌,
}

-- The channel `served`: unsent with its sender alive, sent, or closed unsent.
pub data Channel : Type 0 where
  pending sent closed : Channel

-- The task is over when it has reaped the child, or when the wait for the child failed.
pub data Reaper : Type 0 where
  selecting waiting reaped lost : Reaper

-- `killed_group` and `killed_child` are the signals; the first may fail.
pub data Signal : Type 0 where
  killed_group kill_group_failed killed_child : Signal

-- `recorder` and `sender` are the fields of `TimedReader` that are taken; `reading` is false once it is
-- dropped. `observed` counts the calls of `observe_serve`, `permit` is the permit of the task.
pub record Serving : Type 0 where
  pub reading : Bool
  pub recorder : Bool
  pub sender : Bool
  pub channel : Channel
  pub exited : Bool
  pub reaper : Reaper
  pub permit : Bool
  pub signals : List Signal
  pub observed : ℕ

-- What a poll of the child's output gives.
pub data Polled : Type 0 where
  not_ready : Polled
  failed : Polled
  filled : ℕ → Polled

-- After the start of the child and of the task, and the write of the request: if that fails, the sender
-- is dropped and there is no reader.
unfoldable pub rpc_started : Bool → Serving
rpc_started written = record {
  reading = written;
  recorder = written;
  sender = written;
  channel = if written then pending else closed;
  exited = false;
  reaper = selecting;
  permit = true;
  signals = [];
  observed = 0;
}

-- Nothing runs if the child cannot be started.
unfoldable pub upload_pack_rpc : Bool → Bool → Option Serving
unfolding rpc_started
upload_pack_rpc spawned written = if spawned then some (rpc_started written) else none

unfoldable pub record_serve : Serving → Serving
record_serve s = if s.recorder then record s { recorder = false; observed = suc s.observed } else s

unfoldable pub finish : Serving → Serving
unfolding record_serve
finish s = record_serve (if s.sender then record s { sender = false; channel = sent } else s)

unfoldable pub poll_read : Polled → Serving → Serving
unfolding finish
poll_read not_ready s = s
poll_read failed s = s
poll_read (filled zero) s = finish s
poll_read (filled (suc n)) s = s

-- `Drop`, and then the drop of the fields: a sender that is left closes the channel.
unfoldable pub drop_reader : Serving → Serving
unfolding record_serve
drop_reader s =
    let s' : Serving = record_serve s in
    let t : Serving = record s' { reading = false } in
    if t.sender then record t { sender = false; channel = closed } else t

unfoldable pub reaped_child : Serving → Serving
reaped_child s = record s { reaper = reaped; permit = false }

-- The end of the task when `child.wait()` gives an error: the child may still run.
unfoldable pub lose_child : Serving → Serving
lose_child s = record s { reaper = lost; permit = false }

-- `kill_group`, and the kill of the child alone if that fails.
unfoldable pub kill : Bool → Serving → Serving
kill group_killed s =
    if group_killed
    then record s { reaper = waiting; signals = killed_group ∷ s.signals }
    else record s { reaper = waiting; signals = killed_child ∷ kill_group_failed ∷ s.signals }

-- One poll of the task. The wait for the child comes first; it may fail.
unfoldable pub reap : Bool → Bool → Serving → Serving
unfolding reaped_child lose_child kill
reap wait_failed group_killed s = elim s.reaper [
  | selecting ↦
      if wait_failed then lose_child s else if s.exited then reaped_child s else elim s.channel [
        | pending ↦ s
        | sent ↦ record s { reaper = waiting }
        | closed ↦ kill group_killed s
      ]
  | waiting ↦ if wait_failed then lose_child s else if s.exited then reaped_child s else s
  | reaped ↦ s
  | lost ↦ s
]

unfoldable pub child_exit : Serving → Serving
child_exit s = record s { exited = true }

-- A step of the reader, of the child or of the task.
pub data ServeStep : Serving → Serving → Type 0 where
  polled : {s : Serving} → (p : Polled) → s.reading ≡ true → ServeStep s (poll_read p s)
  dropped : {s : Serving} → s.reading ≡ true → ServeStep s (drop_reader s)
  child_exited : {s : Serving} → ServeStep s (child_exit s)
  task_polled :
      {s : Serving}
      → (wait_failed group_killed : Bool) → ServeStep s (reap wait_failed group_killed s)

pub data ServeSteps : Serving → Serving → Type 0 where
  no_steps : {s : Serving} → ServeSteps s s
  then_step : {s t u : Serving} → ServeSteps s t → ServeStep t u → ServeSteps s u
