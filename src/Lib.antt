-- ===== src/Lib.antt =====
-- git-cache-proxy, a read-only caching proxy for Git repositories.
--
-- A request names a repository. `resolve` maps the name to an upstream URL and to a directory below
-- the cache root; the git layer clones, fetches and serves the mirror there; an index of everything
-- that is cached, kept in access order, decides what a background pass deletes.
--
-- - FilePath: what the sources use of `std::path` on Unix (components, `join`, `starts_with`).
-- - Repo, for src/repo.rs: `resolve` and the parsers of the LFS paths, one definition per function.
--   A string is the list of its bytes.
-- - Lru: the interface of the `lru` crate, its documented behaviour as laws, and an instance.
-- - Evict, for src/evict.rs: `CacheIndex` as a state, each critical section of its mutex as a
--   function of it. Calls of the metrics and of `Notify` are recorded as effects. Evict/Maintain
--   has the maintenance pass; the disk is a record of outcomes, and what other tasks do to the
--   index behind each of its critical sections is its argument. Sizes are `u64` and wrap.
--   Evict/Scan has the scans of the disk over a tree; the stack loops have fuel for each directory
--   of the tree and one round more, and a lemma of Evict/Scan/Walk shows that this is enough. The
--   lossy reading of a name as text is an argument of the scans. Evict/Run has the loop of the
--   background task over a list of turns.
-- - Git, for src/git.rs: Git/Wants has `parse_wants`, with fuel for every byte of the body and one
--   more round, which a theorem shows is enough. Git/Retry has `run_upstream`: four rounds, as the
--   source has, over the answers of git and the disk to each attempt. Git/Mirrors has `GitCache`; a
--   call holds the slot of its repository, so it is one function of the state, and what git, the
--   disk and the clock answer is its argument. What a call does is recorded as events. Git/Serve
--   has the streaming of a pack as a step relation: the reader of the client, the child and the
--   task that reaps the child take their steps in any order, and the wait for the child may fail.
--   Git/Commands has the command lines and their environment, and Git/Advertise what a client is
--   told about the refs.
-- - Json: the interface of `serde_json`, its documented behaviour as laws, and an instance.
-- - Lfs, for src/lfs.rs: the store of LFS objects. `ensure_object` takes the answers of the
--   upstream and of the disk (Lfs/Outside), and what other tasks do before the slot of the object
--   is held. Lfs/Batch has the batch documents: what is rewritten for the client and what is read
--   for a download. Lfs/Downloads has the downloads that run at the same time: a call is a sequence
--   of moves, one for each await, and the moves of all calls and the evictions interleave. An
--   operation of the disk is done or not done when the client of its call goes away. A call gets
--   the lock of its object from the map of slots, takes it when it is free, and gives it up when it
--   ends. Lfs/Downloads/Alone shows that the code of a call, read from the top to the bottom, is
--   such a sequence.
-- - Server, for src/server.rs: `handle_git` and what it calls. It takes the answers of git, of the
--   upstream, of the disk, of the gzip decoder and of the JSON library, and returns the status, the
--   body where the handler makes it, and the state with the calls of the metrics. Server/Ready has
--   the readiness probe. Server/Series, for src/metrics.rs, has the families of metrics and the
--   series of each call.
-- - Start, for src/main.rs and src/config.rs: the options, and the state that is made from them;
--   Start/Session has the requests that are answered one after the other from there.
-- - System, for the index of src/evict.rs with the calls of src/git.rs and src/lfs.rs: what a call
--   tells the index is replayed on it when the call is over, and the steps of the background task
--   (measure, choose the victims, delete each, look at the disk, drop what is gone) come between
--   the calls in any order that its loop allows. A client that goes away in the middle of a call is
--   a step too: what the disk was asked to move into place then stays there, and the index is not
--   told.
--
-- Not modelled: the lines of the log, the values and the rendering of the metrics, the command line
-- parser, the routes and limits of the HTTP library, sockets and signals. In System a call, whole
-- or left, is one step: what the background task does between two awaits of one call is not seen
-- there.
mod Base
pub mod FilePath
pub mod Repo
pub mod Lru
pub mod Evict
pub mod Git
pub mod Json
pub mod Lfs
pub mod Server
pub mod Start
pub mod System
