-- ===== src/Git.antt =====
-- src/git.rs, by parts: the pkt-lines and the wants of a request body, the calls of git on the
-- upstream with their retries, and the cache of mirrors.
pub mod Commands
pub mod Advertise
pub mod Serve
pub mod PktLine
pub mod Wants
pub mod Diagnostics
pub mod Retry
pub mod Mirrors
pub mod MirrorTests
mod Tests
