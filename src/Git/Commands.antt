-- ===== src/Git/Commands.antt =====
-- src/git.rs, the command lines: what git is started with to reach the upstream, and to serve.
use git_cache_proxy.Base.{
  ℕ, zero, suc, ◌+◌, Bytes, codes, bytes_eq, List, [], ◌∷◌, ◌++◌, Option, none, some, if◌then◌else◌,
  length, to_decimal, parse_u64, ◌≡◌, refl,
}
use git_cache_proxy.Repo.{RepoRef}
use git_cache_proxy.Git.Mirrors.{proxy_wants_ns}

-- The part of `GitConfig` that the command lines are made from.
pub record CommandConfig : Type 0 where
  pub git_binary : Bytes
  pub upstream_auth_header : Option Bytes
  pub big_file_threshold : Bytes
  pub pack_threads : Option ℕ
  pub pack_window_memory : Option Bytes

pub record Command : Type 0 where
  pub program : Bytes
  pub args : List Bytes
  pub env : List (Bytes × Bytes)

abbrev pub Env : Type 0
Env = List (Bytes × Bytes)

unfoldable pub config_pairs : Bytes → Option Bytes → Env
config_pairs big_file_threshold none =
    (codes "core.bigFileThreshold", big_file_threshold)
    ∷ (codes "core.deltaBaseCacheLimit", codes "128m")
    ∷ []
config_pairs big_file_threshold (some h) =
    (codes "core.bigFileThreshold", big_file_threshold)
    ∷ (codes "core.deltaBaseCacheLimit", codes "128m")
    ∷ (codes "http.extraHeader", h)
    ∷ []

unfoldable pub numbered : ℕ → Env → Env
numbered i [] = []
numbered i ((k, v) ∷ pairs) =
    (codes "GIT_CONFIG_KEY_" ++ to_decimal i, k)
    ∷ (codes "GIT_CONFIG_VALUE_" ++ to_decimal i, v)
    ∷ numbered (i + 1) pairs

unfoldable pub git_config_env : Bytes → Option Bytes → Env
unfolding config_pairs numbered
git_config_env big_file_threshold auth_header =
    let pairs = config_pairs big_file_threshold auth_header in
    (codes "GIT_CONFIG_COUNT", to_decimal (length pairs)) ∷ numbered 0 pairs

unfoldable pub fetch_cmd : CommandConfig → Command
unfolding git_config_env
fetch_cmd cfg = record {
  program = cfg.git_binary;
  args = [];
  env =
      (codes "GIT_TERMINAL_PROMPT", codes "0")
      ∷ (codes "LC_ALL", codes "C")
      ∷ git_config_env cfg.big_file_threshold cfg.upstream_auth_header;
}

-- The clone of a mirror, and the fetch of one that is there, in its directory.
unfoldable pub clone_cmd : CommandConfig → RepoRef → Bytes → Command
unfolding fetch_cmd
clone_cmd cfg repo tmp =
    let c = fetch_cmd cfg in
    record c {
      args =
          c.args
          ++ (codes "clone" ∷ codes "--mirror" ∷ codes "--quiet" ∷ repo.upstream_url ∷ tmp ∷ []);
    }

unfoldable pub pull_cmd : CommandConfig → Command
unfolding fetch_cmd
pull_cmd cfg =
    let c = fetch_cmd cfg in
    record c {
      args =
          c.args
          ++ (codes "fetch"
              ∷ codes "--prune"
              ∷ codes "--quiet"
              ∷ codes "origin"
              ∷ codes "+refs/*:refs/*"
              ∷ (codes "^" ++ (proxy_wants_ns ++ codes "/*"))
              ∷ []);
    }

abbrev pub threads_arg : Option ℕ → List Bytes
threads_arg none = []
threads_arg (some n) = codes "-c" ∷ (codes "pack.threads=" ++ to_decimal n) ∷ []

abbrev pub memory_arg : Option Bytes → List Bytes
memory_arg none = []
memory_arg (some m) = codes "-c" ∷ (codes "pack.windowMemory=" ++ m) ∷ []

abbrev pub protocol_env : Option Bytes → Env
protocol_env none = []
protocol_env (some p) = (codes "GIT_PROTOCOL", p) ∷ []

unfoldable pub local_cmd : Option Bytes → CommandConfig → Command
local_cmd git_protocol cfg = record {
  program = cfg.git_binary;
  args =
      codes "-c"
      ∷ codes "uploadpack.allowFilter=true"
      ∷ codes "-c"
      ∷ (codes "uploadpack.hideRefs=" ++ proxy_wants_ns)
      ∷ (threads_arg cfg.pack_threads ++ memory_arg cfg.pack_window_memory);
  env = protocol_env git_protocol;
}

-- How git reads its configuration from the environment, by its documentation: a count, and for each
-- number below it a key and a value.
abbrev pub variable : Bytes → Env → Option Bytes
variable k [] = none
variable k ((j, v) ∷ env) = if bytes_eq j k then some v else variable k env

abbrev pub read_pairs : ℕ → ℕ → Env → Option Env
read_pairs zero i env = some []
read_pairs (suc n) i env = elim (variable (codes "GIT_CONFIG_KEY_" ++ to_decimal i) env) [
  | none ↦ none
  | some k ↦ elim (variable (codes "GIT_CONFIG_VALUE_" ++ to_decimal i) env) [
    | none ↦ none
    | some v ↦ elim (read_pairs n (i + 1) env) [ none ↦ none | some rest ↦ some ((k, v) ∷ rest) ]
  ]
]

abbrev pub read_config : Env → Option Env
read_config env = elim (variable (codes "GIT_CONFIG_COUNT") env) [
  | none ↦ some []
  | some c ↦ elim (parse_u64 c) [ none ↦ none | some n ↦ read_pairs n 0 env ]
]

-- The configuration that a command for the upstream is meant to have.
abbrev pub upstream_config : CommandConfig → Env
upstream_config cfg =
    (codes "core.bigFileThreshold", cfg.big_file_threshold)
    ∷ (codes "core.deltaBaseCacheLimit", codes "128m")
    ∷ (elim cfg.upstream_auth_header [ none ↦ [] | some h ↦ (codes "http.extraHeader", h) ∷ [] ])

env_read :
    (threshold : Bytes) (header : Option Bytes)
    → read_config (
        (codes "GIT_TERMINAL_PROMPT", codes "0")
        ∷ (codes "LC_ALL", codes "C")
        ∷ git_config_env threshold header)
      ≡ some (
          (codes "core.bigFileThreshold", threshold)
          ∷ (codes "core.deltaBaseCacheLimit", codes "128m")
          ∷ (elim header [ none ↦ [] | some h ↦ (codes "http.extraHeader", h) ∷ [] ]))
unfolding git_config_env bytes_eq to_decimal parse_u64
env_read threshold none = refl
env_read threshold (some h) = refl

none_read : (git_protocol : Option Bytes) → read_config (protocol_env git_protocol) ≡ some []
unfolding bytes_eq
none_read none = refl
none_read (some p) = refl

-- From the environment of a clone and of a fetch, git reads exactly the two memory limits and, if there
-- is one, the authorization header; the arguments of both are the same whatever the header is; and
-- a command that serves a client has no such configuration.
pub commands_configured :
    (cfg : CommandConfig) (repo : RepoRef) (tmp : Bytes) (git_protocol other : Option Bytes)
    → let changed = record cfg { upstream_auth_header = other } in
      (read_config (clone_cmd cfg repo tmp).env ≡ some (upstream_config cfg))
      × (read_config (pull_cmd cfg).env ≡ some (upstream_config cfg))
      × ((clone_cmd changed repo tmp).args ≡ (clone_cmd cfg repo tmp).args)
      × ((pull_cmd changed).args ≡ (pull_cmd cfg).args)
      × (read_config (local_cmd git_protocol cfg).env ≡ some [])
unfolding fetch_cmd clone_cmd pull_cmd local_cmd
commands_configured cfg repo tmp git_protocol other =
    let read = env_read cfg.big_file_threshold cfg.upstream_auth_header in
    (read, read, refl, refl, none_read git_protocol)
