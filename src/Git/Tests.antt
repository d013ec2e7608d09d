-- ===== src/Git/Tests.antt =====
-- Runs of the parts of src/git.rs, after its own unit tests, and the theorems at concrete inputs.
use git_cache_proxy.Repo.{RepoRef}
use git_cache_proxy.Git.Commands.{
  CommandConfig, clone_cmd, pull_cmd, upstream_config, local_cmd, read_config, commands_configured,
}
use git_cache_proxy.Base.{
  inl, some, none, Bytes, codes, List, [], ◌∷◌, ◌++◌, mem, insert, ◌≡◌, refl, arith,
}
use git_cache_proxy.Git.PktLine.{pkt_line, from_str_radix}
use git_cache_proxy.Git.Wants.{parse_wants, frame_length, wants_loop, add_want}
use git_cache_proxy.Git.Wants.Frames.{
  Frame, flush, delim, line, encode_all, encode, any_asks, parse_wants_exactly,
}
use git_cache_proxy.Git.Wants.Sound.{AreOids, parse_wants-AreOids, wants_loop_total}

abbrev sha : Bytes
sha = codes "0123456789abcdef0123456789abcdef01234567"

abbrev request : List Frame
request =
    line (codes "command=fetch")
    ∷ delim
    ∷ line (codes "want " ++ sha ++ codes "\n")
    ∷ line (codes "have want " ++ sha)
    ∷ line (codes "want short")
    ∷ flush
    ∷ []

pkt_line_runs : pkt_line (codes "hi") ≡ codes "0006hi"
unfolding pkt_line
pkt_line_runs = refl

parses : parse_wants (encode_all request) ≡ sha ∷ []
unfolding parse_wants encode_all encode pkt_line frame_length from_str_radix add_want insert
parses = refl

parse_wants_exactly_example :
    mem sha (parse_wants (encode_all request ++ codes "zzzz")) ≡ any_asks sha request
unfolding frame_length from_str_radix
parse_wants_exactly_example =
    parse_wants_exactly request (codes "zzzz") sha (omega arith) (inl refl)

parse_wants-AreOids_example : AreOids (parse_wants (encode_all request))
parse_wants-AreOids_example = parse_wants-AreOids (encode_all request)

wants_loop_total_example : wants_loop 9 (codes "0006hi") [] ≡ wants_loop 7 (codes "0006hi") []
wants_loop_total_example = wants_loop_total 9 7 (codes "0006hi") [] (omega arith) (omega arith)

abbrev commands : CommandConfig
commands = record {
  git_binary = codes "git";
  upstream_auth_header = some (codes "Authorization: t");
  big_file_threshold = codes "8m";
  pack_threads = some 2;
  pack_window_memory = none;
}

abbrev cloned_repo : RepoRef
cloned_repo = record {
  name = codes "g/r.git";
  upstream_url = codes "https://up/g/r.git";
  cache_dir = codes "/c/g/r.git";
}

commands_configured_example :
    let changed = record commands { upstream_auth_header = none } in
    let tmp = codes "/c/g/r.git.__incoming__" in
    (read_config (clone_cmd commands cloned_repo tmp).env ≡ some (upstream_config commands))
    × (read_config (pull_cmd commands).env ≡ some (upstream_config commands))
    × ((clone_cmd changed cloned_repo tmp).args ≡ (clone_cmd commands cloned_repo tmp).args)
    × ((pull_cmd changed).args ≡ (pull_cmd commands).args)
    × (read_config (local_cmd none commands).env ≡ some [])
commands_configured_example =
    commands_configured commands cloned_repo (codes "/c/g/r.git.__incoming__") none none
