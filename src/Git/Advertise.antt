-- ===== src/Git/Advertise.antt =====
-- `advertise_refs` of src/git.rs: what a client is told about the refs of a mirror.
use git_cache_proxy.Base.{
  ◌+◌, Bytes, codes, [], ◌∷◌, ◌++◌, Bool, true, Option, none, some, Option-cases, Result, ok, err,
  if◌then◌else◌, length, drop, drop-append, ◌≡◌, arith, inl, inr,
}
use git_cache_proxy.Repo.{RepoRef}
use git_cache_proxy.Git.PktLine.{pkt_line}
use git_cache_proxy.Git.Wants.{frame_length}
use git_cache_proxy.Git.Wants.Frames.{frame_length-line, length-pkt_line}
use git_cache_proxy.Git.Commands.{CommandConfig, Command, local_cmd}

-- What a command that ended left.
pub record Output : Type 0 where
  pub success : Bool
  pub stdout : Bytes
  pub stderr : Bytes

pub data AdvertiseError : Type 0 where
  not_started : AdvertiseError
  advertise_failed : Bytes → Bytes → AdvertiseError

abbrev pub service_line : Bytes
service_line = codes "# service=git-upload-pack\n"

unfoldable pub advertisement : Bytes → Bytes
advertisement out = pkt_line service_line ++ (codes "0000" ++ out)

unfoldable pub advertise_cmd : Option Bytes → RepoRef → CommandConfig → Command
unfolding local_cmd
advertise_cmd git_protocol repo cfg =
    let cmd = local_cmd git_protocol cfg in
    record cmd {
      args =
          cmd.args
          ++ (codes "upload-pack"
              ∷ codes "--stateless-rpc"
              ∷ codes "--advertise-refs"
              ∷ repo.cache_dir
              ∷ []);
    }

-- `run` is what git does, `none` when it could not be started. The second part of the result is the
-- repository whose serve is observed.
unfoldable pub advertise_refs :
    (Command → Option Output)
    → CommandConfig
    → RepoRef
    → Option Bytes
    → Result AdvertiseError Bytes × Option Bytes
unfolding advertise_cmd advertisement
advertise_refs run cfg repo git_protocol = elim (run (advertise_cmd git_protocol repo cfg)) [
  | none ↦ (err not_started, none)
  | some out ↦
      if out.success
      then (ok (advertisement out.stdout), some repo.name)
      else (err (advertise_failed repo.name out.stderr), none)
]

-- A reader of frames finds one of the length of the service line, and behind it a flush and what
-- git wrote.
pub advertisement_read :
    (out : Bytes)
    → (frame_length (advertisement out) ≡ some (length service_line + 4))
      × (drop (length service_line + 4) (advertisement out) ≡ codes "0000" ++ out)
unfolding advertisement
advertisement_read out =
    let rest : Bytes = codes "0000" ++ out in
    (
      frame_length-line service_line rest (omega arith),
      drop-append (pkt_line service_line) rest (length service_line + 4)
          (length-pkt_line service_line (omega arith)),
    )

-- If there is a body, git was started and succeeded, the body is the advertisement of what it wrote,
-- and the serve of the repository is observed.
pub advertise_refs_ok :
    (run : Command → Option Output) (cfg : CommandConfig) (repo : RepoRef)
    (git_protocol : Option Bytes) (body : Bytes)
    → (advertise_refs run cfg repo git_protocol).0 ≡ ok body
    → (out : Output) × (run (advertise_cmd git_protocol repo cfg) ≡ some out)
      × (out.success ≡ true)
      × (body ≡ advertisement out.stdout)
      × ((advertise_refs run cfg repo git_protocol).1 ≡ some repo.name)
unfolding advertise_refs
advertise_refs_ok run cfg repo git_protocol body e =
    elim (Option-cases (run (advertise_cmd git_protocol repo cfg))) [
      | inl n ↦ absurd (ground (arith, e, n))
      | inr (out, r) ↦ (out, r, ground (arith, e, r), ground (arith, e, r), ground (arith, e, r))
    ]
