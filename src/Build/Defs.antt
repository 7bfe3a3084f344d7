-- ===== src/Build/Defs.antt =====
-- build.rs. The environment of the build and the runs of git are parameters.
use open_rmbt_server.Common.{Bool, Option, none, some, [], if◌then◌else◌, is_empty}
use open_rmbt_server.Text.{Bytes, codes, eq_bytes, strip_prefix, trim}
use open_rmbt_server.Utf8.{is_utf8}

-- The output of a command that could be run.
pub record Output : Type 0 where
  pub success : Bool
  pub stdout : Bytes

-- What the build finds: the variables RMBTD_VERSION and RMBTD_BRANCH (`none` if they are unset or no
-- Unicode), `git describe --tags --dirty` and `git rev-parse --abbrev-ref HEAD` (`none` if git
-- cannot be run), and CARGO_PKG_VERSION.
pub record Env : Type 0 where
  pub version : Option Bytes
  pub branch : Option Bytes
  pub describe : Option Output
  pub rev_parse : Option Output
  pub pkg_version : Bytes

-- `a.or_else(b)` and `a.unwrap_or(d)`.
abbrev pub or_else : Option Bytes → Option Bytes → Option Bytes
or_else none b = b
or_else (some a) b = some a

abbrev pub unwrap_or : Option Bytes → Bytes → Bytes
unwrap_or none d = d
unwrap_or (some a) d = a

abbrev pub non_empty : Bytes → Option Bytes
non_empty v = if is_empty v then none else some v

unfoldable pub env_override : Option Bytes → Option Bytes
unfolding trim
env_override none = none
env_override (some v) = non_empty (trim v)

-- The text that a command printed, if it succeeded.
unfoldable pub printed : Option Output → Option Bytes
unfolding is_utf8 trim
printed none = none
printed (some o) =
    if o.success then (if is_utf8 o.stdout then some (trim o.stdout) else none) else none

unfoldable pub git_branch : Option Output → Option Bytes
unfolding printed eq_bytes
git_branch out = elim (printed out) [
  | none ↦ none
  | some b ↦ if eq_bytes b (codes "HEAD") then none else non_empty b
]

unfoldable pub git_describe : Option Output → Option Bytes
unfolding printed
git_describe out = elim (printed out) [ none ↦ none | some v ↦ non_empty v ]

-- RMBTD_VERSION and RMBTD_BRANCH as the program is compiled with.
pub record Version : Type 0 where
  pub version : Bytes
  pub branch : Bytes

unfoldable pub main : Env → Version
unfolding env_override git_describe git_branch strip_prefix
main env =
    let found =
      unwrap_or (or_else (env_override env.version) (git_describe env.describe)) env.pkg_version in
    record {
      version = unwrap_or (strip_prefix (codes "v") found) found;
      branch = unwrap_or (or_else (env_override env.branch) (git_branch env.rev_parse)) [];
    }
