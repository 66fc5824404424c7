-- ===== src/Serve/Command.antt =====
-- cmd/cternal/main.go: the command line, the logger, and runServe with its telemetry.
pub mod Whole
use cternal.Prelude.{
  ℕ, Bool, true, false, Option, none, some, List, [], ◌∷◌, ◌++◌, Bytes, codes, bytes_eq, ◌==◌,
  if◌then◌else◌,
}
use cternal.Runtime.{Reply, gives, fails}
use cternal.Runtime.Clients.{Libraries}
use cternal.Telemetry.{Provider, Sdk, Environment, Otel, init, shutdown}
use cternal.Session.{Session}
use cternal.Serve.{Settings, Running, run_serve}

abbrev pub is_flag : Bytes → Bool
is_flag [] = false
is_flag (c ∷ s) = c == b'-'

-- The arguments that main hands to the commands, of those of the process.
unfoldable pub default_args : List Bytes → List Bytes
default_args [] = []
default_args (program ∷ []) = program ∷ codes "serve" ∷ []
default_args (program ∷ arg ∷ args) =
    if is_flag arg then program ∷ codes "serve" ∷ arg ∷ args else program ∷ arg ∷ args

pub data Level : Type 0 where
  debug : Level
  info : Level
  warn : Level
  error : Level

-- setupLogger: the level, and whether the lines are JSON.
unfoldable pub setup_logger : Bytes → Bytes → Level × Bool
setup_logger level format = (
  if bytes_eq level (codes "debug")
      then debug
      else if bytes_eq level (codes "warn")
      then warn
      else if bytes_eq level (codes "error")
      then error
      else info,
  bytes_eq format (codes "json"),
)

-- versionCmd's line
unfoldable pub version_line : Bytes → Bytes → Bytes → Bytes
version_line version commit build_date =
    codes "cternal "
    ++ (version
        ++ codes " (commit: "
        ++ (commit ++ codes ", built: " ++ (build_date ++ codes ")\n")))

-- completionCmd: the shell that a script is made for, by the one argument that is allowed; `none` is no script
-- and no error.
pub data Shell : Type 0 where
  bash : Shell
  zsh : Shell
  fish : Shell
  powershell : Shell

unfoldable pub completion : Bytes → Option Shell
completion arg =
    if bytes_eq arg (codes "bash")
    then some bash
    else if bytes_eq arg (codes "zsh")
    then some zsh
    else if bytes_eq arg (codes "fish")
    then some fish
    else if bytes_eq arg (codes "powershell")
    then some powershell
    else none

-- What runServe has done when it returns: the logger, the telemetry that was begun, the failure of it that was
-- warned of, the server, the exporters that were shut down, and the error.
pub record Ran : Type 0 where
  pub logger : Level × Bool
  pub otel : Otel
  pub warned : Option Bytes
  pub started : Reply Running
  pub shut : List ℕ
  pub error : Bytes

-- runServe; http.ListenAndServe returns with an error alone, and Shutdown is deferred.
unfoldable pub serve :
    Sdk → Environment → Libraries → (Bytes → Bytes) → Settings → (ℕ → Session) → Ran
unfolding setup_logger
serve sdk env lib listen set heap =
    let (otel, prov) = init sdk env set.version in
    let started = run_serve lib set heap in
    record {
      logger = setup_logger set.log_level set.log_format;
      otel = otel;
      warned = elim prov [ fails e ↦ some e | gives p ↦ none ];
      started = started;
      shut = elim prov [ fails e ↦ [] | gives p ↦ shutdown p ];
      error = elim started [ fails e ↦ e | gives st ↦ listen set.addr ];
    }
