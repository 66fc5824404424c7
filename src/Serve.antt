-- ===== src/Serve.antt =====
-- cmd/cternal/main.go: what the serve command makes of its settings. The flags and the environment, as
-- viper has resolved them, and the libraries' clients of the runtimes are parameters.
pub mod Urls
pub mod Started
pub mod Command
mod Tests
use cternal.Prelude.{
  ℕ, suc, ◌*◌, ◌-◌, ◌^◌, Option, none, some, List, [], ◌∷◌, ◌++◌, Bytes, codes, bytes_eq,
  if◌then◌else◌,
}
use cternal.Prelude.Int.{ℤ, pos, negsuc, wrap64}
use cternal.Std.{split, trim_space}
use cternal.Runtime.{Reply, gives, fails}
use cternal.Runtime.Clients.{AnyRuntime, Libraries, new_runtime}
use cternal.Session.{Session}
use cternal.Store.{new_store}
use cternal.Ttl.{new_manager}
use cternal.Api.{Config, Server, new_server}

-- The loop over the parts of one setting: each is trimmed, and kept if something is left of it.
pub trimmed : List Bytes → List Bytes
unfolding trim_space
trimmed [] = []
trimmed (part ∷ parts) =
    let rest = trimmed parts in let u = trim_space part in if bytes_eq u [] then rest else u ∷ rest

pub urls_of : List Bytes → List Bytes
unfolding trimmed split
urls_of [] = []
urls_of (raw ∷ raws) = trimmed (split b',' raw) ++ urls_of raws

-- The webhook URLs of the flags and of the environment's setting, each of which may be a list.
unfoldable pub webhook_urls : List Bytes → Bytes → List Bytes
unfolding urls_of split
webhook_urls flag_urls env = urls_of (flag_urls ++ split b',' env)

-- The settings of the serve command.
pub record Settings : Type 0 where
  pub addr : Bytes
  pub log_level : Bytes
  pub log_format : Bytes
  pub runtime : Bytes
  pub max_sessions : ℤ
  pub session_ttl : ℤ
  pub scrollback : ℤ
  pub base_path : Bytes
  pub version : Bytes
  pub webhook_flags : List Bytes
  pub webhook_env : Bytes
  pub export_url : Bytes
  pub user_header : Bytes
  pub logout_url : Bytes
  pub podman_host : Bytes
  pub kubeconfig : Bytes

abbrev pub second : ℕ
second = 10 ^ 9

-- time.Duration(seconds) * time.Second
unfoldable pub ttl_of : ℤ → ℤ
ttl_of (pos n) = wrap64 (pos (n * second))
ttl_of (negsuc n) = wrap64 (negsuc (suc n * second - 1))

abbrev pub config_of : Settings → Config
config_of set = record {
  runtime = set.runtime;
  max_sessions = set.max_sessions;
  base_path = set.base_path;
  version = set.version;
  scrollback = set.scrollback;
  logout_url = set.logout_url;
  webhook_urls = webhook_urls set.webhook_flags set.webhook_env;
  export_url = set.export_url;
  user_header = set.user_header;
}

-- The server that is to listen, and the runtime that it is given.
pub record Running : Type 0 where
  pub server : Server
  pub runtime : AnyRuntime

-- From the settings to the server. The heap is what the memory holds of sessions before there are any.
unfoldable pub run_serve : Libraries → Settings → (ℕ → Session) → Reply Running
unfolding new_runtime ttl_of webhook_urls
run_serve lib set heap = elim (new_runtime lib set.runtime set.podman_host set.kubeconfig) [
  | fails e ↦ fails (codes "runtime: " ++ e)
  | gives rt ↦ gives (record {
    server =
        new_server (config_of set) (new_store set.max_sessions)
          (new_manager (ttl_of set.session_ttl)) heap;
    runtime = rt;
  })
]
