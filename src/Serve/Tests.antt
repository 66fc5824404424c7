-- ===== src/Serve/Tests.antt =====
-- Examples of settings.
use cternal.Prelude.{
  ◌≡◌, ◌≢◌, refl, none, some, List, [], ◌∷◌, ◌++◌, Bytes, codes, bytes_eq, All, if◌then◌else◌,
}
use cternal.Prelude.Int.{pos}
use cternal.Runtime.{gives, fails}
use cternal.Runtime.Clients.{
  AnyRuntime, k8s_runtime, Libraries, runtime_kind, k8s_config, new_k8s_runtime, new_runtime,
}
use cternal.Runtime.Docker.Tests.{daemon}
use cternal.Telemetry.{init}
use cternal.Telemetry.Tests.{sdk, given}
use cternal.Api.History.{Reachable}
use cternal.Serve.{Settings, Running, ttl_of}
use cternal.Serve.Command.{default_args, serve}
use cternal.Serve.Command.Whole.{serve_lem}
use cternal.Samples.{floats, json, heap}

abbrev flags : List Bytes
flags = codes "http://a, http://b" ∷ []

abbrev hour : Settings
hour = record {
  addr = codes ":3000";
  log_level = codes "warn";
  log_format = codes "text";
  runtime = codes "k8s";
  max_sessions = pos 100;
  session_ttl = pos 3600;
  scrollback = pos 5000;
  base_path = [];
  version = codes "dev";
  webhook_flags = flags;
  webhook_env = [];
  export_url = [];
  user_header = [];
  logout_url = [];
  podman_host = [];
  kubeconfig = [];
}

-- Outside a cluster, with a file that is recommended.
abbrev libraries : Libraries
libraries = record {
  docker_client = λ opts. gives daemon;
  in_cluster_config = fails (codes "not in a cluster");
  recommended_home_file = codes "~/.kube/config";
  build_config = λ path. if bytes_eq path (codes "~/.kube/config") then gives 5 else fails path;
  new_for_config = λ cfg. gives 6;
}

abbrev listen : Bytes → Bytes
listen addr = codes "listen " ++ addr

-- The Kubernetes runtime of the recommended file, in the default namespace.
kubernetes_of_home :
    new_runtime libraries (codes "k8s") [] []
    ≡ gives (k8s_runtime (record { client = 6; rest_cfg = 5; namespace = codes "default" }))
unfolding new_runtime runtime_kind new_k8s_runtime k8s_config bytes_eq
kubernetes_of_home = refl

unknown_runtime :
    new_runtime libraries (codes "lxc") [] [] ≡ fails (codes "unsupported runtime: lxc")
unfolding new_runtime runtime_kind bytes_eq
unknown_runtime = refl

serve_lem_example :
    let ran = serve sdk given libraries listen hour heap in
    ((st : Running)
      → ran.started ≡ gives st
      → Reachable floats json st.server.config (ttl_of hour.session_ttl) st.server
        × (st.server.config.max_sessions ≡ hour.max_sessions)
        × All (λ u. u ≢ []) st.server.config.webhook_urls
        × (new_runtime libraries hour.runtime hour.podman_host hour.kubeconfig ≡ gives st.runtime))
    × (ran.warned ≡ none → ran.shut ≡ ran.otel.opened)
    × ((e : Bytes)
        → ran.warned ≡ some e
        → (ran.shut ≡ []) × ((init sdk given hour.version).1 ≡ fails e))
    × ((e : Bytes)
        → new_runtime libraries hour.runtime hour.podman_host hour.kubeconfig ≡ fails e
        → ran.error ≡ codes "runtime: " ++ e)
    × ((rt : AnyRuntime)
        → new_runtime libraries hour.runtime hour.podman_host hour.kubeconfig ≡ gives rt
        → ran.error ≡ listen hour.addr)
serve_lem_example = serve_lem floats json sdk given libraries listen hour heap

-- A command line of flags alone is one of the serve command.
flags_alone :
    default_args (codes "cternal" ∷ codes "--addr" ∷ [])
    ≡ codes "cternal" ∷ codes "serve" ∷ codes "--addr" ∷ []
unfolding default_args
flags_alone = refl
