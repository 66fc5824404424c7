-- ===== src/Runtime/Clients.antt =====
-- How a runtime is made from the settings: NewDockerRuntime, NewPodmanRuntime and NewK8sRuntime of
-- internal/runtime, and newRuntime of cmd/cternal/main.go. The clients are those of the libraries.
use cternal.Prelude.{
  ℕ, Option, none, some, List, [], ◌∷◌, ◌++◌, Bytes, codes, bytes_eq, is_empty, if◌then◌else◌,
}
use cternal.Runtime.{Reply, gives, fails}
use cternal.Runtime.Docker.{Client, ClientOption, from_env, podman_options}

-- A Kubernetes client and its configuration are numbers.
pub record K8sRuntime : Type 0 where
  pub client : ℕ
  pub rest_cfg : ℕ
  pub namespace : Bytes

-- What the libraries make: a Docker client of its options, a configuration inside a cluster or of a file,
-- a Kubernetes client of its configuration.
pub record Libraries : Type 0 where
  pub docker_client : List ClientOption → Reply Client
  pub in_cluster_config : Reply ℕ
  pub recommended_home_file : Bytes
  pub build_config : Bytes → Reply ℕ
  pub new_for_config : ℕ → Reply ℕ

pub data AnyRuntime : Type 0 where
  docker_runtime : Client → AnyRuntime
  k8s_runtime : K8sRuntime → AnyRuntime

pub data RuntimeKind : Type 0 where
  docker : RuntimeKind
  podman : RuntimeKind
  kubernetes : RuntimeKind

-- newRuntime's switch; `none` is its error.
unfoldable pub runtime_kind : Bytes → Option RuntimeKind
runtime_kind name =
    if bytes_eq name (codes "docker")
    then some docker
    else if bytes_eq name []
    then some docker
    else if bytes_eq name (codes "podman")
    then some podman
    else if bytes_eq name (codes "k8s")
    then some kubernetes
    else if bytes_eq name (codes "kubernetes")
    then some kubernetes
    else none

module _ (lib : Libraries) where
  unfoldable pub new_docker_runtime : Reply AnyRuntime
  new_docker_runtime = elim (lib.docker_client (from_env ∷ [])) [
    | fails e ↦ fails (codes "docker client: " ++ e)
    | gives cli ↦ gives (docker_runtime cli)
  ]

  unfoldable pub new_podman_runtime : Bytes → Reply AnyRuntime
  unfolding podman_options
  new_podman_runtime host = elim (lib.docker_client (podman_options host)) [
    | fails e ↦ fails e
    | gives cli ↦ gives (docker_runtime cli)
  ]

  -- The configuration inside a cluster, or else that of the file that is given or recommended.
  unfoldable pub k8s_config : Bytes → Reply ℕ
  k8s_config kubeconfig = elim lib.in_cluster_config [
    | gives cfg ↦ gives cfg
    | fails outside ↦
        let path = if is_empty kubeconfig then lib.recommended_home_file else kubeconfig in
        elim (lib.build_config path) [
          | fails e ↦ fails (codes "k8s config: " ++ e)
          | gives cfg ↦ gives cfg
        ]
  ]

  unfoldable pub new_k8s_runtime : Bytes → Bytes → Reply AnyRuntime
  unfolding k8s_config
  new_k8s_runtime kubeconfig namespace = elim (k8s_config kubeconfig) [
    | fails e ↦ fails e
    | gives cfg ↦ elim (lib.new_for_config cfg) [
      | fails e ↦ fails (codes "k8s client: " ++ e)
      | gives client ↦ gives (
          k8s_runtime (record {
            client = client;
            rest_cfg = cfg;
            namespace = if is_empty namespace then codes "default" else namespace;
          }))
    ]
  ]

  unfoldable pub new_runtime : Bytes → Bytes → Bytes → Reply AnyRuntime
  unfolding runtime_kind new_docker_runtime new_podman_runtime new_k8s_runtime
  new_runtime name podman_host kubeconfig = elim (runtime_kind name) [
    | none ↦ fails (codes "unsupported runtime: " ++ name)
    | some kind ↦ elim kind [
      | docker ↦ new_docker_runtime
      | podman ↦ new_podman_runtime podman_host
      | kubernetes ↦ new_k8s_runtime kubeconfig []
    ]
  ]
