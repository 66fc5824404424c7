-- ===== src/Runtime/K8s.antt =====
-- internal/runtime/k8s.go: pods as containers. The cluster's answer to the listing of pods, and what its
-- clients are asked to do, stand for the Kubernetes libraries.
pub mod Ids
pub mod Requests
pub mod Stream
mod Tests
use cternal.Prelude.{
  ℕ, Bool, true, false, not, ◌&&◌, Option, none, some, List, [], ◌∷◌, ◌++◌, Bytes, codes, bytes_eq,
  if◌then◌else◌, is_empty,
}
use cternal.Std.{contains, split_n}
use cternal.Runtime.{Filter, Container, ExecOptions, LogsOptions}

pub record PodContainer : Type 0 where
  pub name : Bytes
  pub image : Bytes

pub record Pod : Type 0 where
  pub namespace : Bytes
  pub name : Bytes
  pub phase : Bytes
  pub containers : List PodContainer

-- Sprintf of "%s/%s/%s"
unfoldable pub k8s_id : Bytes → Bytes → Bytes → Bytes
k8s_id ns pod ctr = ns ++ b'/' ∷ (pod ++ b'/' ∷ ctr)

-- The containers of a pod, before those of the pods behind it.
pod_containers : Pod → Bool → List PodContainer → List Container → List Container
pod_containers pod running [] rest = rest
pod_containers pod running (c ∷ cs) rest =
    record {
      id = k8s_id pod.namespace pod.name c.name;
      name = pod.name ++ b'/' ∷ c.name;
      image = c.image;
      status = pod.phase;
      running = running;
      runtime = [];
      labels = [];
    }
    ∷ pod_containers pod running cs rest

abbrev pub is_running : Pod → Bool
is_running pod = bytes_eq pod.phase (codes "Running")

-- The pods that the loop passes over.
unfoldable pub is_skipped : Filter → Pod → Bool
unfolding contains
is_skipped f pod =
    if not (bytes_eq f.name []) && not (contains f.name pod.name)
    then true
    else bytes_eq f.status (codes "running") && not (is_running pod)

unfoldable pub list_pods : Filter → List Pod → List Container
unfolding pod_containers k8s_id is_skipped
list_pods f [] = []
list_pods f (pod ∷ pods) =
    let rest = list_pods f pods in
    if is_skipped f pod then rest else pod_containers pod (is_running pod) pod.containers rest

-- `none` is the error of an id that has no three parts.
unfoldable pub parse_k8s_id : Bytes → Option (Bytes × Bytes × Bytes)
unfolding split_n
parse_k8s_id id = elim (split_n b'/' 3 id) [
  | [] ↦ none
  | namespace ∷ ps ↦ elim ps [
    | [] ↦ none
    | pod ∷ qs ↦ elim qs [
      | [] ↦ none
      | container ∷ rs ↦ elim rs [ [] ↦ some (namespace, pod, container) | _ ∷ _ ↦ none ]
    ]
  ]
]

-- What is asked of the cluster for a container of a pod: to run a command in it, to attach to it, each with
-- a terminal, and to read its log.
pub data PodRequest : Type 0 where
  execs : Bytes → Bytes → Bytes → List Bytes → PodRequest
  attaches : Bytes → Bytes → Bytes → PodRequest
  reads_log : Bytes → Bytes → Bytes → Bool → PodRequest

-- An id that is not one, or the cluster's error.
pub data K8sError : Type 0 where
  invalid_id : Bytes → K8sError
  k8s_exec : Bytes → K8sError
  k8s_attach : Bytes → K8sError
  k8s_logs : Bytes → K8sError

pub record Asked : Type 0 where
  pub request : Option PodRequest
  pub error : Option K8sError

abbrev pub refused : Bytes → Asked
refused id = record { request = none; error = some (invalid_id id) }

-- The cluster answers a request with an error or with none.
module _ (cluster : PodRequest → Option Bytes) where
  abbrev pub asks : PodRequest → (Bytes → K8sError) → Asked
  asks req failed = record {
    request = some req;
    error = elim (cluster req) [ none ↦ none | some e ↦ some (failed e) ];
  }

  unfoldable pub exec : Bytes → ExecOptions → Asked
  unfolding parse_k8s_id
  exec id opts = elim (parse_k8s_id id) [
    | none ↦ refused id
    | some (ns, pod, ctr) ↦
        let shell = if is_empty opts.shell then codes "/bin/sh" ∷ [] else opts.shell in
        asks (execs ns pod ctr shell) k8s_exec
  ]

  unfoldable pub attach : Bytes → Asked
  unfolding parse_k8s_id
  attach id = elim (parse_k8s_id id) [
    | none ↦ refused id
    | some (ns, pod, ctr) ↦ asks (attaches ns pod ctr) k8s_attach
  ]

  -- Of the options no more than `follow` goes into the request.
  unfoldable pub logs : Bytes → LogsOptions → Asked
  unfolding parse_k8s_id
  logs id opts = elim (parse_k8s_id id) [
    | none ↦ refused id
    | some (ns, pod, ctr) ↦ asks (reads_log ns pod ctr opts.follow) k8s_logs
  ]
