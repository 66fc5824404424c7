-- ===== src/Runtime/K8s/Requests.antt =====
-- What the cluster is asked for containers that were listed.
use mathlib.Core.List.{Mem}
use cternal.Prelude.{
  ◌≡◌, ◌≢◌, refl, false, Bool, some, Option, List, [], ◌∷◌, Bytes, codes, All, is_empty,
  if◌then◌else◌,
}
use cternal.Runtime.{Filter, Container, ExecOptions, LogsOptions}
use cternal.Runtime.K8s.{
  PodContainer, Pod, PodRequest, execs, attaches, reads_log, is_skipped, list_pods, exec, attach,
  logs,
}
use cternal.Runtime.K8s.Ids.{IsPart, Opens, list_pods-Opens}

-- The requests that are made for a container go to the one of a pod that it was listed for.
abbrev pub Asks :
    (PodRequest → Option Bytes) → ExecOptions → LogsOptions → Filter → List Pod → Container → Type 0
Asks cluster eo lo f pods c =
    (pod : Pod) × (pc : PodContainer) × (shell : List Bytes) × Mem pod pods
    × Mem pc pod.containers
    × (is_skipped f pod ≡ false)
    × (shell ≢ [])
    × ((exec cluster c.id eo).request ≡ some (execs pod.namespace pod.name pc.name shell))
    × ((attach cluster c.id).request ≡ some (attaches pod.namespace pod.name pc.name))
    × ((logs cluster c.id lo).request ≡ some (reads_log pod.namespace pod.name pc.name lo.follow))

shell_given : (shell : List Bytes) → (if is_empty shell then codes "/bin/sh" ∷ [] else shell) ≢ []
shell_given [] e = cc
shell_given (w ∷ ws) e = cc

module _ (cluster : PodRequest → Option Bytes) (eo : ExecOptions) (lo : LogsOptions) (f : Filter)
    (pods : List Pod) where
  Opens-Asks : (cs : List Container) → All (Opens f pods) cs → All (Asks cluster eo lo f pods) cs
  unfolding exec attach logs
  Opens-Asks [] h = tt
  Opens-Asks (c ∷ cs) ((pod, pc, m, mc, pass, e, r), hs) = (
    (
      pod,
      pc,
      (if is_empty eo.shell then codes "/bin/sh" ∷ [] else eo.shell),
      m,
      mc,
      pass,
      shell_given eo.shell,
      rw (exec, e) refl,
      rw (attach, e) refl,
      rw (logs, e) refl,
    ),
    Opens-Asks cs hs,
  )

  -- For every container that is listed, a command, an attachment and a log are asked of the container of the
  -- pod that it was listed for, one that the filter lets pass, and the command is not empty: where no
  -- namespace and no pod name has a slash.
  pub list_pods-Asks :
      All (λ (pod : Pod). IsPart pod.namespace × IsPart pod.name) pods
      → All (Asks cluster eo lo f pods) (list_pods f pods)
  list_pods-Asks h = Opens-Asks (list_pods f pods) (list_pods-Opens f pods h)

-- The request for a log is the same whether times in front of the lines are asked for or not, and from
-- whatever time on the log is asked for.
pub logs_same :
    (cluster : PodRequest → Option Bytes) (id : Bytes) (opts : LogsOptions) (since : Bytes)
    (timestamps : Bool)
    → logs cluster id (record opts { since = since; timestamps = timestamps })
      ≡ logs cluster id opts
unfolding logs
logs_same cluster id opts since timestamps = refl
