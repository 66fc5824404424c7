-- ===== src/Runtime/K8s/Ids.antt =====
-- The ids of the containers of pods.
use mathlib.Core.List.{Mem, mem-cons_self, mem-cons_of_mem}
use cternal.Prelude.{
  ◌≡◌, ◌≢◌, refl, false, Bool-cases, inl, inr, some, List, [], ◌∷◌, ◌++◌, Bytes, All,
}
use cternal.Std.{split_n}
use cternal.Std.Cut.{split-append}
use cternal.Runtime.{Filter, Container}
use cternal.Runtime.K8s.{
  PodContainer, Pod, k8s_id, pod_containers, is_running, is_skipped, list_pods, parse_k8s_id,
}

-- A name with no slash in it.
abbrev pub IsPart : Bytes → Type 0
IsPart = All (λ c. c ≢ b'/')

pub parse_k8s_id-k8s_id :
    (ns pod ctr : Bytes)
    → IsPart ns
    → IsPart pod
    → parse_k8s_id (k8s_id ns pod ctr) ≡ some (ns, pod, ctr)
unfolding parse_k8s_id k8s_id split_n
parse_k8s_id-k8s_id ns pod ctr n p =
    rw (
      parse_k8s_id,
      split_n,
      split-append b'/' ns (pod ++ b'/' ∷ ctr) n,
      split-append b'/' pod ctr p,
    )

-- A container that is listed: it is one of a pod that the filter lets pass, and its id names them.
abbrev pub Opens : Filter → List Pod → Container → Type 0
Opens f pods c =
    (pod : Pod) × (pc : PodContainer) × Mem pod pods
    × Mem pc pod.containers
    × (is_skipped f pod ≡ false)
    × (parse_k8s_id c.id ≡ some (pod.namespace, pod.name, pc.name))
    × (c.running ≡ is_running pod)

later_Opens :
    (f : Filter) (pod : Pod) (pods : List Pod) (cs : List Container)
    → All (Opens f pods) cs
    → All (Opens f (pod ∷ pods)) cs
later_Opens f pod pods [] h = tt
later_Opens f pod pods (c ∷ cs) ((p, pc, m, mc, pass, e, r), hs) =
    ((p, pc, mem-cons_of_mem pod m, mc, pass, e, r), later_Opens f pod pods cs hs)

of_pod-Opens :
    (f : Filter) (pod : Pod) (pods : List Pod) (pcs : List PodContainer) (cs : List Container)
    → IsPart pod.namespace
    → IsPart pod.name
    → is_skipped f pod ≡ false
    → All (λ pc. Mem pc pod.containers) pcs
    → All (Opens f (pod ∷ pods)) cs
    → All (Opens f (pod ∷ pods)) (pod_containers pod (is_running pod) pcs cs)
unfolding pod_containers
of_pod-Opens f pod pods [] cs n p pass ms h = h
of_pod-Opens f pod pods (pc ∷ pcs) cs n p pass (m, ms) h = (
  (pod, pc, mem-cons_self, m, pass, parse_k8s_id-k8s_id pod.namespace pod.name pc.name n p, refl),
  of_pod-Opens f pod pods pcs cs n p pass ms h,
)

more_Mem :
    (x : PodContainer) (xs ys : List PodContainer)
    → All (λ pc. Mem pc xs) ys
    → All (λ pc. Mem pc (x ∷ xs)) ys
more_Mem x xs [] h = tt
more_Mem x xs (y ∷ ys) (m, ms) = (mem-cons_of_mem x m, more_Mem x xs ys ms)

contains_own : (xs : List PodContainer) → All (λ pc. Mem pc xs) xs
contains_own [] = tt
contains_own (x ∷ xs) = (mem-cons_self, more_Mem x xs xs (contains_own xs))

-- Every container that is listed can be opened by its id: where no namespace and no pod name has a
-- slash, the id is read as the namespace, the pod and the container that it stands for, of a pod that
-- the filter lets pass.
pub list_pods-Opens :
    (f : Filter) (pods : List Pod)
    → All (λ (pod : Pod). IsPart pod.namespace × IsPart pod.name) pods
    → All (Opens f pods) (list_pods f pods)
unfolding list_pods pod_containers
list_pods-Opens f [] h = tt
list_pods-Opens f (pod ∷ pods) ((n, p), hs) =
    let rest = later_Opens f pod pods (list_pods f pods) (list_pods-Opens f pods hs) in
    elim (Bool-cases (is_skipped f pod)) [
      | inl skip ↦ rw (list_pods, skip) rest
      | inr pass ↦
          rw (list_pods, pass)
            (of_pod-Opens f pod pods pod.containers (list_pods f pods) n p pass
              (contains_own pod.containers) rest)
    ]
