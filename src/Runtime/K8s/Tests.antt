-- ===== src/Runtime/K8s/Tests.antt =====
-- Examples of pods.
use cternal.Prelude.{◌≡◌, refl, true, Option, none, some, Bytes, [], ◌∷◌, codes}
use cternal.Std.{split_n, split_at_byte}
use cternal.Runtime.{Filter, ExecOptions, LogsOptions}
use cternal.Runtime.K8s.{Pod, PodRequest, invalid_id, exec, parse_k8s_id}

abbrev web_pod : Pod
web_pod = record {
  namespace = codes "ns";
  name = codes "web";
  phase = codes "Running";
  containers = record { name = codes "app"; image = codes "nginx" } ∷ [];
}

abbrev any : Filter
any = record { name = []; status = codes "running"; labels = [] }

abbrev cluster : PodRequest → Option Bytes
cluster req = none

abbrev a_shell : ExecOptions
a_shell = record { shell = []; env = []; cols = 80; rows = 24 }

abbrev with_times : LogsOptions
with_times = record { since = codes "1h"; follow = true; timestamps = true }

exec_no_id :
    exec cluster (codes "web") a_shell
    ≡ record { request = none; error = some (invalid_id (codes "web")) }
unfolding exec parse_k8s_id split_n split_at_byte
exec_no_id = refl
