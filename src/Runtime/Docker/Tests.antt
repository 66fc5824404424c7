-- ===== src/Runtime/Docker/Tests.antt =====
-- Examples of a Docker daemon. Its frames are a byte for the length of a write and the write.
use cternal.Prelude.{
  ℕ, zero, suc, ◌≡◌, ◌⊎◌, refl, ap, true, false, some, List, [], ◌∷◌, ◌++◌, Bytes, codes, length,
}
use cternal.Runtime.{ExecOptions, gives, fails}
use cternal.Runtime.Docker.{
  Inspect, Client, DockerStream, creates_exec, attaches_exec, exec_options, exec, read_from,
}
use cternal.Runtime.Docker.Calls.{IsRunnable, IsOpened, exec_lem}
use cternal.Runtime.Docker.Streams.{sent, Demuxes}

unfoldable pub frame : Bytes → Bytes
frame x = length x ∷ x

unfoldable pub copy_from : ℕ → Bytes → Bytes
copy_from left [] = []
copy_from zero (c ∷ s) = copy_from c s
copy_from (suc left) (c ∷ s) = c ∷ copy_from left s

abbrev pub std_copy : Bytes → Bytes
std_copy = copy_from 0

copy_from-frame : (x rest : Bytes) → copy_from (length x) (x ++ rest) ≡ x ++ copy_from 0 rest
unfolding copy_from
copy_from-frame [] rest = refl
copy_from-frame (c ∷ x) rest = ap (◌∷◌ c) (copy_from-frame x rest)

pub std_copy-Demuxes : Demuxes std_copy frame
unfolding copy_from frame
std_copy-Demuxes = record { nothing = refl; a_frame = copy_from-frame }

-- A container with no terminal.
abbrev pub plain : Inspect
plain = record { config_tty = some false; started_at = some (codes "2024-01-01T00:00:00Z") }

abbrev pub daemon : Client
daemon = record {
  container_list = λ f. gives [];
  exec_create = λ id opts. gives (codes "e1");
  exec_attach = λ id. fails (codes "gone");
  container_inspect = λ id. gives plain;
  container_attach = λ id opts. gives 7;
  container_logs = λ id opts. gives 8;
}

abbrev as_given : ExecOptions
as_given = record { shell = []; env = []; cols = 0; rows = 0 }

exec_lem_example :
    let create = creates_exec (codes "web") (exec_options as_given) in
    IsRunnable (exec_options as_given)
    × (((s : DockerStream) × ((exec daemon (codes "web") as_given).1 ≡ gives s)
          × IsOpened daemon (codes "web") as_given (exec daemon (codes "web") as_given).0 s)
        ⊎ ((e : Bytes) × (daemon.exec_create (codes "web") (exec_options as_given) ≡ fails e)
            × (exec daemon (codes "web") as_given
                ≡ (create ∷ [], fails (codes "exec create: " ++ e))))
        ⊎ ((eid : Bytes) × (e : Bytes) × (daemon.exec_create (codes "web") (exec_options as_given)
              ≡ gives eid)
            × (daemon.exec_attach eid ≡ fails e)
            × (exec daemon (codes "web") as_given
                ≡ (create ∷ attaches_exec eid ∷ [], fails (codes "exec attach: " ++ e)))))
exec_lem_example = exec_lem daemon (codes "web") as_given

abbrev pub two_writes : List Bytes
two_writes = codes "ab" ∷ codes "c" ∷ []

reads_writes : read_from std_copy true (sent frame false two_writes) ≡ codes "abc"
unfolding read_from copy_from frame
reads_writes = refl
