-- ===== src/Runtime/Docker.antt =====
-- internal/runtime/docker.go and podman.go: a runtime by the Docker client. The client and the daemon are
-- parameters; what is asked of them is listed. A hijacked connection and a log reader are numbers.
pub mod Calls
pub mod Streams
pub mod Reads
pub mod Tests
use cternal.Prelude.{
  ℕ, Bool, true, false, not, Option, none, some, List, [], ◌∷◌, ◌++◌, Bytes, codes, bytes_eq,
  is_empty, ◌==◌, if◌then◌else◌, map,
}
use cternal.Dict.{Dict}
use cternal.Std.{trim_prefix}
use cternal.Runtime.{Filter, Container, ExecOptions, LogsOptions, Reply, gives, fails}

-- client.Filters, as the pairs that were added to it.
abbrev pub Filters : Type 0
Filters = List (Bytes × Bytes)

pub record Summary : Type 0 where
  pub id : Bytes
  pub names : List Bytes
  pub image : Bytes
  pub status : Bytes
  pub state : Bytes
  pub labels : Dict Bytes

pub record ExecCreateOptions : Type 0 where
  pub attach_stdin : Bool
  pub attach_stdout : Bool
  pub attach_stderr : Bool
  pub tty : Bool
  pub cmd : List Bytes
  pub env : List Bytes

pub record AttachOptions : Type 0 where
  pub stream : Bool
  pub stdin : Bool
  pub stdout : Bool
  pub stderr : Bool

pub record ReadOptions : Type 0 where
  pub show_stdout : Bool
  pub show_stderr : Bool
  pub follow : Bool
  pub since : Bytes
  pub timestamps : Bool

-- What an inspection tells: the Tty of the container's configuration, if it has one, and the time at
-- which it was started, if it has a state.
pub record Inspect : Type 0 where
  pub config_tty : Option Bool
  pub started_at : Option Bytes

-- The client's calls; container_list is asked for all containers, running or not.
pub record Client : Type 0 where
  pub container_list : Filters → Reply (List Summary)
  pub exec_create : Bytes → ExecCreateOptions → Reply Bytes
  pub exec_attach : Bytes → Reply ℕ
  pub container_inspect : Bytes → Reply Inspect
  pub container_attach : Bytes → AttachOptions → Reply ℕ
  pub container_logs : Bytes → ReadOptions → Reply ℕ

pub data Call : Type 0 where
  lists : Filters → Call
  creates_exec : Bytes → ExecCreateOptions → Call
  attaches_exec : Bytes → Call
  resizes_exec : Bytes → ℕ → ℕ → Call
  inspects : Bytes → Call
  attaches : Bytes → AttachOptions → Call
  reads_logs : Bytes → ReadOptions → Call
  resizes_container : Bytes → ℕ → ℕ → Call

-- A stream: whether its reader takes the frames of the daemon apart, and what a resize is of.
pub record DockerStream : Type 0 where
  pub conn : ℕ
  pub exec_id : Bytes
  pub container_id : Bytes
  pub is_demuxed : Bool

abbrev label_args : Dict Bytes → Filters
label_args [] = []
label_args ((k, v) ∷ labels) = (codes "label", k ++ b'=' ∷ v) ∷ label_args labels

unfoldable pub filter_args : Filter → Filters
filter_args f =
    (if bytes_eq f.name [] then [] else (codes "name", f.name) ∷ [])
    ++ (if bytes_eq f.status [] then [] else (codes "status", f.status) ∷ [])
    ++ label_args f.labels

abbrev pub first_name : List Bytes → Bytes
first_name [] = []
first_name (n ∷ ns) = trim_prefix n (codes "/")

unfoldable pub to_container : Summary → Container
to_container c = record {
  id = c.id;
  name = first_name c.names;
  image = c.image;
  status = c.status;
  running = bytes_eq c.state (codes "running");
  runtime = codes "docker";
  labels = c.labels;
}

unfoldable pub container_tty : Inspect → Bool
container_tty info = elim info.config_tty [ none ↦ false | some tty ↦ tty ]

unfoldable pub new_docker_stream : ℕ → Bool → DockerStream
new_docker_stream conn tty = record {
  conn = conn;
  exec_id = [];
  container_id = [];
  is_demuxed = not tty;
}

abbrev pub exec_options : ExecOptions → ExecCreateOptions
exec_options opts = record {
  attach_stdin = true;
  attach_stdout = true;
  attach_stderr = true;
  tty = true;
  cmd = if is_empty opts.shell then codes "/bin/sh" ∷ [] else opts.shell;
  env = opts.env;
}

abbrev pub attach_options : AttachOptions
attach_options = record { stream = true; stdin = true; stdout = true; stderr = true }

abbrev pub or_default : ℕ → ℕ → ℕ
or_default given n = if given == 0 then n else given

abbrev pub read_options : LogsOptions → Inspect → ReadOptions
read_options opts info = record {
  show_stdout = true;
  show_stderr = true;
  follow = opts.follow;
  since =
      if bytes_eq opts.since []
      then elim info.started_at [ none ↦ [] | some at ↦ at ]
      else opts.since;
  timestamps = opts.timestamps;
}

-- The calls that are made, and what is returned.
module _ (cli : Client) where
  unfoldable pub list_containers : Filter → List Call × Reply (List Container)
  unfolding filter_args to_container
  list_containers f = (
    lists (filter_args f) ∷ [],
    elim (cli.container_list (filter_args f)) [
      | fails e ↦ fails (codes "list containers: " ++ e)
      | gives items ↦ gives (map to_container items)
    ],
  )

  unfoldable pub exec : Bytes → ExecOptions → List Call × Reply DockerStream
  unfolding new_docker_stream
  exec id opts =
      let create = creates_exec id (exec_options opts) in
      elim (cli.exec_create id (exec_options opts)) [
        | fails e ↦ (create ∷ [], fails (codes "exec create: " ++ e))
        | gives exec_id ↦ elim (cli.exec_attach exec_id) [
          | fails e ↦ (create ∷ attaches_exec exec_id ∷ [], fails (codes "exec attach: " ++ e))
          | gives conn ↦ (
            create
                ∷ attaches_exec exec_id
                ∷ resizes_exec exec_id (or_default opts.cols 80) (or_default opts.rows 24)
                ∷ [],
            gives (record (new_docker_stream conn true) { exec_id = exec_id }),
          )
        ]
      ]

  unfoldable pub attach : Bytes → List Call × Reply DockerStream
  unfolding new_docker_stream container_tty
  attach id = elim (cli.container_inspect id) [
    | fails e ↦ (inspects id ∷ [], fails (codes "inspect container: " ++ e))
    | gives info ↦ elim (cli.container_attach id attach_options) [
      | fails e ↦ (inspects id ∷ attaches id attach_options ∷ [], fails (codes "attach: " ++ e))
      | gives conn ↦ (
        inspects id ∷ attaches id attach_options ∷ [],
        gives (record (new_docker_stream conn (container_tty info)) { container_id = id }),
      )
    ]
  ]

  -- The reader, and whether it takes frames apart.
  unfoldable pub logs : Bytes → LogsOptions → List Call × Reply (ℕ × Bool)
  unfolding container_tty
  logs id opts = elim (cli.container_inspect id) [
    | fails e ↦ (inspects id ∷ [], fails (codes "inspect container: " ++ e))
    | gives info ↦
        let calls = inspects id ∷ reads_logs id (read_options opts info) ∷ [] in
        elim (cli.container_logs id (read_options opts info)) [
          | fails e ↦ (calls, fails (codes "logs: " ++ e))
          | gives rc ↦ (calls, gives (rc, not (container_tty info)))
        ]
  ]

-- dockerStream.Resize
unfoldable pub resize : DockerStream → ℕ → ℕ → List Call
resize s cols rows =
    if not (bytes_eq s.exec_id [])
    then resizes_exec s.exec_id cols rows ∷ []
    else if not (bytes_eq s.container_id [])
    then resizes_container s.container_id cols rows ∷ []
    else []

-- What a read gives of what the daemon has sent: stdcopy takes its frames apart.
unfoldable pub read_from : (Bytes → Bytes) → Bool → Bytes → Bytes
read_from std_copy is_demuxed sent = if is_demuxed then std_copy sent else sent

-- The options of the Podman runtime's client: the environment's, and a host if one is given.
pub data ClientOption : Type 0 where
  from_env : ClientOption
  with_host : Bytes → ClientOption

unfoldable pub podman_options : Bytes → List ClientOption
podman_options host = if bytes_eq host [] then from_env ∷ [] else from_env ∷ with_host host ∷ []
