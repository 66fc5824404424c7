-- ===== src/Lib.antt =====
-- Verification of cternal, a web terminal for containers.
--
-- The program: an HTTP server (internal/api) lets a browser open sessions on a container runtime
-- (internal/runtime) and connect to them by WebSocket. A session (internal/session) has a stream of its
-- container, a recording (internal/recorder), and subscribers to the stream's output. The registry of
-- sessions has a limit; a session that nobody is connected to is torn down when its countdown runs out.
-- Webhooks (internal/webhook) are told of a session's start and end. The commands of cmd/cternal serve,
-- record, and play recordings.
--
-- The parts and their files:
--   Prelude, Std, Dict, Floats, Samples: numbers, text, Go's standard library as far as it is used,
--     association lists for maps, the operations on float64 as a parameter, values for the examples.
--   Recorder: internal/recorder/event.go and recorder.go (`Add` is add, `AddAt` add_at, `EventsSince`
--     events_since, `All` all, `Len` len). Recorder/Cast: cast.go (`Marshal`). Recorder/Player: player.go
--     (`Play`, `NewPlayer`, `NewPlayerFrom`).
--   Newline: normalizeLF of internal/api/ws.go and its copies. Logs: the lines of a container's log, as
--     runLogsWS and cmd/cternal/logscast.go read them.
--   Session: internal/session/session.go. Store: internal/session/store.go (`Delete` is remove,
--     `GetByContainer` get_by_container). Ttl: internal/session/ttl.go; a timer is a number, and its
--     firing a step of its own (fire, then the callback, then forget).
--   Webhook: internal/webhook/webhook.go. Runtime: internal/runtime/interface.go, as a parameter.
--     Runtime/Docker: internal/runtime/docker.go and podman.go, with the Docker client as a parameter.
--     Docker/Reads: what a pump reads of a Docker stream. Runtime/K8s: the listing of pods, the ids and the
--     requests of internal/runtime/k8s.go; K8s/Stream: its streams (k8sStream), whose methods and whose
--     executor take steps in any order (k8s_move). Runtime/Clients: how a runtime is made (NewDockerRuntime,
--     NewPodmanRuntime, NewK8sRuntime, newRuntime). Telemetry: internal/telemetry/otel.go.
--     Runtime/Mock: internal/runtime/mock.go.
--   Serve: cmd/cternal/main.go, from the settings to the server (runServe is run_serve). Serve/Command: the
--     command line, the logger, and runServe as a whole (serve). Play: play.go (loadCast is load_cast,
--     runPlay run_play and play_rounds); Play/Terminal: what runPlay does to the terminal. Record: record.go
--     (runRecord is run_record; a round of one of its goroutines is happen). Logscast: logscast.go (runLogscast is run_logscast). Saving: how the last two end.
--   Api: the server of internal/api/server.go. Api/Create: createSession. Api/Teardown: EvictSession,
--     evict, autoExport, and what a timer of the TTL manager runs. Api/Routes: the REST handlers.
--     Api/Static: internal/api/static.go. Api/Mux: registerRoutes, with the patterns of http.ServeMux.
--     Api/Access: accessLog and responseWriter around the handlers. Api/Divided: teardowns whose calls
--     interleave. Api/Socket: handleWebSocket and dispatchMessage of internal/api/ws.go;
--     Api/Socket/Attach, Api/Socket/Exec and Api/Socket/Tail: the goroutines of runAttachWS, runExecWS and runLogsWS. Api/History: the server under any sequence of requests,
--     connections, messages, output and countdowns, and the contract that its clients may rely on.
--
-- How the code is modelled: the state of the server is a record, and a handler a function from the
-- state to the state and the response. Sessions are shared objects: the heap gives each number its
-- session, and the registry and the handlers hold numbers. What the program does to the outside (stream
-- calls, webhooks, exports, metrics) is listed in the state. Where other goroutines may run in between,
-- a handler is divided: createSession into admit, reuse, connect and register, a teardown into the calls of
-- evict (Api/Divided), a connection into opening, messages and closing, the loops of a connection into the steps of its goroutines.
--
-- Bounds: int64 durations wrap around or saturate as in Go (add64, sub64, saturate64); columns and rows
-- are below 2 ^ 16; a channel holds 64 texts; a scanner's line and its line feed fit 65,536 bytes or, for
-- logs, 1 MiB. The loops are structural recursions, but for decimal digits, where the number itself
-- bounds them, and the loop of play, which has a number of rounds as fuel (Play/Rounds says how many are
-- enough).
--
-- Parameters: the clock, random bytes, encoding/json, time.Parse, float64, the container runtime and its
-- daemon, the files, the order in which a map is visited, which writes fail and when a playback is
-- interrupted.
--
-- Not modelled, as they are third-party calls or process I/O: the clients of Docker and Kubernetes, the SDK of
-- telemetry and its spans, the declarations of flags, the embedded files, log lines other than those of
-- requests, the network.
pub mod Serve
pub mod Samples
pub mod Prelude
pub mod Std
pub mod Dict
pub mod Floats
pub mod Session
pub mod Store
pub mod Ttl
pub mod Telemetry
pub mod Webhook
pub mod Runtime
pub mod Api
pub mod Logs
pub mod Newline
pub mod Recorder
pub mod Play
pub mod Saving
pub mod Logscast
pub mod Record
