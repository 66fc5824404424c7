-- ===== src/Runtime/Docker/Streams.antt =====
-- What is read of a container, for each setting of its terminal: the daemon sends what a container
-- with a terminal writes as it is, and puts that of any other in frames.
use cternal.Prelude.{
  ℕ, Bool, ◌≡◌, ◌≢◌, refl, ap, ◌∙◌, true, false, not, inl, inr, List, [], ◌∷◌, ◌++◌, Bytes,
  bytes_eq, if◌then◌else◌,
}
use cternal.Runtime.{LogsOptions, gives}
use cternal.Runtime.Docker.{
  Inspect, Client, resizes_container, DockerStream, container_tty, new_docker_stream,
  attach_options, read_options, attach, logs, resize, read_from,
}
use cternal.Runtime.Docker.Calls.{Reply-cases, bytes_eq_nil}

-- What the daemon sends of a container's writes.
abbrev pub sent : (Bytes → Bytes) → Bool → List Bytes → Bytes
sent frame tty [] = []
sent frame tty (x ∷ xs) = (if tty then x else frame x) ++ sent frame tty xs

abbrev pub written : List Bytes → Bytes
written [] = []
written (x ∷ xs) = x ++ written xs

-- stdcopy.StdCopy takes off each frame that the daemon has put around a write.
pub record Demuxes (std_copy frame : Bytes → Bytes) : Type 0 where
  pub nothing : std_copy [] ≡ []
  pub a_frame : (x rest : Bytes) → std_copy (frame x ++ rest) ≡ x ++ std_copy rest

module _ (cli : Client) (id : Bytes) (info : Inspect)
    (i : cli.container_inspect id ≡ gives info) where
  attach_lem :
      (s : DockerStream)
      → (attach cli id).1 ≡ gives s
      → (s.is_demuxed ≡ not (container_tty info)) × (s.exec_id ≡ []) × (s.container_id ≡ id)
  unfolding attach new_docker_stream
  attach_lem s h = elim (Reply-cases (cli.container_attach id attach_options)) [
    | inr (e, a) ↦ absurd (let h' = rw (attach, i, a) at h in cc)
    | inl (conn, a) ↦ let h' = rw (attach, i, a) at h in (cc, cc, cc)
  ]

  logs_lem :
      (opts : LogsOptions) (rc : ℕ) (is_demuxed : Bool)
      → (logs cli id opts).1 ≡ gives (rc, is_demuxed)
      → is_demuxed ≡ not (container_tty info)
  unfolding logs
  logs_lem opts rc d h = elim (Reply-cases (cli.container_logs id (read_options opts info))) [
    | inr (e, a) ↦ absurd (let h' = rw (logs, i, a) at h in cc)
    | inl (conn, a) ↦ let h' = rw (logs, i, a) at h in cc
  ]

module _ (std_copy frame : Bytes → Bytes) (law : Demuxes std_copy frame) where
  std_copy-sent : (xs : List Bytes) → std_copy (sent frame false xs) ≡ written xs
  std_copy-sent [] = law.nothing
  std_copy-sent (x ∷ xs) = law.a_frame x (sent frame false xs) ∙ ap (◌++◌ x) (std_copy-sent xs)

  sent_plain : (xs : List Bytes) → sent frame true xs ≡ written xs
  sent_plain [] = refl
  sent_plain (x ∷ xs) = ap (◌++◌ x) (sent_plain xs)

  read_from-sent :
      (tty : Bool) (xs : List Bytes) → read_from std_copy (not tty) (sent frame tty xs) ≡ written xs
  unfolding read_from
  read_from-sent true xs = sent_plain xs
  read_from-sent false xs = std_copy-sent xs

  module _ (cli : Client) (id : Bytes) (info : Inspect) where
    -- Whatever the setting of a container's terminal, what is read of a stream that is attached to it,
    -- and of its log, is what the container has written, byte for byte; and a resize of the stream is
    -- one of that container, if its id is not empty.
    pub read_lem :
        (xs : List Bytes)
        → cli.container_inspect id ≡ gives info
        → ((s : DockerStream)
            → (attach cli id).1 ≡ gives s
            → (read_from std_copy s.is_demuxed (sent frame (container_tty info) xs) ≡ written xs)
              × (id ≢ [] → (c r : ℕ) → resize s c r ≡ resizes_container id c r ∷ []))
          × ((opts : LogsOptions) (rc : ℕ) (is_demuxed : Bool)
              → (logs cli id opts).1 ≡ gives (rc, is_demuxed)
              → read_from std_copy is_demuxed (sent frame (container_tty info) xs) ≡ written xs)
    unfolding attach logs resize new_docker_stream bytes_eq
    read_lem xs i = (
      λ s h.
          let (demuxed, no_exec, container) = attach_lem cli id info i s h in
          (
            rw demuxed (read_from-sent (container_tty info) xs),
            λ named c r. rw (resize, no_exec, container, bytes_eq_nil id named) refl,
          ),
      λ opts rc d h.
          rw (logs_lem cli id info i opts rc d h) (read_from-sent (container_tty info) xs),
    )
