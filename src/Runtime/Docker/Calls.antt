-- ===== src/Runtime/Docker/Calls.antt =====
-- What the Docker runtime asks of the daemon to run a shell, and what comes of each answer.
use cternal.Prelude.{
  ℕ, ◌≤◌, ◌≡◌, ◌≢◌, refl, ◌⊎◌, inl, inr, arith, true, false, List, [], ◌∷◌, ◌++◌, Bytes, codes,
  bytes_eq, is_empty, if◌then◌else◌,
}
use cternal.Runtime.{ExecOptions, Reply, gives, fails}
use cternal.Runtime.Docker.{
  ExecCreateOptions, Client, Call, creates_exec, attaches_exec, resizes_exec, DockerStream,
  exec_options, or_default, exec, resize, new_docker_stream,
}

pub Reply-cases {ℓ} :
    {A : Type ℓ} (r : Reply A) → ((a : A) × (r ≡ gives a)) ⊎ ((e : Bytes) × (r ≡ fails e))
Reply-cases (gives a) = inl (a, refl)
Reply-cases (fails e) = inr (e, refl)

pub gives-injective {ℓ} : {A : Type ℓ} (a b : A) → gives a ≡ gives b → a ≡ b
gives-injective a b e = cc

or_default-positive : (n d : ℕ) → 1 ≤ d → 1 ≤ or_default n d
or_default-positive n d h = ground arith

-- A text that is not empty is not equal to the empty one.
pub bytes_eq_nil : (s : Bytes) → s ≢ [] → bytes_eq s [] ≡ false
unfolding bytes_eq
bytes_eq_nil [] h = absurd (h refl)
bytes_eq_nil (c ∷ s) h = refl

-- The command to run is never empty, and the terminal is always asked for.
abbrev pub IsRunnable : ExecCreateOptions → Type 0
IsRunnable o = (o.cmd ≢ []) × (o.tty ≡ true)

runs_something :
    (shell : List Bytes) → (if is_empty shell then codes "/bin/sh" ∷ [] else shell) ≢ []
runs_something [] e = cc
runs_something (w ∷ ws) e = cc

module _ (cli : Client) (id : Bytes) (opts : ExecOptions) where
  -- The exec is made and attached, its size is set to one with no zero in it, and later sizes go to
  -- the same exec. Nothing is taken apart of what it says.
  abbrev pub IsOpened : List Call → DockerStream → Type 0
  IsOpened calls s =
      (eid : Bytes) × (cols : ℕ) × (rows : ℕ) × (cli.exec_create id (exec_options opts) ≡ gives eid)
      × (cli.exec_attach eid ≡ gives s.conn)
      × (calls
          ≡ creates_exec id (exec_options opts)
            ∷ attaches_exec eid
            ∷ resizes_exec eid cols rows
            ∷ [])
      × (1 ≤ cols)
      × (1 ≤ rows)
      × (s.is_demuxed ≡ false)
      × (eid ≢ [] → (c r : ℕ) → resize s c r ≡ resizes_exec eid c r ∷ [])

  -- `Exec` asks for a terminal and a command that is not empty, and stops at the first call that
  -- fails, with that call's error: after the making of the exec, or after it was attached. Where both
  -- succeed, it returns a stream of the attached connection, has set a size with no zero in it, and a
  -- later resize of the stream goes to the same exec, which has an id. A terminal's text is not taken
  -- apart.
  pub exec_lem :
      let create = creates_exec id (exec_options opts) in
      IsRunnable (exec_options opts)
      × (((s : DockerStream) × ((exec cli id opts).1 ≡ gives s) × IsOpened (exec cli id opts).0 s)
          ⊎ ((e : Bytes) × (cli.exec_create id (exec_options opts) ≡ fails e)
              × (exec cli id opts ≡ (create ∷ [], fails (codes "exec create: " ++ e))))
          ⊎ ((eid : Bytes) × (e : Bytes) × (cli.exec_create id (exec_options opts) ≡ gives eid)
              × (cli.exec_attach eid ≡ fails e)
              × (exec cli id opts
                  ≡ (create ∷ attaches_exec eid ∷ [], fails (codes "exec attach: " ++ e)))))
  unfolding exec new_docker_stream resize
  exec_lem = (
    (runs_something opts.shell, refl),
    elim (Reply-cases (cli.exec_create id (exec_options opts))) [
      | inr (e, failed) ↦ inr (inl (e, failed, rw (exec, failed) refl))
      | inl (eid, made) ↦ elim (Reply-cases (cli.exec_attach eid)) [
        | inr (e, failed) ↦ inr (inr (eid, e, made, failed, rw (exec, made, failed) refl))
        | inl (conn, attached) ↦ inl (
          record (new_docker_stream conn true) { exec_id = eid },
          rw (exec, made, attached) refl,
          (
            eid,
            or_default opts.cols 80,
            or_default opts.rows 24,
            made,
            attached,
            rw (exec, made, attached) refl,
            or_default-positive opts.cols 80 (omega arith),
            or_default-positive opts.rows 24 (omega arith),
            refl,
            λ named c r. rw (resize, bytes_eq_nil eid named) refl,
          ),
        )
      ]
    ],
  )
