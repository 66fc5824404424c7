-- ===== src/Runtime/Docker/Reads.antt =====
-- internal/runtime/docker.go: Read, Write and Close of dockerStream. The reader and the connection are
-- those of the libraries.
mod Tests
use cternal.Prelude.{
  ℕ, zero, suc, ◌+◌, ◌≤◌, ◌<◌, ◌≡◌, refl, sym, ap, ◌∙◌, arith, Bool, true, false, not, inl, inr,
  Option, none, some, List, [], ◌∷◌, ◌++◌, Bytes, length, All, length-append, Option-cases,
}
use mathlib.Core.Path.{subst}
use cternal.Runtime.{Reply, gives, fails}
use cternal.Runtime.Docker.{Inspect, Client, DockerStream, container_tty, attach, read_from}
use cternal.Runtime.Docker.Calls.{Reply-cases}
use cternal.Runtime.Docker.Streams.{sent, written, Demuxes, read_lem}

-- An io.Reader and an io.Writer: a read gives at most so many bytes, or an error, and what is left of the
-- reader; a write may give an error.
pub record Conn (R : Type 0) : Type 0 where
  pub read : R → ℕ → Bytes × Option Bytes × R
  pub write : Bytes → Option Bytes

abbrev pub buffer_size : ℕ
buffer_size = 4096

module _ {R : Type 0} (conn : Conn R) where
  -- Read; what a reader gives along with an error is dropped.
  unfoldable pub docker_read : R → Reply Bytes × R
  docker_read r =
      let (content, failed, r') = conn.read r buffer_size in
      (elim failed [ some e ↦ fails e | none ↦ gives content ], r')

  -- Write
  unfoldable pub docker_write : Bytes → Option Bytes
  docker_write content = conn.write content

  -- The calls of Read that the pump of a session makes, at most so many, until there is an error.
  unfoldable pub read_all : ℕ → R → List Bytes × Option Bytes
  unfolding docker_read
  read_all zero r = ([], none)
  read_all (suc n) r =
      let (reply, r') = docker_read r in
      elim reply [
        | fails e ↦ ([], some e)
        | gives content ↦ let (chunks, failed) = read_all n r' in (content ∷ chunks, failed)
      ]

  -- What a reader holds: each read gives some of its beginning, and an error comes only when nothing is
  -- left.
  pub record IsReader (holds : R → Bytes) : Type 0 where
    pub piece :
        (r : R) (n : ℕ)
        → (conn.read r n).1 ≡ none
        → ((conn.read r n).0 ++ holds (conn.read r n).2 ≡ holds r)
          × (length (conn.read r n).0 ≤ n)
          × (0 < n → 0 < length (conn.read r n).0)
    pub end : (r : R) (n : ℕ) (e : Bytes) → (conn.read r n).1 ≡ some e → holds r ≡ []

  IsDrained : (R → Bytes) → ℕ → R → Type 0
  IsDrained holds n r =
      (written (read_all n r).0 ≡ holds r)
      × All (λ (c : Bytes). length c ≤ buffer_size) (read_all n r).0
      × ((e : Bytes) × ((read_all n r).1 ≡ some e))

  module _ (holds : R → Bytes) (law : IsReader holds) where
    read_all-IsDrained : (n : ℕ) (r : R) → length (holds r) < n → IsDrained holds n r
    unfolding IsDrained read_all docker_read
    read_all-IsDrained zero r h = absurd (omega arith)
    read_all-IsDrained (suc n) r h = elim (Option-cases (conn.read r buffer_size).1) [
      | inr (e, failed) ↦ rw failed (sym (law.end r buffer_size e failed), tt, (e, refl))
      | inl going ↦
          let (split, small, some_of_it) = law.piece r buffer_size going in
          let r' = (conn.read r buffer_size).2 in
          let content = (conn.read r buffer_size).0 in
          let shorter : length (holds r') < n =
            ground (arith, h, some_of_it, length-append content (holds r'), ap length split) in
          let (joined, sizes, last) = read_all-IsDrained n r' shorter in
          rw going (ap (◌++◌ content) joined ∙ split, (small, sizes), last)
    ]

  module _ (holds : R → Bytes) (law : IsReader holds) (std_copy frame : Bytes → Bytes)
      (demuxes : Demuxes std_copy frame) (cli : Client) (id : Bytes) (info : Inspect) where
    -- Reading an attached stream until there is an error gives, in texts of at most 4096 bytes, all that the
    -- container has written, byte for byte, and then the error, whether or not the container has a terminal:
    -- one call of Read more than there are bytes is enough. The conditions are that the container can be
    -- inspected, that the stream's reader holds what the client makes of the daemon's bytes, gives some of
    -- it at each read, and an error only when nothing is left.
    pub read_all_lem :
        (xs : List Bytes) (s : DockerStream) (r : R) (n : ℕ)
        → cli.container_inspect id ≡ gives info
        → (attach cli id).1 ≡ gives s
        → holds r ≡ read_from std_copy s.is_demuxed (sent frame (container_tty info) xs)
        → length (written xs) < n
        → (written (read_all n r).0 ≡ written xs)
          × All (λ (c : Bytes). length c ≤ buffer_size) (read_all n r).0
          × ((e : Bytes) × ((read_all n r).1 ≡ some e))
    unfolding IsDrained
    read_all_lem xs s r n i a h enough =
        let all_of = h ∙ ((read_lem std_copy frame demuxes cli id info xs i).0 s a).0 in
        let (joined, sizes, last) =
          read_all-IsDrained holds law n r (ground (arith, enough, ap length all_of)) in
        (joined ∙ all_of, sizes, last)
