-- ===== src/Runtime/Docker/Reads/Tests.antt =====
-- An example of a stream, whose reader is a text that is read in pieces.
use cternal.Prelude.{
  ℕ, zero, suc, ◌≤◌, ◌<◌, ◌≡◌, refl, arith, true, none, some, [], ◌∷◌, ◌++◌, Bytes, codes, length,
  All, Option,
}
use cternal.Runtime.Docker.{DockerStream, new_docker_stream, attach, read_from}
use cternal.Runtime.Docker.Streams.{written}
use cternal.Runtime.Docker.Tests.{
  frame, copy_from, std_copy, std_copy-Demuxes, plain, daemon, two_writes,
}
use cternal.Runtime.Docker.Reads.{Conn, buffer_size, read_all, IsReader, read_all_lem}

-- One byte at a time.
abbrev a_byte : Bytes → ℕ → Bytes × Option Bytes × Bytes
a_byte [] n = ([], some (codes "EOF"), [])
a_byte (c ∷ s) zero = ([], none, c ∷ s)
a_byte (c ∷ s) (suc n) = (c ∷ [], none, s)

abbrev byte_wise : Conn Bytes
byte_wise = record { read = a_byte; write = λ content. none }

byte_wise-IsReader : IsReader byte_wise (λ s. s)
byte_wise-IsReader = record { piece = piece; end = end }
  where
    piece :
        (r : Bytes) (n : ℕ)
        → (a_byte r n).1 ≡ none
        → ((a_byte r n).0 ++ (a_byte r n).2 ≡ r)
          × (length (a_byte r n).0 ≤ n)
          × (0 < n → 0 < length (a_byte r n).0)
    piece [] n h = absurd (ground arith)
    piece (c ∷ s) zero h = (refl, omega arith, λ p. absurd (omega arith))
    piece (c ∷ s) (suc n) h = (refl, omega arith, λ p. omega arith)

    end : (r : Bytes) (n : ℕ) (e : Bytes) → (a_byte r n).1 ≡ some e → r ≡ []
    end [] n e h = refl
    end (c ∷ s) zero e h = absurd (ground arith)
    end (c ∷ s) (suc n) e h = absurd (ground arith)

abbrev attached : DockerStream
attached = record { conn = 7; exec_id = []; container_id = codes "web"; is_demuxed = true }

read_all_lem_example :
    (written (read_all byte_wise 4 (codes "abc")).0 ≡ written two_writes)
    × All (λ (c : Bytes). length c ≤ buffer_size) (read_all byte_wise 4 (codes "abc")).0
    × ((e : Bytes) × ((read_all byte_wise 4 (codes "abc")).1 ≡ some e))
unfolding attach new_docker_stream read_from copy_from frame
read_all_lem_example =
    read_all_lem byte_wise (λ s. s) byte_wise-IsReader std_copy frame std_copy-Demuxes daemon
      (codes "web") plain two_writes attached (codes "abc") 4 refl refl refl (omega arith)
