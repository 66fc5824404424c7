-- ===== src/Runtime/K8s/Stream/Tests.antt =====
-- A command in a pod that writes a line, reads nothing, and ends.
use cternal.Prelude.{◌≡◌, refl, arith, true, false, some, none, [], ◌∷◌, ◌++◌, Bytes, codes}
use cternal.Runtime.K8s.Stream.Piped.{received, AllWithin, has_eof}
use cternal.Runtime.K8s.Stream.{
  chunk, eof, closed_pipe, K8sStream, new_k8s_stream, reads, closes, puts, returns, buffer_size,
  k8s_put, k8s_read, k8s_return, k8s_move, Reached, starts, moves,
}
use cternal.Runtime.K8s.Stream.Ended.{here, further, k8s_move_lem, k8s_close_lem}

abbrev said : K8sStream
said = record new_k8s_stream {
  stdout = record { offered = none; closed = true };
  is_running = false;
  got = chunk (codes "hi") ∷ eof ∷ [];
  put = codes "hi";
}

said-Reached : Reached said
unfolding new_k8s_stream k8s_move k8s_put k8s_read k8s_return
said-Reached =
    moves (moves (moves (moves starts (puts (codes "hi")) refl) reads refl) returns refl) reads refl

k8s_move_lem_example :
    ((rest : Bytes) × (received said.got ++ rest ≡ said.put))
    × AllWithin buffer_size said.got
    × (said.is_running ≡ false → said.cancelled ≡ false → received said.got ≡ said.put)
    × (has_eof said.got ≡ true → said.is_running ≡ false)
    × ((rest : Bytes) × (said.taken ++ rest ≡ said.given))
    × (said.stdin.closed ≡ false → said.stdin.offered ≡ none → said.taken ≡ said.given)
k8s_move_lem_example = k8s_move_lem said said-Reached

-- The command has ended, and a text for it waits.
abbrev too_late : K8sStream
too_late = record said {
  stdin = record { offered = some (codes "x"); closed = false };
  is_reading = false;
  given = codes "x";
}

abbrev read_again : K8sStream
read_again = record too_late { got = chunk (codes "hi") ∷ eof ∷ eof ∷ [] }

k8s_close_lem_example :
    (read_again.wrote ≡ too_late.wrote)
    × (read_again.stdin.offered ≡ some (codes "x"))
    × ((s'' : K8sStream)
        → k8s_move read_again closes ≡ some s''
        → s''.wrote ≡ too_late.wrote ++ closed_pipe ∷ [])
unfolding new_k8s_stream k8s_move k8s_read
k8s_close_lem_example =
    k8s_close_lem too_late read_again (codes "x") refl refl
      (further here reads (λ e. ground arith) refl)
