-- ===== src/Runtime/K8s/Stream.antt =====
-- internal/runtime/k8s.go: the stream of a command in a pod, k8sStream, over two pipes of package io. The
-- executor of the Kubernetes client is a parameter: it takes steps of its own, in any order.
pub mod Piped
pub mod Taken
pub mod Ended
mod Tests
use cternal.Prelude.{
  ℕ, Bool, true, false, Option, none, some, List, [], ◌∷◌, ◌++◌, Bytes, is_empty, take, drop,
  if◌then◌else◌, ◌≡◌,
}

-- An io.Pipe, whose reading end is never closed: what is still to be taken of the write that waits in
-- it, and whether its writing end is closed.
pub record Pipe : Type 0 where
  pub offered : Option Bytes
  pub closed : Bool

-- How a call of Write, and one of Read, returned: io.ErrClosedPipe and io.EOF are the errors.
pub data Wrote : Type 0 where
  nil_error : Wrote
  closed_pipe : Wrote

pub data Got : Type 0 where
  chunk : Bytes → Got
  eof : Got

-- The stream; `is_running` is the goroutine's call of the executor, `is_reading` the executor's reader of the
-- standard input. The last five fields are what has happened: the arguments of Write, how the calls of
-- Write and Read returned, and what the executor has taken and written.
pub record K8sStream : Type 0 where
  pub stdin : Pipe
  pub stdout : Pipe
  pub cancelled : Bool
  pub is_running : Bool
  pub is_reading : Bool
  pub given : Bytes
  pub wrote : List Wrote
  pub got : List Got
  pub taken : Bytes
  pub put : Bytes

abbrev fresh : Pipe
fresh = record { offered = none; closed = false }

unfoldable pub new_k8s_stream : K8sStream
new_k8s_stream = record {
  stdin = fresh;
  stdout = fresh;
  cancelled = false;
  is_running = true;
  is_reading = true;
  given = [];
  wrote = [];
  got = [];
  taken = [];
  put = [];
}

-- What happens: the calls of the stream's methods; that the context above the stream's is cancelled; and the
-- executor's steps, which are to take at most so much of the standard input, to read no more of it, to write,
-- and to return.
pub data K8sMove : Type 0 where
  writes : Bytes → K8sMove
  reads : K8sMove
  resizes : ℕ → ℕ → K8sMove
  closes : K8sMove
  parent_cancels : K8sMove
  takes : ℕ → K8sMove
  stops_reading : K8sMove
  puts : Bytes → K8sMove
  returns : K8sMove

-- What a write waits with when part of it is taken.
abbrev pub still : Bytes → Option Bytes
still [] = none
still (c ∷ rest) = some (c ∷ rest)

abbrev pub buffer_size : ℕ
buffer_size = 4096

-- Write: io.Copy makes no call for a reader that is empty. `none` is a call that waits.
unfoldable pub k8s_write : K8sStream → Bytes → Option Bytes → Option K8sStream
k8s_write s content (some busy) = none
k8s_write s content none =
    if is_empty content
    then some (record s { wrote = s.wrote ++ nil_error ∷ [] })
    else if s.stdin.closed
    then some (record s { wrote = s.wrote ++ closed_pipe ∷ [] })
    else some (record s {
      stdin = record { offered = some content; closed = false };
      given = s.given ++ content;
    })

-- Read
unfoldable pub k8s_read : K8sStream → Bool → Option Bytes → Option K8sStream
k8s_read s true offered = some (record s { got = s.got ++ eof ∷ [] })
k8s_read s false none = none
k8s_read s false (some content) = some (record s {
  stdout = record { offered = still (drop buffer_size content); closed = false };
  got = s.got ++ chunk (take buffer_size content) ∷ [];
})

-- Close: the context is cancelled and the writing end of the standard input closed, so that a Write
-- that waits there returns.
unfoldable pub k8s_close : K8sStream → Option Bytes → K8sStream
k8s_close s none = record s { cancelled = true; stdin = record { offered = none; closed = true } }
k8s_close s (some content) = record s {
  cancelled = true;
  stdin = record { offered = none; closed = true };
  wrote = s.wrote ++ closed_pipe ∷ [];
}

-- The executor takes so much of the standard input; the Write returns when nothing is left of it.
unfoldable pub k8s_take : K8sStream → ℕ → Bool → Option Bytes → Option K8sStream
k8s_take s n false offered = none
k8s_take s n true none = none
k8s_take s n true (some content) = elim (still (drop n content)) [
  | none ↦ some (record s {
    stdin = record { offered = none; closed = s.stdin.closed };
    wrote = s.wrote ++ nil_error ∷ [];
    taken = s.taken ++ take n content;
  })
  | some rest ↦ some (record s {
    stdin = record { offered = some rest; closed = s.stdin.closed };
    taken = s.taken ++ take n content;
  })
]

unfoldable pub k8s_put : K8sStream → Bytes → Bool → Option Bytes → Option K8sStream
k8s_put s content false offered = none
k8s_put s content true (some busy) = none
k8s_put s content true none = some (record s {
  stdout = record { offered = some content; closed = false };
  put = s.put ++ content;
})

-- StreamWithContext returns when all that it has written is taken, or when it is cancelled; then the
-- goroutine closes the standard output.
unfoldable pub k8s_return : K8sStream → Bool → Option Bytes → Option K8sStream
k8s_return s false offered = none
k8s_return s true none =
    some (record s { is_running = false; stdout = record { offered = none; closed = true } })
k8s_return s true (some content) =
    if s.cancelled
    then some (record s { is_running = false; stdout = record { offered = none; closed = true } })
    else none

unfoldable pub k8s_move : K8sStream → K8sMove → Option K8sStream
unfolding k8s_write k8s_read k8s_close k8s_take k8s_put k8s_return
k8s_move s (writes content) = k8s_write s content s.stdin.offered
k8s_move s reads = k8s_read s s.stdout.closed s.stdout.offered
k8s_move s (resizes cols rows) = some s
k8s_move s closes = some (k8s_close s s.stdin.offered)
k8s_move s parent_cancels = some (record s { cancelled = true })
k8s_move s (takes n) = k8s_take s n s.is_reading s.stdin.offered
k8s_move s stops_reading = some (record s { is_reading = false })
k8s_move s (puts content) = k8s_put s content s.is_running s.stdout.offered
k8s_move s returns = k8s_return s s.is_running s.stdout.offered

-- The streams that any steps lead to.
pub data Reached : K8sStream → Type 0 where
  starts : Reached new_k8s_stream
  moves : {s s' : K8sStream} → Reached s → (m : K8sMove) → k8s_move s m ≡ some s' → Reached s'
