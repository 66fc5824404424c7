-- ===== src/Api/Socket/Tail/Ending.antt =====
-- How a connection to a logs session ends.
use cternal.Prelude.{ℕ, ◌+◌, ◌≤◌, ◌<◌, ◌≡◌, refl, arith, true, some, List, [], ◌∷◌, length}
use cternal.Recorder.{Recorder}
use cternal.Logs.{ParseTime}
use cternal.Api.Socket.{Message}
use cternal.Api.Socket.Attach.{Reader, reading, waiting, returned, Writer, writing, done}
use cternal.Api.Socket.Runs.{Runs, IsStuck, Runs-bound}
use cternal.Api.Socket.Exec.Ending.{is_deaf, writer_left, reader_left}
use cternal.Api.Socket.Tail.Told.{Tailed, Tailed_lem}
use cternal.Api.Socket.Tail.{
  over, Tail, TailMove, hears, hears_input, hears_resize, hears_no_more, leaves, scans, scan_ends,
  tells, gives_up, writes, write_fails, ends, tail_reader, tail_source, tail_writer, tail_move,
}

abbrev left : Tail → ℕ
left t = length t.write_ch + writer_left t.writer + reader_left t.reader

record IsEnding (t : Tail) : Type 0 where
  pub source : t.source ≡ over
  pub reader : is_deaf t.reader ≡ true

module _ (parse : ParseTime) where
  tail_move-IsEnding :
      (t t' : Tail) (m : TailMove)
      → IsEnding t
      → tail_move parse t m ≡ some t'
      → IsEnding t' × (left t' < left t)
  unfolding tail_move tail_reader tail_source tail_writer
  tail_move-IsEnding t t' hears v p = absurd (ground (arith, v.reader))
  tail_move-IsEnding t t' (hears_input content now) v p = absurd (ground (arith, v.reader))
  tail_move-IsEnding t t' (hears_resize content now) v p = absurd (ground (arith, v.reader))
  tail_move-IsEnding t t' hears_no_more v p = absurd (ground (arith, v.reader))
  tail_move-IsEnding t t' leaves v p = ground (arith, v.source, v.reader)
  tail_move-IsEnding t t' (scans line now) v p = absurd (let p' = rw (v.source) at p in cc)
  tail_move-IsEnding t t' scan_ends v p = absurd (let p' = rw (v.source) at p in cc)
  tail_move-IsEnding t t' tells v p = absurd (let p' = rw (v.source) at p in cc)
  tail_move-IsEnding t t' gives_up v p = absurd (let p' = rw (v.source) at p in cc)
  tail_move-IsEnding t t' writes v p = ground (arith, v.source, v.reader)
  tail_move-IsEnding t t' write_fails v p = ground (arith, v.source, v.reader)
  tail_move-IsEnding t t' ends v p = ground (arith, v.source, v.reader)

  writer_stuck :
      (t : Tail) (w : Writer) (ch : List Message)
      → t.writer ≡ w
      → t.write_ch ≡ ch
      → t.source ≡ over
      → IsStuck (tail_move parse) t
      → w ≡ done
  unfolding IsStuck tail_move tail_writer
  writer_stuck t done ch ew ec es stuck = refl
  writer_stuck t writing (msg ∷ rest) ew ec es stuck = ground (arith, stuck writes)
  writer_stuck t writing [] ew ec es stuck = ground (arith, stuck ends)

  reader_stuck :
      (t : Tail) (r : Reader)
      → t.reader ≡ r
      → is_deaf r ≡ true
      → t.writer ≡ done
      → IsStuck (tail_move parse) t
      → r ≡ returned
  unfolding IsStuck tail_move tail_reader
  reader_stuck t reading er deaf w stuck = cc
  reader_stuck t waiting er deaf w stuck = ground (arith, stuck leaves)
  reader_stuck t returned er deaf w stuck = refl

  -- Once the log has ended and the client is gone, a connection to a logs session ends: in whatever order its
  -- goroutines run, they take at most 66 steps more, and where they can take no further step the
  -- handler has returned.
  pub tail_move_lem :
      (recorder : Recorder) (t t' : Tail) (n : ℕ)
      → Tailed parse recorder t
      → t.source ≡ over
      → is_deaf t.reader ≡ true
      → Runs (tail_move parse) t n t'
      → (n ≤ 66) × (IsStuck (tail_move parse) t' → t'.reader ≡ returned)
  tail_move_lem recorder t t' n r ended deaf run =
      let (evs, kept, all, told, last, bound) = Tailed_lem parse recorder t r in
      let (v, le) =
        Runs-bound (tail_move parse) IsEnding left tail_move-IsEnding t t' n
          (record { source = ended; reader = deaf }) run in
      (
        ground (arith, le, bound),
        λ stuck.
            reader_stuck t' t'.reader refl v.reader
              (writer_stuck t' t'.writer t'.write_ch refl refl v.source stuck) stuck,
      )
