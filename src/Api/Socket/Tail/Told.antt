-- ===== src/Api/Socket/Tail/Told.antt =====
-- What a client of a logs session is sent, whatever the order in which the goroutines run.
use cternal.Prelude.{
  ◌≤◌, ◌≡◌, refl, sym, ap, ◌∙◌, arith, some, List, [], ◌++◌, length, map, append-nil,
}
use cternal.Recorder.{Recorder, Event}
use cternal.Logs.{ParseTime}
use cternal.Api.Socket.{Message, output}
use cternal.Api.Socket.Attach.{Writer, writing, write_capacity}
use cternal.Recorder.Player.Pace.{texts}
use cternal.Api.Socket.Tail.Moves.{in_hand, IsSound, new_tail-IsSound, tail_move-IsSound}
use cternal.Api.Socket.Tail.{Scanner, over, Tail, new_tail, TailMove, ends, tail_writer, tail_move}

module _ (parse : ParseTime) (recorder : Recorder) where
  -- The states that a connection may get to.
  pub data Tailed : Tail → Type 0 where
    begins : Tailed (new_tail recorder)
    goes_on : {t t' : Tail} → Tailed t → (m : TailMove) → tail_move parse t m ≡ some t' → Tailed t'

  Tailed-IsSound : (t : Tail) → Tailed t → IsSound recorder t
  Tailed-IsSound _ begins = new_tail-IsSound recorder
  Tailed-IsSound _ (goes_on {t = t} {t' = t'} r m p) =
      tail_move-IsSound parse recorder t t' m (Tailed-IsSound t r) p

  drained :
      (t t' : Tail) (w : Writer) (ch : List Message) (s : Scanner)
      → t.writer ≡ w
      → t.write_ch ≡ ch
      → t.source ≡ s
      → IsSound recorder t
      → tail_writer t ends w ch s ≡ some t'
      → t.sent ≡ map output t.taken
  unfolding tail_writer
  drained t t' writing [] over at c d v p =
      ground (arith, v.whole at, append-nil t.sent, ap in_hand d)
  drained t t' w ch s at c d v p = absurd (ground arith)

  -- Whatever the order of the goroutines' steps, the outputs that a connection to a logs session adds to
  -- the recording are one for each line that it has scanned, and its client is sent their texts, from the
  -- first on, in order and without a gap. When the writer sees the end of its channel all of them have been sent.
  -- The write channel is never longer than its capacity.
  pub Tailed_lem :
      (t : Tail)
      → Tailed t
      → (evs : List Event) × (t.log.recorder.events ≡ recorder.events ++ evs)
        × (texts evs ≡ t.taken)
        × ((rest : List Message) × (t.sent ++ rest ≡ map output (texts evs)))
        × ((t' : Tail) → tail_move parse t ends ≡ some t' → t.sent ≡ map output (texts evs))
        × (length t.write_ch ≤ write_capacity)
  unfolding tail_move
  Tailed_lem t r =
      let v = Tailed-IsSound t r in
      let (evs, kept, all_texts) = v.recorded in
      (
        evs,
        kept,
        all_texts,
        (v.prefix.0, v.prefix.1 ∙ ap (map output) (sym all_texts)),
        λ t' p.
            drained t t' t.writer t.write_ch t.source refl refl refl v p
            ∙ ap (map output) (sym all_texts),
        v.bound,
      )
