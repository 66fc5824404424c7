-- ===== src/Runtime/K8s/Stream/Ended.antt =====
-- How the stream of a command in a pod ends, and what it has carried by then.
use cternal.Prelude.{
  ◌≡◌, ◌≢◌, refl, sym, ap, ◌∙◌, arith, true, false, none, some, List, [], ◌∷◌, ◌++◌, Bytes,
  append-nil,
}
use cternal.Runtime.K8s.Stream.Piped.{
  pending, received, AllWithin, has_eof, IsRead, IsTaken, new_k8s_stream-IsRead,
  new_k8s_stream-IsTaken, k8s_move-IsRead,
}
use cternal.Runtime.K8s.Stream.Taken.{k8s_move-IsTaken}
use cternal.Runtime.K8s.Stream.{
  Wrote, closed_pipe, K8sStream, K8sMove, writes, closes, takes, buffer_size, k8s_write, k8s_read,
  k8s_take, k8s_put, k8s_return, k8s_close, k8s_move, Reached, starts, moves,
}

Reached-IsRead : (s : K8sStream) → Reached s → IsRead s
Reached-IsRead _ starts = new_k8s_stream-IsRead
Reached-IsRead _ (moves {s = s} {s' = s'} r m p) = k8s_move-IsRead s s' m (Reached-IsRead s r) p

Reached-IsTaken : (s : K8sStream) → Reached s → IsTaken s
Reached-IsTaken _ starts = new_k8s_stream-IsTaken
Reached-IsTaken _ (moves {s = s} {s' = s'} r m p) = k8s_move-IsTaken s s' m (Reached-IsTaken s r) p

-- Whatever the order in which the program and the client library use the stream of a command in a pod: the
-- texts that Read has returned, each of at most 4096 bytes, make up the beginning of what the
-- command has written, and all of it once the library has returned without being cancelled; Read
-- returns the end only after that return; and what the command is given is the beginning of the texts
-- of Write, all of them if the stream is not closed and no Write is waiting.
pub k8s_move_lem :
    (s : K8sStream)
    → Reached s
    → ((rest : Bytes) × (received s.got ++ rest ≡ s.put))
      × AllWithin buffer_size s.got
      × (s.is_running ≡ false → s.cancelled ≡ false → received s.got ≡ s.put)
      × (has_eof s.got ≡ true → s.is_running ≡ false)
      × ((rest : Bytes) × (s.taken ++ rest ≡ s.given))
      × (s.stdin.closed ≡ false → s.stdin.offered ≡ none → s.taken ≡ s.given)
k8s_move_lem s r =
    let v = Reached-IsRead s r in
    let w = Reached-IsTaken s r in
    (
      v.prefix,
      v.sizes,
      v.after,
      λ e. ground (arith, v.eofs),
      w.prefix,
      λ c o. sym (append-nil s.taken) ∙ ap (λ o'. s.taken ++ pending o') (sym o) ∙ w.whole c,
    )

-- What follows as long as the stream is not closed.
pub data Unclosed (s : K8sStream) : K8sStream → Type 0 where
  here : Unclosed s s
  further :
      {s' s'' : K8sStream}
      → Unclosed s s'
      → (m : K8sMove) → m ≢ closes
      → k8s_move s' m ≡ some s''
      → Unclosed s s''

-- A Write waits that nobody takes anything of.
record Waits (content : Bytes) (results : List Wrote) (s : K8sStream) : Type 0 where
  pub offered : s.stdin.offered ≡ some content
  pub unread : s.is_reading ≡ false
  pub wrote : s.wrote ≡ results

k8s_move-Waits :
    (s s' : K8sStream) (m : K8sMove) (content : Bytes) (results : List Wrote)
    → Waits content results s
    → m ≢ closes
    → k8s_move s m ≡ some s'
    → Waits content results s'
unfolding k8s_move k8s_write k8s_read k8s_take k8s_put k8s_return
k8s_move-Waits s s' closes content results v other p = absurd (other refl)
k8s_move-Waits s s' (writes more) content results v other p =
    absurd (let p' = rw (v.offered) at p in cc)
k8s_move-Waits s s' (takes n) content results v other p = absurd (let p' = rw (v.unread) at p in cc)
k8s_move-Waits s s' m content results v other p = record {
  offered = ground (arith, v.offered);
  unread = ground (arith, v.unread);
  wrote = ground (arith, v.wrote);
}

Unclosed-Waits :
    (s s' : K8sStream) (content : Bytes)
    → s.stdin.offered ≡ some content
    → s.is_reading ≡ false
    → Unclosed s s'
    → Waits content s.wrote s'
Unclosed-Waits s _ content e r here = record { offered = e; unread = r; wrote = refl }
Unclosed-Waits s _ content e r (further {s' = s'} {s'' = s''} u m other p) =
    k8s_move-Waits s' s'' m content s.wrote (Unclosed-Waits s s' content e r u) other p

-- When the client library reads no more of the standard input, as when the command has ended, a Write that
-- waits in the stream does not return, whatever happens, before the stream is closed; Close makes it return
-- with an error.
pub k8s_close_lem :
    (s s' : K8sStream) (content : Bytes)
    → s.stdin.offered ≡ some content
    → s.is_reading ≡ false
    → Unclosed s s'
    → (s'.wrote ≡ s.wrote)
      × (s'.stdin.offered ≡ some content)
      × ((s'' : K8sStream)
          → k8s_move s' closes ≡ some s''
          → s''.wrote ≡ s.wrote ++ closed_pipe ∷ [])
unfolding k8s_move k8s_close
k8s_close_lem s s' content e r u =
    let v = Unclosed-Waits s s' content e r u in
    (
      v.wrote,
      v.offered,
      λ s'' p. let p' = rw (k8s_move, k8s_close, v.offered) at p in ground (arith, v.wrote),
    )
