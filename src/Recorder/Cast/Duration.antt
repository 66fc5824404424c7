-- ===== src/Recorder/Cast/Duration.antt =====
-- How long a cast file plays at most.
use mathlib.Core.Path.{subst}
use cternal.Prelude.{
  ℕ, suc, ◌+◌, ◌*◌, ◌≤◌, ◌≡◌, ap, sym, ◌∙◌, arith, inl, inr, List, [], ◌∷◌, keep, All, length,
  length-map,
}
use cternal.Prelude.Int.{ℤ, pos, ◌≤ℤ◌, ◌+ℤ◌, int_laws}
use cternal.Floats.{Floats}
use cternal.Recorder.{Event, is_output}
use cternal.Recorder.Cast.{Header, Json, idle_limit, marshal}
use cternal.Recorder.Cast.Timeline.{Row, Ascending, Paced, file, marshal-Paced}

AtMost : ℤ → List Row → Type 0
AtMost bound rows = All (λ (r : Row). r.time ≤ℤ bound) rows

AtMost-mono : (a b : ℤ) (rows : List Row) → a ≤ℤ b → AtMost a rows → AtMost b rows
unfolding AtMost
AtMost-mono a b [] h v = tt
AtMost-mono a b (r ∷ rows) h (v, vs) = (omega arith, AtMost-mono a b rows h vs)

Paced-bound :
    (limit : ℕ) (cursor prev : ℤ) (rows : List Row)
    → Paced (pos limit) cursor prev rows
    → AtMost (cursor +ℤ pos (limit * length rows)) rows
unfolding AtMost
Paced-bound limit cursor prev [] h = tt
Paced-bound limit cursor prev (r ∷ rows) (step, h) =
    let grows : limit * suc (length rows) ≡ limit + limit * length rows = grind arith in
    let near : r.time ≤ℤ (cursor +ℤ pos limit) = elim step [
      | inl (short, e) ↦ rw e (omega int_laws)
      | inr (long, e) ↦ rw e (omega int_laws)
    ] in
    (
      omega (int_laws, near, grows),
      AtMost-mono _ _ rows (omega (int_laws, near, grows))
          (Paced-bound limit r.time r.event.time rows h),
    )

-- With a positive idle limit, and output times that do not fall from zero on, a cast file has a row for
-- each output event, and no row is later than that limit for each of them: so many outputs, however
-- far apart, play in at most so many times the limit.
pub marshal-bound :
    (fl : Floats) (json : Json fl) (hdr : Header fl) (evs : List Event) (limit : ℕ)
    → idle_limit fl hdr ≡ pos limit
    → 1 ≤ limit
    → Ascending (pos 0) (keep is_output evs)
    → let outputs = length (keep is_output evs) in
      (rows : List Row) × (marshal fl json hdr evs ≡ file fl json hdr rows)
      × (length rows ≡ outputs)
      × All (λ (r : Row). r.time ≤ℤ pos (limit * outputs)) rows
unfolding AtMost
marshal-bound fl json hdr evs limit e positive ascending =
    let (rows, encoded, kept, paced) =
      marshal-Paced fl json hdr evs (rw e (omega arith)) ascending in
    let counted : length rows ≡ length (keep is_output evs) =
      sym (length-map (λ (r : Row). r.event) rows) ∙ ap length kept in
    let bounded : AtMost (pos 0 +ℤ pos (limit * length rows)) rows =
      Paced-bound limit (pos 0) (pos 0) rows (subst (λ l. Paced l (pos 0) (pos 0) rows) e paced) in
    (
      rows,
      encoded,
      counted,
      AtMost-mono _ (pos (limit * length (keep is_output evs))) rows (rw counted (omega int_laws))
          bounded,
    )
