-- ===== src/Api/Socket/Runs.antt =====
-- The runs of a system of goroutines, of which any may take the next step.
use cternal.Prelude.{ℕ, suc, ◌+◌, ◌≤◌, ◌<◌, ◌≡◌, arith, Option, none, some}

module _ {S M : Type 0} (step : S → M → Option S) where
  -- So many steps.
  pub data Runs : S → ℕ → S → Type 0 where
    stands : {e : S} → Runs e 0 e
    runs :
        {e e' e'' : S} {n : ℕ} → Runs e n e' → (m : M) → step e' m ≡ some e'' → Runs e (suc n) e''

  unfoldable pub IsStuck : S → Type 0
  IsStuck e = (m : M) → step e m ≡ none

  -- What each step keeps, a run keeps; and it is as long as what each step lowers allows.
  pub Runs-bound :
      (P : S → Type 0) (left : S → ℕ)
      → ((e e' : S) (m : M) → P e → step e m ≡ some e' → P e' × (left e' < left e))
      → (e e' : S) (n : ℕ) → P e
      → Runs e n e'
      → P e' × (n + left e' ≤ left e)
  Runs-bound P left lowers e _ _ v stands = (v, omega arith)
  Runs-bound P left lowers e _ _ v (runs {e' = e'} {e'' = e''} {n = n} r m p) =
      let (v', le) = Runs-bound P left lowers e e' n v r in
      let (v'', lt) = lowers e' e'' m v' p in (v'', omega arith)
