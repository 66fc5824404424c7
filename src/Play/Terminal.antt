-- ===== src/Play/Terminal.antt =====
-- cmd/cternal/play.go, runPlay with what it does to the terminal and to the signals. The terminal of
-- package term is a parameter, as is the playback's course.
use cternal.Prelude.{ℕ, ◌≡◌, refl, Bool, inl, inr, List, [], ◌∷◌, Bool-cases, if◌then◌else◌}
use cternal.Floats.{Floats}
use cternal.Std.Scan.{Input}
use cternal.Runtime.{Reply, gives, fails}
use cternal.Runtime.Docker.Calls.{Reply-cases}
use cternal.Play.{Decoder, load_cast}

-- A state of the terminal is a number. MakeRaw gives the state before it, or an error.
pub record Terminal : Type 0 where
  pub is_terminal : Bool
  pub make_raw : Reply ℕ

-- What is done besides the playback: the signals that stop it are asked for, the terminal is made raw, a
-- goroutine drains its input, the cast is played, and the terminal is restored to a state.
pub data TerminalCall : Type 0 where
  notifies : TerminalCall
  makes_raw : TerminalCall
  drains : TerminalCall
  plays : TerminalCall
  restores : ℕ → TerminalCall

-- The deferred call, which is made only if MakeRaw has succeeded.
abbrev restored : Terminal → List TerminalCall
restored term = elim term.make_raw [ fails e ↦ [] | gives old ↦ restores old ∷ [] ]

-- The calls in their order, of what loading the cast gives.
unfoldable pub terminal_calls : {A : Type 0} → Terminal → Reply A → List TerminalCall
terminal_calls term (fails e) = []
terminal_calls term (gives events) =
    if term.is_terminal
    then notifies ∷ makes_raw ∷ drains ∷ plays ∷ restored term
    else notifies ∷ plays ∷ []

-- The state of the terminal after calls, in which `raw` is the raw state.
pub state_after : ℕ → ℕ → List TerminalCall → ℕ
state_after raw state [] = state
state_after raw state (makes_raw ∷ calls) = state_after raw raw calls
state_after raw state (restores old ∷ calls) = state_after raw old calls
state_after raw state (c ∷ calls) = state_after raw state calls

module _ (fl : Floats) (decoder : Decoder fl) where
  -- Whatever the cast, the speed and what interrupts the playback: if MakeRaw gives the state that the terminal
  -- was in, the terminal is in that state again when runPlay returns; if the cast cannot be loaded, or
  -- the input is no terminal, the state is not touched.
  pub terminal_calls_lem :
      (term : Terminal) (opened : Reply Input) (raw state : ℕ)
      → term.make_raw ≡ gives state
      → state_after raw state (terminal_calls term (load_cast fl decoder opened)) ≡ state
  unfolding terminal_calls state_after
  terminal_calls_lem term opened raw state m = elim (Reply-cases (load_cast fl decoder opened)) [
    | inr (e, failed) ↦ rw failed refl
    | inl (events, loaded) ↦ elim (Bool-cases term.is_terminal) [
      | inl yes_it_is ↦ rw (loaded, terminal_calls, yes_it_is, m) refl
      | inr no_terminal ↦ rw (loaded, terminal_calls, no_terminal) refl
    ]
  ]
