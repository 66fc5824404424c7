-- ===== src/Runtime/Mock.antt =====
-- internal/runtime/mock.go: MockRuntime and MockStream. What testify answers to a call, by the method and the
-- arguments that were expected, is a parameter.
mod Tests
use cternal.Prelude.{ℕ, ◌≡◌, refl, ap, arith, Option, none, some, List, [], ◌∷◌, Bytes}
use cternal.Runtime.{Filter, Container, ExecOptions, LogsOptions, Reply, gives, fails, Runtime}

-- A value that a test has given: of no type, if it is nil, or of one of those that the methods return.
pub data Value : Type 0 where
  nil : Value
  containers : List Container → Value
  stream : ℕ → Value
  reader : ℕ → Value
  content : Bytes → Value

-- mock.Arguments: the value, and the error, if it is not nil.
pub record Arguments : Type 0 where
  pub value : Value
  pub error : Option Bytes

-- What a method returns, or a panic of a type assertion.
pub data Returned {ℓ} (A : Type ℓ) : Type ℓ where
  returns : Option A → Option Bytes → Returned A
  panics : Returned A

abbrev asserted {ℓ} : {A : Type ℓ} → Option A → Option Bytes → Returned A
asserted none err = panics
asserted (some a) err = returns (some a) err

unfoldable pub as_containers : Arguments → Returned (List Container)
as_containers a = elim a.value [
  | nil ↦ returns none a.error
  | containers cs ↦ returns (some cs) a.error
  | _ ↦ panics
]

unfoldable pub as_stream : Arguments → Returned ℕ
as_stream a = elim a.value [
  | nil ↦ returns none a.error
  | stream st ↦ returns (some st) a.error
  | _ ↦ panics
]

unfoldable pub as_reader : Arguments → Returned ℕ
as_reader a = elim a.value [
  | nil ↦ returns none a.error
  | reader rc ↦ returns (some rc) a.error
  | _ ↦ panics
]

unfoldable pub as_content : Arguments → Returned Bytes
as_content a = elim a.value [
  | nil ↦ returns none a.error
  | content bytes ↦ returns (some bytes) a.error
  | _ ↦ panics
]

-- What testify answers to the methods of MockRuntime and of MockStream, of which the last three return an
-- error alone.
pub record Called : Type 0 where
  pub list_containers : Filter → Arguments
  pub exec : Bytes → ExecOptions → Arguments
  pub attach : Bytes → Arguments
  pub logs : Bytes → LogsOptions → Arguments
  pub read : Arguments
  pub write : Bytes → Option Bytes
  pub resize : ℕ → ℕ → Option Bytes
  pub close : Option Bytes

module _ (m : Called) where
  unfoldable pub mock_list_containers : Filter → Returned (List Container)
  unfolding as_containers
  mock_list_containers f = as_containers (m.list_containers f)

  unfoldable pub mock_exec : Bytes → ExecOptions → Returned ℕ
  unfolding as_stream
  mock_exec id opts = as_stream (m.exec id opts)

  unfoldable pub mock_attach : Bytes → Returned ℕ
  unfolding as_stream
  mock_attach id = as_stream (m.attach id)

  unfoldable pub mock_logs : Bytes → LogsOptions → Returned ℕ
  unfolding as_reader
  mock_logs id opts = as_reader (m.logs id opts)

  unfoldable pub mock_read : Returned Bytes
  unfolding as_content
  mock_read = as_content m.read

  unfoldable pub mock_write : Bytes → Option Bytes
  mock_write bytes = m.write bytes

  unfoldable pub mock_resize : ℕ → ℕ → Option Bytes
  mock_resize cols rows = m.resize cols rows

  unfoldable pub mock_close : Option Bytes
  mock_close = m.close

-- What a method of the mock returns for a reply of a runtime.
abbrev pub returned {ℓ} : {A : Type ℓ} → Reply A → Returned A
returned (gives a) = returns (some a) none
returned (fails e) = returns none (some e)

abbrev pub told : {A : Type 0} → (A → Value) → Reply A → Arguments
told value (gives a) = record { value = value a; error = none }
told value (fails e) = record { value = nil; error = some e }

-- A mock that is told what a runtime answers.
abbrev pub like : Runtime → (Bytes → LogsOptions → Reply ℕ) → Reply Bytes → Called
like rt logs read = record {
  list_containers = λ f. told containers (rt.list_containers f);
  exec = λ id opts. told stream (rt.exec id opts);
  attach = λ id. told stream (rt.attach id);
  logs = λ id opts. told reader (logs id opts);
  read = told content read;
  write = λ bytes. none;
  resize = λ cols rows. none;
  close = none;
}

-- A mock that is told, for each call, what a runtime answers to it returns what the runtime does, values and
-- errors, and never panics.
pub like_lem :
    (rt : Runtime) (logs : Bytes → LogsOptions → Reply ℕ) (read : Reply Bytes)
    → let m = like rt logs read in
      ((f : Filter) → mock_list_containers m f ≡ returned (rt.list_containers f))
      × ((id : Bytes) (opts : ExecOptions) → mock_exec m id opts ≡ returned (rt.exec id opts))
      × ((id : Bytes) → mock_attach m id ≡ returned (rt.attach id))
      × ((id : Bytes) (opts : LogsOptions) → mock_logs m id opts ≡ returned (logs id opts))
      × (mock_read m ≡ returned read)
unfolding mock_list_containers mock_exec mock_attach mock_logs mock_read as_containers as_stream
    as_reader as_content
like_lem rt logs read = (
  λ f. as_told (rt.list_containers f),
  λ id opts. streamed (rt.exec id opts),
  λ id. streamed (rt.attach id),
  λ id opts. logged (logs id opts),
  read_back read,
)
  where
    as_told : (r : Reply (List Container)) → as_containers (told containers r) ≡ returned r
    as_told (gives a) = refl
    as_told (fails e) = refl

    streamed : (r : Reply ℕ) → as_stream (told stream r) ≡ returned r
    streamed (gives a) = refl
    streamed (fails e) = refl

    logged : (r : Reply ℕ) → as_reader (told reader r) ≡ returned r
    logged (gives a) = refl
    logged (fails e) = refl

    read_back : (r : Reply Bytes) → as_content (told content r) ≡ returned r
    read_back (gives a) = refl
    read_back (fails e) = refl
