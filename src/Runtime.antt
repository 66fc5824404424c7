-- ===== src/Runtime.antt =====
-- internal/runtime/interface.go: what the server asks of a container runtime. A stream is a number; an
-- error is its text.
pub mod K8s
pub mod Docker
pub mod Clients
pub mod Mock
use cternal.Prelude.{ℕ, Bool, List, Bytes}
use cternal.Dict.{Dict}

pub record Filter : Type 0 where
  pub name : Bytes
  pub status : Bytes
  pub labels : Dict Bytes

pub record Container : Type 0 where
  pub id : Bytes
  pub name : Bytes
  pub image : Bytes
  pub status : Bytes
  pub running : Bool
  pub runtime : Bytes
  pub labels : Dict Bytes

pub record ExecOptions : Type 0 where
  pub shell : List Bytes
  pub env : List Bytes
  pub cols : ℕ
  pub rows : ℕ

pub record LogsOptions : Type 0 where
  pub since : Bytes
  pub follow : Bool
  pub timestamps : Bool

pub data Reply {ℓ} (A : Type ℓ) : Type ℓ where
  gives : A → Reply A
  fails : Bytes → Reply A

-- A runtime, as it answers the calls of one request.
pub record Runtime : Type 0 where
  pub list_containers : Filter → Reply (List Container)
  pub exec : Bytes → ExecOptions → Reply ℕ
  pub attach : Bytes → Reply ℕ
