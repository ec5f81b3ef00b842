-- ===== src/Rpc/Calls.antt =====
-- Calls as state passing, `tonic::Status`, and the error type of the client.
use armoni_k_api.Common.{String}
use armoni_k_api.Common.Outcome.{Result, map_err, map_ok}

-- The codes of gRPC that the code names; every other code is its number.
pub data Code : Type 0 where
  internal unimplemented : Code
  other : String → Code

-- `tonic::Status`
pub record Status : Type 0 where
  pub code : Code
  pub message : String

-- `RequestError` of client/mod.rs.
pub data RequestError : Type 0 where
  grpc : Status → RequestError

-- A call that fails with an `E`, over a state `S` of what is called.
abbrev pub Call {ℓ} : Type ℓ → Type ℓ → Type ℓ → Type ℓ
Call S E A = S → Result A E × S

module _ {S E A B : Type 0} where
  -- What `?` and a `match` on the result do with a call.
  abbrev pub then_result : (Result A E → Result B E) → Call S E A → Call S E B
  then_result f m s = let (r, s') = m s in (f r, s')

module _ {S E F A B : Type 0} where
  abbrev pub finish : (A → B) → (E → F) → Call S E A → Call S F B
  finish f g m s = let (r, s') = m s in (map_ok f (map_err g r), s')
