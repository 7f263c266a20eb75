-- ===== src/Grpc.antt =====
-- The errors that the hub returns: gRPC statuses (package google.golang.org/grpc/status) with their
-- message as a format and its arguments, unrendered, and the error of a cancelled context.
use wispers_hub.Base.{String, Bytes, List}
use wispers_hub.Base.Int.{ℤ}

pub data Code : Type 0 where
  invalid_argument not_found unauthenticated permission_denied resource_exhausted : Code
  failed_precondition unavailable internal aborted : Code

pub data Arg : Type 0 where
  text : Bytes → Arg
  number : ℤ → Arg

-- `wrapped` is a status whose message prints another error.
pub data Error : Type 0 where
  status : Code → String → List Arg → Error
  wrapped : Code → String → Error → Error
  context_done : Error
