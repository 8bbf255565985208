-- ===== src/Shared/Enums.antt =====
-- libs/shared/enums/src and the gRPC status codes that the services throw.
use skill_up.Base.{ℕ, Bool, true, false}

-- roles.enum.ts
pub data UserRole : Type 0 where
  student instructor admin : UserRole

-- statuses.enum.ts
pub data UserStatus : Type 0 where
  pending active blocked : UserStatus

pub data OutboxStatus : Type 0 where
  pending processing published failed : OutboxStatus

abbrev pub is_pending : OutboxStatus → Bool
is_pending OutboxStatus.pending = true
is_pending _ = false

-- The members of `status` of @grpc/grpc-js that the providers name.
pub data GrpcStatus : Type 0 where
  invalid_argument not_found already_exists permission_denied : GrpcStatus
  resource_exhausted failed_precondition internal unauthenticated : GrpcStatus

-- Their numbers, by which the gateway tells them apart.
abbrev pub grpc_code : GrpcStatus → ℕ
grpc_code GrpcStatus.invalid_argument = 3
grpc_code GrpcStatus.not_found = 5
grpc_code GrpcStatus.already_exists = 6
grpc_code GrpcStatus.permission_denied = 7
grpc_code GrpcStatus.resource_exhausted = 8
grpc_code GrpcStatus.failed_precondition = 9
grpc_code GrpcStatus.internal = 13
grpc_code GrpcStatus.unauthenticated = 16
