-- ===== src/Users.antt =====
-- apps/users-service: the providers behind the gRPC endpoints of the users service.
pub mod Keys
pub mod Tokens
pub mod Counter
pub mod Login
pub mod Verify
pub mod Resend
pub mod Register
pub mod Queries
