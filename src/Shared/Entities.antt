-- ===== src/Shared/Entities.antt =====
-- libs/shared/entities/src: the rows that TypeORM reads and writes. Dates are milliseconds.
use skill_up.Base.{ℕ, Option}
use skill_up.Text.{Text}
use skill_up.Shared.Enums.{UserRole, UserStatus, OutboxStatus}

-- user.entity.ts
pub record User : Type 0 where
  pub id : Text
  pub username : Text
  pub email : Text
  pub password : Text
  pub role : UserRole
  pub status : UserStatus
  pub profile_photo : Option Text
  pub birth_date : Option Text
  pub created_at : ℕ
  pub updated_at : ℕ

-- The two payloads that the providers write; a redacted code is a text like any other.
pub data Payload : Type 0 where
  verification_email : Text → Text → Text → Payload
  profile_photo : Text → Text → Text → Payload

-- outbox-message.entity.ts
pub record OutboxMessage : Type 0 where
  pub id : Text
  pub event_type : Text
  pub payload : Payload
  pub status : OutboxStatus
  pub retry_count : ℕ
  pub created_at : ℕ
  pub processed_at : Option ℕ
