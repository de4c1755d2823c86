-- ===== src/Auth.antt =====
-- Accounts, sessions and refresh tokens: the rows that the repositories of apps/api/src/auth keep
-- (the models User, Tenant, Session and RefreshToken of apps/api/prisma/schema.prisma), and what the
-- runtime supplies to a call. The columns of the client (device, address, agent) are left out.
pub mod Tokens
pub mod Login
pub mod Password
pub mod RateLimit
pub mod Reset
mod Tests
use Prim.Native.String.{String}
use support_desk.Base.{
  ℕ, ◌+◌, ◌*◌, Text, text_eq, Bool, true, false, Option, none, some, List, [], ◌∷◌, ◌++◌,
}
use support_desk.Base.Actions.{Action, change}
use support_desk.Audit.{AuditOutcome}

pub data UserState : Type 0 where
  active_user invited_user locked_user suspended_user deleted_user : UserState

pub data SessionState : Type 0 where
  active_session expired_session revoked_session : SessionState

pub data RefreshTokenState : Type 0 where
  active_token rotated_token revoked_token expired_token reused_token : RefreshTokenState

abbrev pub is_active_user : UserState → Bool
is_active_user active_user = true
is_active_user _ = false

abbrev pub is_active_session : SessionState → Bool
is_active_session active_session = true
is_active_session _ = false

abbrev pub is_active_token : RefreshTokenState → Bool
is_active_token active_token = true
is_active_token _ = false

pub record Tenant : Type 0 where
  pub id : Text
  pub is_active : Bool
  pub failed_login_lockout_threshold : ℕ
  pub failed_login_window_minutes : ℕ
  pub lockout_duration_minutes : ℕ
  pub password_expires_days : Option ℕ
  pub deleted_at : Option ℕ

pub record UserRole : Type 0 where
  pub tenant_id : Text
  pub revoked_at : Option ℕ
  pub role_deleted_at : Option ℕ

pub record User : Type 0 where
  pub id : Text
  pub email_normalized : Text
  pub email_verified_at : Option ℕ
  pub state : UserState
  pub password_hash : Text
  pub password_changed_at : Option ℕ
  pub password_expires_at : Option ℕ
  pub failed_login_count : ℕ
  pub failed_login_window_started_at : Option ℕ
  pub locked_until : Option ℕ
  pub roles : List UserRole
  pub deleted_at : Option ℕ

pub record Session : Type 0 where
  pub id : Text
  pub tenant_id : Text
  pub user_id : Text
  pub state : SessionState
  pub remember_me : Bool
  pub expires_at : ℕ
  pub revoked_at : Option ℕ

pub record RefreshToken : Type 0 where
  pub id : Text
  pub tenant_id : Text
  pub user_id : Text
  pub session_id : Text
  pub token_hash : Text
  pub family_id : Text
  pub parent_token_id : Option Text
  pub state : RefreshTokenState
  pub expires_at : ℕ
  pub revoked_at : Option ℕ

-- An audit event of authentication, with the reason that its metadata name.
pub record AuthAudit : Type 0 where
  pub action : String
  pub reason : Option String
  pub outcome : AuditOutcome
  pub actor_user_id : Option Text
  pub tenant_id : Option Text
  pub target_id : Option Text

pub record Accounts : Type 0 where
  pub tenants : List Tenant
  pub users : List User
  pub sessions : List Session
  pub tokens : List RefreshToken
  pub audits : List AuthAudit

pub data AuthError : Type 0 where
  short_secret duplicate_token user_missing : AuthError

abbrev pub Op : Type 0 → Type 0
Op A = Action Accounts AuthError A

-- AuthTokenConfig and the lives of sessions, in minutes.
pub record Config : Type 0 where
  pub access_token_ttl : ℕ
  pub refresh_token_ttl : ℕ
  pub remember_me_refresh_token_ttl : ℕ
  pub session_ttl : ℕ
  pub remember_me_session_ttl : ℕ
  pub secret_length : ℕ

-- What a call is given: the configuration, the time, random ids and tokens, and the hashes of tokens
-- (SHA-256) and of passwords (Argon2).
pub record Env : Type 0 where
  pub config : Config
  pub now : ℕ
  pub uuid : ℕ → Text
  pub token : ℕ → Text
  pub hash_token : Text → Text
  pub hash_password : Text → Text
  pub verify_password : (stored password : Text) → Bool

abbrev pub add_minutes : ℕ → ℕ → ℕ
add_minutes date minutes = date + minutes * 60000

-- `recordAuthAuditEvent`
abbrev pub audit : AuthAudit → Op Unit
audit a = change (λ db. record db { audits = db.audits ++ a ∷ [] })
