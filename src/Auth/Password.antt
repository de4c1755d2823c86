-- ===== src/Auth/Password.antt =====
-- Changing a password, apps/api/src/auth/password/auth-password.service.ts and
-- auth-password.repository.ts, and the policy of
-- apps/api/src/auth/validation/password-policy.service.ts. What the runtime knows of letter case
-- is a parameter, `lower`; the texts of a password are its UTF-16 code units.
pub mod Laws
use Prim.Native.String.{String}
use support_desk.Base.{
  ℕ, ◌+◌, ◌*◌, Text, text_eq, trim, Bool, true, false, not, ◌&&◌, ◌||◌, Option, none, some, List,
  [], ◌∷◌, ◌++◌, leb, ltb, ◌==◌, any, find, filter, length, update_where, is_some, if◌then◌else◌,
  Result, ok, err,
}
use support_desk.Base.Actions.{Action, ◌>>=◌, ◌>>◌, require, transaction, read_or, change}
use support_desk.Audit.{AuditOutcome, success, denied}
use support_desk.Auth.{
  User, is_active_user, Tenant, Session, is_active_session, RefreshToken, Accounts, AuthError,
  user_missing, Op, Env, AuthAudit, audit,
}
use support_desk.Auth.Tokens.{is_live, revoked, closed}
use support_desk.Auth.Login.{is_user, cleared}

pub data PolicyError : Type 0 where
  contains_identifier missing_lowercase missing_number missing_symbol missing_uppercase
        recently_used too_long too_short :
      PolicyError

-- The lengths and the kinds of characters that the settings demand.
pub record Policy : Type 0 where
  pub max_length : ℕ
  pub min_length : ℕ
  pub require_lowercase : Bool
  pub require_number : Bool
  pub require_symbol : Bool
  pub require_uppercase : Bool

abbrev pub is_between : ℕ → ℕ → ℕ → Bool
is_between low high c = leb low c && leb c high

abbrev pub is_alphanumeric : ℕ → Bool
is_alphanumeric c = is_between 65 90 c || is_between 97 122 c || is_between 48 57 c

abbrev pub starts_with : (prefix : Text) → Text → Bool
starts_with [] text = true
starts_with (c ∷ prefix) [] = false
starts_with (c ∷ prefix) (d ∷ text) = c == d && starts_with prefix text

-- `text.includes(part)`
unfoldable pub includes : (text part : Text) → Bool
includes [] part = starts_with part []
includes (c ∷ text) part = starts_with part (c ∷ text) || includes text part

-- `text.split("@")[0]`
unfoldable pub local_part : Text → Text
local_part [] = []
local_part (c ∷ text) = if c == 64 then [] else c ∷ local_part text

unfoldable pub contains_an_identifier : (lower : Text → Text) (password email : Text) → Bool
unfolding includes local_part
contains_an_identifier lower password email =
    let normalized = lower (trim email) in
    any (includes (lower (trim password)))
      (filter (λ x. leb 3 (length x)) (normalized ∷ local_part normalized ∷ []))

abbrev pub error_if : Bool → PolicyError → List PolicyError
error_if true e = e ∷ []
error_if false e = []

-- `validate`, with the errors in the order in which they are pushed.
unfoldable pub validate :
    (lower : Text → Text)
    → Policy
    → (password email : Text) → (already_used : Bool) → List PolicyError
unfolding contains_an_identifier
validate lower p password email used =
    error_if (ltb (length password) p.min_length) too_short
    ++ error_if (ltb p.max_length (length password)) too_long
    ++ error_if (p.require_uppercase && not (any (is_between 65 90) password)) missing_uppercase
    ++ error_if (p.require_lowercase && not (any (is_between 97 122) password)) missing_lowercase
    ++ error_if (p.require_number && not (any (is_between 48 57) password)) missing_number
    ++ error_if (p.require_symbol && not (any (λ c. not (is_alphanumeric c)) password))
        missing_symbol
    ++ error_if (contains_an_identifier lower password email) contains_identifier
    ++ error_if used recently_used

pub record ChangePasswordRequest : Type 0 where
  pub current_password : Text
  pub current_session_id : Option Text
  pub new_password : Text

pub data ChangePasswordResult : Type 0 where
  changed : ChangePasswordResult
  change_denied : ChangePasswordResult
  validation_failed : List PolicyError → ChangePasswordResult

pub record PasswordChangeIdentity : Type 0 where
  pub email_normalized : Text
  pub password_expires_days : Option ℕ
  pub password_hash : Text
  pub tenant_id : Text
  pub user_id : Text

-- The tenant and the user of a session, which foreign keys keep there.
abbrev pub usable_tenant : Session → Accounts → Option Tenant
usable_tenant s db =
    find (λ (t : Tenant). text_eq t.id s.tenant_id && not (is_some t.deleted_at) && t.is_active)
      db.tenants

abbrev pub usable_user : Session → Accounts → Option User
usable_user s db =
    find
      (λ (u : User). text_eq u.id s.user_id && not (is_some u.deleted_at) && is_active_user u.state)
      db.users

abbrev pub is_current : ℕ → (id : Text) → Accounts → Session → Bool
is_current now id db s =
    ltb now s.expires_at
    && text_eq s.id id
    && not (is_some s.revoked_at)
    && is_active_session s.state
    && is_some (usable_tenant s db)
    && is_some (usable_user s db)

abbrev pub identity_of : Session → Option Tenant → Option User → Option PasswordChangeIdentity
identity_of s (some t) (some u) = some (record {
  email_normalized = u.email_normalized;
  password_expires_days = t.password_expires_days;
  password_hash = u.password_hash;
  tenant_id = s.tenant_id;
  user_id = u.id;
})
identity_of s _ _ = none

-- `findPasswordChangeIdentity`
unfoldable pub find_password_change_identity :
    ℕ → (session : Text) → Accounts → Option PasswordChangeIdentity
find_password_change_identity now id db = elim (find (is_current now id db) db.sessions) [
  | none ↦ none
  | some s ↦ identity_of s (usable_tenant s db) (usable_user s db)
]

pub record CompletePasswordChange : Type 0 where
  pub password_changed_at : ℕ
  pub password_expires_at : Option ℕ
  pub password_hash : Text
  pub tenant_id : Text
  pub user_id : Text

abbrev pub with_new_password : CompletePasswordChange → User → User
with_new_password i u = record (cleared u) {
  password_changed_at = some i.password_changed_at;
  password_expires_at = i.password_expires_at;
  password_hash = i.password_hash;
}

-- `completePasswordChange`; the update of a user that is not there throws.
unfoldable pub complete_password_change :
    CompletePasswordChange → Accounts → Result AuthError (Accounts × Unit {0})
complete_password_change i db =
    if any (is_user i.user_id) db.users
    then ok (
      record db {
        users = update_where (is_user i.user_id) (with_new_password i) db.users;
        sessions =
            update_where
              (λ (s : Session).
                is_active_session s.state
                && text_eq s.tenant_id i.tenant_id
                && text_eq s.user_id i.user_id)
              (closed i.password_changed_at) db.sessions;
        tokens =
            update_where
              (λ (t : RefreshToken).
                is_live t.state && text_eq t.tenant_id i.tenant_id && text_eq t.user_id i.user_id)
              (revoked i.password_changed_at) db.tokens;
      },
      tt,
    )
    else err user_missing

abbrev pub password_audit :
    (action : String) → Option String → AuditOutcome → Option PasswordChangeIdentity → AuthAudit
password_audit action reason outcome none = record {
  action = action;
  reason = reason;
  outcome = outcome;
  actor_user_id = none;
  tenant_id = none;
  target_id = none;
}
password_audit action reason outcome (some i) = record {
  action = action;
  reason = reason;
  outcome = outcome;
  actor_user_id = some i.user_id;
  tenant_id = some i.tenant_id;
  target_id = none;
}

abbrev pub turn_down :
    (reason : String)
    → Option PasswordChangeIdentity
    → ChangePasswordResult
    → Op ChangePasswordResult
turn_down reason i result = do
  audit (password_audit "auth.password_change.rejected" (some reason) denied i)
  read_or (λ db. ok result)

-- `addDays`
abbrev pub add_days : ℕ → ℕ → ℕ
add_days date days = date + days * 86400000

abbrev pub expiry_of : ℕ → Option ℕ → Option ℕ
expiry_of now none = none
expiry_of now (some days) = some (add_days now days)

unfoldable pub store_password :
    Env → PasswordChangeIdentity → (password : Text) → Op ChangePasswordResult
unfolding complete_password_change
store_password e i password = do
  transaction (
      complete_password_change (record {
        password_changed_at = e.now;
        password_expires_at = expiry_of e.now i.password_expires_days;
        password_hash = e.hash_password password;
        tenant_id = i.tenant_id;
        user_id = i.user_id;
      }))
  audit (password_audit "auth.password_change.completed" none success (some i))
  read_or (λ db. ok changed)

abbrev pub store_valid :
    Env → PasswordChangeIdentity → (password : Text) → List PolicyError → Op ChangePasswordResult
store_valid e i password [] = store_password e i password
store_valid e i password (x ∷ errors) =
    turn_down "password_policy_rejected" (some i) (validation_failed (x ∷ errors))

abbrev pub change_as :
    Env
    → (lower : Text → Text) → Policy
    → ChangePasswordRequest
    → Option PasswordChangeIdentity
    → Op ChangePasswordResult
change_as e lower p r none = turn_down "session_unavailable" none change_denied
change_as e lower p r (some i) =
    if not (e.verify_password i.password_hash r.current_password)
    then turn_down "current_password_invalid" (some i) change_denied
    else store_valid e i r.new_password (
        validate lower p r.new_password i.email_normalized
          (e.verify_password i.password_hash r.new_password))

unfoldable pub change_with :
    Env
    → (lower : Text → Text) → Policy
    → ChangePasswordRequest
    → (session current : Text) → Op ChangePasswordResult
unfolding find_password_change_identity validate store_password
change_with e lower p r (c ∷ session) (x ∷ current) db =
    change_as e lower p r (find_password_change_identity e.now (c ∷ session) db) db
change_with e lower p r _ _ db = turn_down "authentication_required" none change_denied db

-- The session id without blanks at its ends; without one it counts as empty.
abbrev pub trimmed : Option Text → Text
trimmed none = []
trimmed (some text) = trim text

-- `changePassword`
unfoldable pub change_password :
    Env → (lower : Text → Text) → Policy → ChangePasswordRequest → Op ChangePasswordResult
change_password e lower p r =
    change_with e lower p r (trimmed r.current_session_id) r.current_password
