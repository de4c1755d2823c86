-- ===== src/Auth/Reset.antt =====
-- The reset of a forgotten password, auth-password-reset.service.ts and
-- auth-password-reset.repository.ts of apps/api/src/auth/password-reset, with the table auth_tokens of
-- apps/api/prisma/schema.prisma. The resolution of the tenant and the delivery of the notice are
-- arguments; the address of a request is normalized.
pub mod Once
pub mod Delivery
mod Tests
use Prim.Native.String.{String}
use support_desk.Base.{
  ℕ, Text, text_eq, Bool, true, false, not, ◌&&◌, Option, none, some, List, [], ◌∷◌, ◌++◌, any,
  find, update_where, if◌then◌else◌, leb, is_some, Result, ok, err,
}
use support_desk.Base.Actions.{Action, change, read_or, transaction, ◌>>=◌, ◌>>◌}
use support_desk.Audit.{AuditOutcome, success, failure, denied}
use support_desk.Auth.{
  Tenant, User, UserRole, is_active_user, AuthAudit, Accounts, AuthError, duplicate_token,
  user_missing, Env, add_minutes,
}
use support_desk.Auth.Password.{
  PolicyError, Policy, validate, CompletePasswordChange, complete_password_change, expiry_of,
  trimmed,
}

pub data AuthTokenPurpose : Type 0 where
  email_verification password_reset : AuthTokenPurpose

pub data AuthTokenState : Type 0 where
  active_reset used_reset revoked_reset expired_reset : AuthTokenState

abbrev pub is_active_reset : AuthTokenState → Bool
is_active_reset active_reset = true
is_active_reset _ = false

abbrev pub is_reset : AuthTokenPurpose → Bool
is_reset password_reset = true
is_reset email_verification = false

pub record AuthToken : Type 0 where
  pub id : Text
  pub tenant_id : Text
  pub user_id : Text
  pub purpose : AuthTokenPurpose
  pub state : AuthTokenState
  pub token_hash : Text
  pub expires_at : ℕ
  pub used_at : Option ℕ

pub record ResetDesk : Type 0 where
  pub accounts : Accounts
  pub auth_tokens : List AuthToken

abbrev pub Op : Type 0 → Type 0
Op A = Action ResetDesk AuthError A

-- `PasswordResetTokenRecord`: the token, its user and the tenant's days until a password expires.
pub record ResetRecord : Type 0 where
  pub token : AuthToken
  pub user : User
  pub password_expires_days : Option ℕ

pub data PasswordResetResult : Type 0 where
  accepted : PasswordResetResult
  reset_rejected : List PolicyError → PasswordResetResult

abbrev pub is_token : (hash : Text) → AuthToken → Bool
is_token hash t = is_reset t.purpose && text_eq t.token_hash hash

-- The token's user and tenant, which foreign keys keep there.
abbrev pub joined : AuthToken → Option User → Option Tenant → Option ResetRecord
joined t (some u) (some n) =
    some (record { token = t; user = u; password_expires_days = n.password_expires_days })
joined t _ _ = none

abbrev pub record_of : Accounts → Option AuthToken → Option ResetRecord
record_of db none = none
record_of db (some t) =
    joined t (find (λ u. text_eq u.id t.user_id) db.users)
      (find (λ n. text_eq n.id t.tenant_id) db.tenants)

-- `findPasswordResetTokenByHash`
unfoldable pub find_reset_token_by_hash : (hash : Text) → ResetDesk → Option ResetRecord
find_reset_token_by_hash hash s = record_of s.accounts (find (is_token hash) s.auth_tokens)

abbrev member_of : Text → UserRole → Bool
member_of tenant r =
    text_eq r.tenant_id tenant && not (is_some r.revoked_at) && not (is_some r.role_deleted_at)

abbrev is_open_tenant : Text → Tenant → Bool
is_open_tenant tenant n = text_eq n.id tenant && n.is_active && not (is_some n.deleted_at)

-- `findPasswordResetCandidate`
unfoldable pub find_reset_candidate : (tenant email : Text) → Accounts → Option User
find_reset_candidate tenant email db =
    find
      (λ (u : User).
        not (is_some u.deleted_at)
        && text_eq u.email_normalized email
        && is_some u.email_verified_at
        && any (member_of tenant) u.roles
        && any (is_open_tenant tenant) db.tenants
        && is_active_user u.state)
      db.users

abbrev reset_audit :
    (action : String) → Option String → AuditOutcome → (user tenant : Option Text) → AuthAudit
reset_audit action reason outcome user tenant = record {
  action = action;
  reason = reason;
  outcome = outcome;
  actor_user_id = user;
  tenant_id = tenant;
  target_id = none;
}

abbrev pub log : AuthAudit → ResetDesk → ResetDesk
log a s = record s { accounts = record s.accounts { audits = s.accounts.audits ++ a ∷ [] } }

-- An audit event and the answer behind it.
abbrev pub answer_with : AuthAudit → PasswordResetResult → Op PasswordResetResult
answer_with a result s = (log a s, ok result)

abbrev request_rejected : (reason : String) → AuditOutcome → Option Text → Op PasswordResetResult
request_rejected reason outcome tenant =
    answer_with
      (reset_audit "auth.password_reset.request_rejected" (some reason) outcome none tenant)
      accepted

abbrev pub new_token : Env → (ttl_minutes : ℕ) → (tenant : Text) → User → AuthToken
new_token e ttl tenant u = record {
  id = e.uuid 0;
  tenant_id = tenant;
  user_id = u.id;
  purpose = password_reset;
  state = active_reset;
  token_hash = e.hash_token (e.token 0);
  expires_at = add_minutes e.now ttl;
  used_at = none;
}

-- The try block and its handler: the insert fails on a hash that is there.
abbrev pub request_for :
    Env
    → (ttl_minutes : ℕ) → (delivered : Bool) → (tenant : Text) → Option User
    → Op PasswordResetResult
request_for e ttl delivered tenant none s =
    request_rejected "identity_unavailable" denied (some tenant) s
request_for e ttl delivered tenant (some u) s =
    let token = new_token e ttl tenant u in
    if any (λ t. text_eq t.token_hash token.token_hash) s.auth_tokens
    then request_rejected "request_write_failed" failure (some tenant) s
    else let created = record s { auth_tokens = s.auth_tokens ++ token ∷ [] } in
      if delivered
      then answer_with
          (reset_audit "auth.password_reset.requested" none success (some u.id) (some tenant))
          accepted created
      else request_rejected "request_write_failed" failure (some tenant) created

-- `requestPasswordReset`. A tenant that is given is resolved or not.
unfoldable pub request_password_reset :
    Env
    → (ttl_minutes : ℕ) → (delivered : Bool) → (email : Option Text)
    → (tenant : Option (Option Text)) → Op PasswordResetResult
unfolding find_reset_candidate
request_password_reset e ttl delivered (some email) (some (some tenant)) s =
    request_for e ttl delivered tenant (find_reset_candidate tenant email s.accounts) s
request_password_reset e ttl delivered (some email) (some none) s =
    request_rejected "tenant_unavailable" denied none s
request_password_reset e ttl delivered _ _ s = request_rejected "request_invalid" failure none s

abbrev pub with_state : AuthTokenState → AuthToken → AuthToken
with_state state t = record t { state = state }

abbrev pub with_id : Text → AuthToken → Bool
with_id id t = text_eq t.id id

-- `markPasswordResetTokenExpired`
abbrev pub mark_expired : Text → ResetDesk → ResetDesk
mark_expired id s = record s {
  auth_tokens = update_where (with_id id) (with_state expired_reset) s.auth_tokens;
}

abbrev pub used : ℕ → AuthToken → AuthToken
used now t = record t { state = used_reset; used_at = some now }

abbrev with_accounts :
    ℕ
    → (id : Text) → ResetDesk
    → Result AuthError (Accounts × Unit {0})
    → Result AuthError (ResetDesk × Unit {0})
with_accounts now id s (err x) = err x
with_accounts now id s (ok (db, done)) = ok (
  record { accounts = db; auth_tokens = update_where (with_id id) (used now) s.auth_tokens },
  done,
)

-- `completePasswordReset`: the token is USED, and the user's rows change as by the change of a
-- password.
unfoldable pub complete_password_reset :
    CompletePasswordChange → (token_id : Text) → ResetDesk → Result AuthError (ResetDesk × Unit {0})
unfolding complete_password_change
complete_password_reset i id s =
    with_accounts i.password_changed_at id s (complete_password_change i s.accounts)

abbrev pub reset_rejection :
    (action reason : String)
    → AuditOutcome
    → Option ResetRecord
    → PasswordResetResult
    → Op PasswordResetResult
reset_rejection action reason outcome none =
    answer_with (reset_audit action (some reason) outcome none none)
reset_rejection action reason outcome (some r) =
    answer_with
      (reset_audit action (some reason) outcome (some r.token.user_id) (some r.token.tenant_id))

-- The new password of the user, and how long it lasts.
abbrev pub change_of : Env → ResetRecord → (password : Text) → CompletePasswordChange
change_of e r password = record {
  password_changed_at = e.now;
  password_expires_at = expiry_of e.now r.password_expires_days;
  password_hash = e.hash_password password;
  tenant_id = r.token.tenant_id;
  user_id = r.token.user_id;
}

abbrev pub store_reset :
    Env → ResetRecord → (password : Text) → List PolicyError → Op PasswordResetResult
store_reset e r password (x ∷ errors) =
    reset_rejection "auth.password_reset.rejected" "password_policy_rejected" denied (some r)
      (reset_rejected (x ∷ errors))
store_reset e r password [] = do
  transaction (complete_password_reset (change_of e r password) r.token.id)
  answer_with
      (reset_audit "auth.password_reset.completed" none success (some r.token.user_id)
        (some r.token.tenant_id))
      accepted

-- What is done with the token that was found.
unfoldable pub confirm_as :
    Env
    → (lower : Text → Text) → Policy
    → (password : Text) → Option ResetRecord
    → Op PasswordResetResult
unfolding complete_password_reset validate
confirm_as e lower p password none s =
    reset_rejection "auth.password_reset.rejected" "token_unavailable" failure none accepted s
confirm_as e lower p password (some r) s =
    if not (is_active_reset r.token.state)
    then reset_rejection "auth.password_reset.replay_detected" "token_not_active" denied (some r)
        accepted s
    else if leb r.token.expires_at e.now
    then reset_rejection "auth.password_reset.rejected" "token_expired" failure (some r) accepted
        (mark_expired r.token.id s)
    else if not (is_active_user r.user.state)
    then reset_rejection "auth.password_reset.rejected" "identity_unavailable" denied (some r)
        accepted s
    else store_reset e r password
        (validate lower p password r.user.email_normalized
          (e.verify_password r.user.password_hash password))
        s

abbrev pub confirm_token :
    Env → (lower : Text → Text) → Policy → (password token : Text) → Op PasswordResetResult
confirm_token e lower p password [] s =
    reset_rejection "auth.password_reset.rejected" "token_missing" failure none accepted s
confirm_token e lower p password (c ∷ token) s =
    confirm_as e lower p password (find_reset_token_by_hash (e.hash_token (c ∷ token)) s) s

abbrev pub confirm_valid :
    Env
    → (lower : Text → Text) → Policy
    → (password token : Text) → List PolicyError
    → Op PasswordResetResult
confirm_valid e lower p password token (x ∷ errors) =
    reset_rejection "auth.password_reset.rejected" "password_policy_rejected" denied none
      (reset_rejected (x ∷ errors))
confirm_valid e lower p password token [] = confirm_token e lower p password token

-- `confirmPasswordReset`; a password or a token that is no text counts as empty.
unfoldable pub confirm_password_reset :
    Env
    → (lower : Text → Text) → Policy
    → (password : Text) → (token : Option Text) → Op PasswordResetResult
unfolding confirm_as find_reset_token_by_hash
confirm_password_reset e lower p password token =
    confirm_valid e lower p password (trimmed token) (validate lower p password [] false)
