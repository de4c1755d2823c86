-- ===== src/Auth/Login.antt =====
-- Logging in and out, apps/api/src/auth/session/auth-session.service.ts and
-- auth-session.repository.ts. The request holds what normalizeEmail and the resolution of the tenant
-- give; the columns of the device are left out.
pub mod Attempts
pub mod Lockout
pub mod Logout
use Prim.Native.String.{String}
use support_desk.Base.{
  ℕ, ◌+◌, ◌*◌, Text, text_eq, trim, Bool, true, false, not, ◌&&◌, ◌||◌, Option, none, some, List,
  [], ◌∷◌, ◌++◌, leb, ltb, any, find, filter, update_where, is_some, or_else, if◌then◌else◌, Result,
  ok, err,
}
use support_desk.Base.Actions.{Action, ◌>>=◌, ◌>>◌, require, transaction, read_or, change}
use support_desk.Audit.{AuditOutcome, success, failure, denied}
use support_desk.Auth.{
  User, UserRole, UserState, is_active_user, Tenant, Session, active_session, revoked_session,
  is_active_session, Accounts, AuthError, user_missing, Op, Env, AuthAudit, add_minutes, audit,
}
use support_desk.Auth.Tokens.{TokenPair, issue_token_pair, is_past, closed}

pub record LoginRequest : Type 0 where
  pub email_normalized : Option Text
  pub password : Text
  pub tenant_id : Option Text
  pub remember_me : Bool

pub record LoginCandidate : Type 0 where
  pub tenant_id : Text
  pub user : User
  pub failed_login_window_minutes : ℕ
  pub lockout_duration_minutes : ℕ
  pub lockout_threshold : ℕ

pub data LoginResult : Type 0 where
  login_denied : LoginResult
  authenticated : Session → TokenPair → LoginResult
  password_change_required : Session → TokenPair → LoginResult

abbrev pub role_in : (tenant : Text) → UserRole → Bool
role_in tenant r =
    text_eq r.tenant_id tenant && not (is_some r.revoked_at) && not (is_some r.role_deleted_at)

abbrev pub is_candidate : (tenant email : Text) → User → Bool
is_candidate tenant email u =
    not (is_some u.deleted_at) && text_eq u.email_normalized email && any (role_in tenant) u.roles

-- The tenant of the user's role, which a foreign key keeps there, or the defaults.
abbrev pub candidate_of : (tenant : Text) → User → Option Tenant → LoginCandidate
candidate_of tenant u none = record {
  tenant_id = tenant;
  user = u;
  failed_login_window_minutes = 15;
  lockout_duration_minutes = 30;
  lockout_threshold = 5;
}
candidate_of tenant u (some t) = record {
  tenant_id = tenant;
  user = u;
  failed_login_window_minutes = t.failed_login_window_minutes;
  lockout_duration_minutes = t.lockout_duration_minutes;
  lockout_threshold = t.failed_login_lockout_threshold;
}

unfoldable pub find_login_candidate : (tenant email : Text) → Accounts → Option LoginCandidate
find_login_candidate tenant email db = elim (find (is_candidate tenant email) db.users) [
  | none ↦ none
  | some u ↦ some (candidate_of tenant u (find (λ (t : Tenant). text_eq t.id tenant) db.tenants))
]

-- The start of the window: now, if there is none or it is over.
abbrev pub is_new_window : (now window_minutes : ℕ) → Option ℕ → Bool
is_new_window now window none = true
is_new_window now window (some t) = leb (t + window * 60000) now

-- The columns that a failed attempt writes, and whether it locks the account.
unfoldable pub failed_attempt :
    (now window_minutes duration_minutes threshold : ℕ) → User → User × Bool
failed_attempt now window duration threshold u =
    let is_new = is_new_window now window u.failed_login_window_started_at in
    let count = if is_new then 1 else u.failed_login_count + 1 in
    let just_locked =
      leb threshold count && (not (is_some u.locked_until) || is_past now u.locked_until) in
    (
      record u {
        failed_login_count = count;
        failed_login_window_started_at =
            if is_new then some now else u.failed_login_window_started_at;
        locked_until = if just_locked then some (add_minutes now duration) else u.locked_until;
      },
      just_locked,
    )

abbrev pub is_user : (id : Text) → User → Bool
is_user id u = text_eq u.id id

unfoldable pub record_failed_login_attempt :
    ℕ → LoginCandidate → Accounts → Result AuthError (Accounts × Bool)
unfolding failed_attempt
record_failed_login_attempt now c db = elim (find (is_user c.user.id) db.users) [
  | none ↦ err user_missing
  | some u ↦
      let (row, just_locked) =
        failed_attempt now c.failed_login_window_minutes c.lockout_duration_minutes
          c.lockout_threshold u in
      ok (record db { users = update_where (is_user c.user.id) (λ x. row) db.users }, just_locked)
]

abbrev pub cleared : User → User
cleared u = record u {
  failed_login_count = 0;
  failed_login_window_started_at = none;
  locked_until = none;
}

unfoldable pub clear_failed_login_attempts : (id : Text) → Accounts → Accounts
clear_failed_login_attempts id db = record db { users = update_where (is_user id) cleared db.users }

abbrev pub login_audit :
    (action : String)
    → Option String
    → AuditOutcome
    → (user tenant target : Option Text) → AuthAudit
login_audit action reason outcome user tenant target = record {
  action = action;
  reason = reason;
  outcome = outcome;
  actor_user_id = user;
  tenant_id = tenant;
  target_id = target;
}

abbrev pub deny : AuthAudit → Op LoginResult
deny a = do audit a; read_or (λ db. ok login_denied)

-- `auditRejectedLogin` and `auditLockedLogin`
abbrev pub rejected : (reason : String) → (tenant user : Option Text) → AuthAudit
rejected reason tenant user = login_audit "auth.login.failed" (some reason) failure user tenant none

abbrev pub locked : (reason : String) → (tenant user : Text) → AuthAudit
locked reason tenant user =
    login_audit "auth.login.locked" (some reason) denied (some user) (some tenant) none

-- `lockedUntil !== null && lockedUntil > now`
abbrev pub is_locked : ℕ → User → Bool
is_locked now u = elim u.locked_until [ none ↦ false | some t ↦ ltb now t ]

unfoldable pub wrong_password : Env → LoginCandidate → Op LoginResult
unfolding record_failed_login_attempt
wrong_password e c = do
  just_locked ← transaction (record_failed_login_attempt e.now c)
  deny (
      if just_locked
      then locked "threshold_reached" c.tenant_id c.user.id
      else rejected "credentials_denied" (some c.tenant_id) (some c.user.id))

abbrev pub session_row : Env → LoginRequest → LoginCandidate → Session
session_row e r c = record {
  id = e.uuid 2;
  tenant_id = c.tenant_id;
  user_id = c.user.id;
  state = active_session;
  remember_me = r.remember_me;
  expires_at =
      add_minutes e.now
        (if r.remember_me then e.config.remember_me_session_ttl else e.config.session_ttl);
  revoked_at = none;
}

-- The result by `passwordChangeRequired`.
abbrev pub greeted : Bool → Session → TokenPair → LoginResult
greeted true s p = password_change_required s p
greeted false s p = authenticated s p

-- The branch of `login` for the right password of a usable account.
unfoldable pub open_session : Env → LoginRequest → LoginCandidate → Op LoginResult
unfolding clear_failed_login_attempts issue_token_pair
open_session e r c = do
  let change_required = is_past e.now c.user.password_expires_at
  change (clear_failed_login_attempts c.user.id)
  change (λ db. record db { sessions = db.sessions ++ session_row e r c ∷ [] })
  audit (
      login_audit
        (if change_required then "auth.login.password_change_required" else "auth.login.succeeded")
        none success (some c.user.id) (some c.tenant_id) (some (e.uuid 2)))
  pair ← issue_token_pair e change_required r.remember_me (e.uuid 2) c.tenant_id c.user.id
  read_or (λ db. ok (greeted change_required (session_row e r c) pair))

unfoldable pub login_as : Env → LoginRequest → LoginCandidate → Op LoginResult
login_as e r c =
    if is_locked e.now c.user
    then deny (locked "lockout_active" c.tenant_id c.user.id)
    else if not (e.verify_password c.user.password_hash r.password)
    then wrong_password e c
    else if not (is_some c.user.email_verified_at) || not (is_active_user c.user.state)
    then deny (rejected "credentials_denied" (some c.tenant_id) (some c.user.id))
    else open_session e r c

abbrev pub try_candidate :
    Env → LoginRequest → (tenant : Text) → Option LoginCandidate → Op LoginResult
try_candidate e r tenant none = deny (rejected "candidate_unavailable" (some tenant) none)
try_candidate e r tenant (some c) = login_as e r c

-- A request without an email, a password or a tenant is refused. A tenant with an empty id is looked up
-- here, while the source refuses it before the lookup, as it does a request without one.
unfoldable pub login_with :
    Env
    → LoginRequest
    → (email : Option Text) → (password : Text) → (tenant : Option Text) → Op LoginResult
unfolding find_login_candidate login_as
login_with e r (some email) (c ∷ password) (some tenant) db =
    try_candidate e r tenant (find_login_candidate tenant email db) db
login_with e r _ _ _ db = deny (rejected "request_invalid" none none) db

unfoldable pub login : Env → LoginRequest → Op LoginResult
login e r = login_with e r r.email_normalized r.password r.tenant_id

-- `findActiveSession`
unfoldable pub find_active_session : (id : Text) → Accounts → Option Session
find_active_session id db =
    find
      (λ (s : Session). text_eq s.id id && not (is_some s.revoked_at) && is_active_session s.state)
      db.sessions

unfoldable pub revoke_session : ℕ → (id : Text) → Accounts → Accounts
revoke_session now id db = record db {
  sessions =
      update_where (λ (s : Session). text_eq s.id id && is_active_session s.state) (closed now)
        db.sessions;
}

-- `resolveCurrentSession`
unfoldable pub resolve_current_session : ℕ → Option Text → Accounts → Option Session
unfolding find_active_session
resolve_current_session now none db = none
resolve_current_session now (some id) db = elim (trim id) [
  | [] ↦ none
  | c ∷ cs ↦ elim (find_active_session (c ∷ cs) db) [
    | none ↦ none
    | some s ↦ if ltb now s.expires_at then some s else none
  ]
]

abbrev pub logout_audit : Session → Session → AuthAudit
logout_audit current target =
    let own = text_eq target.id current.id in
    login_audit (if own then "auth.logout" else "auth.session.revoked")
      (some (if own then "logout" else "user_revoked")) success (some current.user_id)
      (some current.tenant_id) (some target.id)

-- The session that is to be closed: the current one, or another that is active.
abbrev pub logout_target : Session → Option Text → Accounts → Option Session
logout_target current none db = some current
logout_target current (some id) db =
    if text_eq id current.id then some current else find_active_session id db

-- Only a session of the same user and tenant is closed.
abbrev pub close_target : ℕ → Session → Option Session → Accounts → Accounts
close_target now current none db = db
close_target now current (some t) db =
    if text_eq t.tenant_id current.tenant_id && text_eq t.user_id current.user_id
    then (let shut = revoke_session now t.id db in
        record shut { audits = shut.audits ++ logout_audit current t ∷ [] })
    else db

-- `logout`, whose answer is always `accepted`.
unfoldable pub logout : ℕ → (current target : Option Text) → Accounts → Accounts
unfolding resolve_current_session revoke_session
logout now current target db = elim (resolve_current_session now current db) [
  | none ↦ db
  | some s ↦ close_target now s (logout_target s target db) db
]
