-- ===== src/Auth/Tokens.antt =====
-- Refresh tokens, apps/api/src/auth/tokens/auth-token.service.ts and auth-token.repository.ts. An
-- access token is the record of what it claims; signing it is left to the library jose.
pub mod Reuse
use Prim.Native.String.{String}
use support_desk.Base.{
  ℕ, Text, text_eq, trim, Bool, true, false, not, ◌&&◌, ◌||◌, Option, none, some, List, [], ◌∷◌,
  ◌++◌, leb, ltb, any, find, update_where, is_some, if◌then◌else◌, Result, ok, err,
}
use support_desk.Base.Actions.{Action, ◌>>=◌, ◌>>◌, require, transaction, read_or, change}
use support_desk.Audit.{success, failure, denied}
use support_desk.Auth.{
  User, Session, revoked_session, RefreshToken, RefreshTokenState, active_token, rotated_token,
  revoked_token, is_active_token, Accounts, AuthError, short_secret, duplicate_token, Op, Env,
  Config, AuthAudit, add_minutes, audit,
}

pub record AccessClaims : Type 0 where
  pub password_change_required : Bool
  pub session_id : Text
  pub tenant_id : Text
  pub user_id : Text
  pub expires_at : ℕ

pub record TokenPair : Type 0 where
  pub access_token : AccessClaims
  pub refresh_token : Text
  pub refresh_token_expires_at : ℕ

pub data RefreshTokenResult : Type 0 where
  refresh_denied : RefreshTokenResult
  refreshed : TokenPair → RefreshTokenResult

pub record NewRefreshToken : Type 0 where
  pub id : Text
  pub family_id : Text
  pub parent_token_id : Option Text
  pub session_id : Text
  pub tenant_id : Text
  pub user_id : Text
  pub token_hash : Text
  pub expires_at : ℕ

abbrev pub token_row : NewRefreshToken → RefreshToken
token_row n = record {
  id = n.id;
  tenant_id = n.tenant_id;
  user_id = n.user_id;
  session_id = n.session_id;
  token_hash = n.token_hash;
  family_id = n.family_id;
  parent_token_id = n.parent_token_id;
  state = active_token;
  expires_at = n.expires_at;
  revoked_at = none;
}

-- The hash of a token is unique (uq_refresh_tokens__token_hash).
unfoldable pub create_refresh_token :
    NewRefreshToken → Accounts → Result AuthError (Accounts × Unit {0})
create_refresh_token n db =
    if any (λ t. text_eq t.token_hash n.token_hash) db.tokens
    then err duplicate_token
    else ok (record db { tokens = db.tokens ++ token_row n ∷ [] }, tt)

unfoldable pub find_refresh_token_by_hash : Text → Accounts → Option RefreshToken
find_refresh_token_by_hash h db = find (λ t. text_eq t.token_hash h) db.tokens

abbrev pub rotated : RefreshToken → RefreshToken
rotated t = record t { state = rotated_token }

unfoldable pub mark_refresh_token_rotated : (id : Text) → Accounts → Accounts
mark_refresh_token_rotated id db = record db {
  tokens = update_where (λ t. text_eq t.id id) rotated db.tokens;
}

-- ACTIVE or ROTATED
abbrev pub is_live : RefreshTokenState → Bool
is_live active_token = true
is_live rotated_token = true
is_live _ = false

abbrev pub in_family : (family : Text) → RefreshToken → Bool
in_family family t = text_eq t.family_id family

abbrev pub revoked : ℕ → RefreshToken → RefreshToken
revoked now t = record t { state = revoked_token; revoked_at = some now }

abbrev pub closed : ℕ → Session → Session
closed now s = record s { state = revoked_session; revoked_at = some now }

-- `refreshTokens: { some: { familyId } }`
abbrev pub has_token_of : (family : Text) → List RefreshToken → Session → Bool
has_token_of family tokens s = any (λ t. text_eq t.session_id s.id && in_family family t) tokens

unfoldable pub revoke_refresh_token_family : ℕ → (family : Text) → Accounts → Accounts
revoke_refresh_token_family now family db =
    let tokens =
      update_where (λ t. in_family family t && is_live t.state) (revoked now) db.tokens in
    record db {
      tokens = tokens;
      sessions = update_where (has_token_of family tokens) (closed now) db.sessions;
    }

-- `this.config.rememberMeRefreshTokenTtlMinutes`, or the usual life.
abbrev pub refresh_expiry : Env → Bool → ℕ
refresh_expiry e remember =
    add_minutes e.now
      (if remember then e.config.remember_me_refresh_token_ttl else e.config.refresh_token_ttl)

-- `signAccessToken`, which refuses a short secret.
abbrev pub sign_access_token :
    Env → (change_required : Bool) → (session tenant user : Text) → Op AccessClaims
sign_access_token e change_required session tenant user = do
  require (leb 32 e.config.secret_length) short_secret
  read_or (λ db. ok (record {
    password_change_required = change_required;
    session_id = session;
    tenant_id = tenant;
    user_id = user;
    expires_at = add_minutes e.now e.config.access_token_ttl;
  }))

unfoldable pub issue_token_pair :
    Env → (change_required remember : Bool) → (session tenant user : Text) → Op TokenPair
unfolding create_refresh_token
issue_token_pair e change_required remember session tenant user = do
  transaction (
      create_refresh_token (record {
        id = e.uuid 0;
        family_id = e.uuid 1;
        parent_token_id = none;
        session_id = session;
        tenant_id = tenant;
        user_id = user;
        token_hash = e.hash_token (e.token 0);
        expires_at = refresh_expiry e remember;
      }))
  access ← sign_access_token e change_required session tenant user
  read_or (λ db. ok (record {
    access_token = access;
    refresh_token = e.token 0;
    refresh_token_expires_at = refresh_expiry e remember;
  }))

abbrev pub refresh_failure : (reason : String) → Option RefreshToken → AuthAudit
refresh_failure reason none = record {
  action = "auth.refresh.failed";
  reason = some reason;
  outcome = failure;
  actor_user_id = none;
  tenant_id = none;
  target_id = none;
}
refresh_failure reason (some t) = record {
  action = "auth.refresh.failed";
  reason = some reason;
  outcome = failure;
  actor_user_id = some t.user_id;
  tenant_id = some t.tenant_id;
  target_id = some t.session_id;
}

abbrev pub refuse : AuthAudit → Op RefreshTokenResult
refuse a = do audit a; read_or (λ db. ok refresh_denied)

abbrev pub reuse_audit : RefreshToken → AuthAudit
reuse_audit t = record {
  action = "auth.refresh_token.reuse_detected";
  reason = some "token_reused";
  outcome = denied;
  actor_user_id = some t.user_id;
  tenant_id = some t.tenant_id;
  target_id = some t.session_id;
}

abbrev pub refresh_success : RefreshToken → AuthAudit
refresh_success t = record {
  action = "auth.refresh.succeeded";
  reason = none;
  outcome = success;
  actor_user_id = some t.user_id;
  tenant_id = some t.tenant_id;
  target_id = some t.session_id;
}

-- `passwordExpiresAt !== null && passwordExpiresAt <= now`
abbrev pub is_past : ℕ → Option ℕ → Bool
is_past now none = false
is_past now (some t) = leb t now

-- The session of a token and the user of the session, which foreign keys keep there.
abbrev pub session_of : RefreshToken → Accounts → Option Session
session_of t db = find (λ s. text_eq s.id t.session_id) db.sessions

abbrev pub password_expiry_of : Session → Accounts → Option ℕ
password_expiry_of s db = elim (find (λ (u : User). text_eq u.id s.user_id) db.users) [
  | none ↦ none
  | some u ↦ u.password_expires_at
]

-- A token or its session whose time is over, or whose session is revoked.
abbrev pub is_over : ℕ → RefreshToken → Session → Bool
is_over now t s = leb t.expires_at now || is_some s.revoked_at || leb s.expires_at now

-- The successor of a token: the branch of `refreshTokenPair` that succeeds.
unfoldable pub rotate : Env → RefreshToken → Session → Op RefreshTokenResult
unfolding mark_refresh_token_rotated create_refresh_token
rotate e t s = do
  change (mark_refresh_token_rotated t.id)
  transaction (
      create_refresh_token (record {
        id = e.uuid 0;
        family_id = t.family_id;
        parent_token_id = some t.id;
        session_id = s.id;
        tenant_id = t.tenant_id;
        user_id = t.user_id;
        token_hash = e.hash_token (e.token 0);
        expires_at = refresh_expiry e s.remember_me;
      }))
  audit (refresh_success t)
  change_required ← read_or (λ db. ok (is_past e.now (password_expiry_of s db)))
  access ← sign_access_token e change_required s.id t.tenant_id t.user_id
  read_or (λ db. ok (
      refreshed (record {
        access_token = access;
        refresh_token = e.token 0;
        refresh_token_expires_at = refresh_expiry e s.remember_me;
      })))

unfoldable pub reuse_detected : Env → RefreshToken → Op RefreshTokenResult
unfolding revoke_refresh_token_family
reuse_detected e t = do
  change (revoke_refresh_token_family e.now t.family_id)
  refuse (reuse_audit t)

unfoldable pub use_token : Env → RefreshToken → Session → Op RefreshTokenResult
use_token e t s =
    if is_active_token t.state
    then if is_over e.now t s
      then refuse (refresh_failure "token_or_session_expired" (some t))
      else rotate e t s
    else reuse_detected e t

-- The token that is stored under a hash, with its session.
unfoldable pub stored_token : Text → Accounts → Option (RefreshToken × Session)
unfolding find_refresh_token_by_hash
stored_token h db = elim (find_refresh_token_by_hash h db) [
  | none ↦ none
  | some t ↦ elim (session_of t db) [ none ↦ none | some s ↦ some (t, s) ]
]

abbrev pub serve : Env → Option (RefreshToken × Session) → Op RefreshTokenResult
serve e none = refuse (refresh_failure "token_unavailable" none)
serve e (some (t, s)) = use_token e t s

unfoldable pub refresh_with : Env → (raw : Text) → Op RefreshTokenResult
unfolding stored_token use_token
refresh_with e [] db = refuse (refresh_failure "token_missing" none) db
refresh_with e (c ∷ raw) db = serve e (stored_token (e.hash_token (c ∷ raw)) db) db

-- `refreshTokenPair`
unfoldable pub refresh_token_pair : Env → (refresh_token : Option Text) → Op RefreshTokenResult
refresh_token_pair e none = refresh_with e []
refresh_token_pair e (some token) = refresh_with e (trim token)
