-- ===== src/Auth/Tests.antt =====
-- The theorems on accounts at concrete inputs.
use Prim.Native.Nat.{ℕ}
use support_desk.Base.{
  ◌≡◌, refl, ◌≤◌, ◌<◌, ◌+◌, ◌*◌, Text, codes, text_eq, trim, true, false, none, some, List, [], ◌∷◌,
  In, find, if◌then◌else◌, ok, arith,
}
use support_desk.Auth.{
  User, active_user, Tenant, Session, active_session, is_active_session, RefreshToken, active_token,
  Accounts, Env,
}
use support_desk.Auth.Tokens.{
  TokenPair, refresh_denied, refreshed, find_refresh_token_by_hash, stored_token,
  refresh_token_pair, refresh_with, rotate,
}
use support_desk.Auth.Tokens.Reuse.{IsClosed, refresh_replay_denied}
use support_desk.Auth.Login.{
  LoginRequest, LoginCandidate, login_denied, find_login_candidate, login,
}
use support_desk.Auth.Login.Attempts.{Attempt, IsFound, IsWrong}
use support_desk.Auth.Login.{resolve_current_session, logout}
use support_desk.Auth.Login.Logout.{logout_ends_session}
use support_desk.Auth.Login.Lockout.{run_attempts, lockout_reached}
use support_desk.Auth.Password.{
  Policy, ChangePasswordRequest, changed, PasswordChangeIdentity, find_password_change_identity,
  validate, change_password, change_with, trimmed,
}
use support_desk.Auth.Password.Laws.{change_password_signs_out}
use support_desk.Auth.RateLimit.{Bucket, RateLimitConfig, Runtime, has_key, hash_key, consume}
use support_desk.Auth.RateLimit.Bounds.{Call, key_of, allowed_calls, IsInWindow, consume_bounds}

abbrev pub env_at : ℕ → Env
env_at now = record {
  config = record {
    access_token_ttl = 15;
    refresh_token_ttl = 60;
    remember_me_refresh_token_ttl = 600;
    session_ttl = 60;
    remember_me_session_ttl = 600;
    secret_length = 40;
  };
  now = now;
  uuid = λ n. 1 ∷ n ∷ [];
  token = λ n. 9 ∷ n ∷ now ∷ [];
  hash_token = λ t. t;
  hash_password = λ p. p;
  verify_password = text_eq;
}

abbrev pub desk_tenant : Tenant
desk_tenant = record {
  id = codes "t";
  is_active = true;
  failed_login_lockout_threshold = 2;
  failed_login_window_minutes = 15;
  lockout_duration_minutes = 30;
  password_expires_days = some 90;
  deleted_at = none;
}

abbrev pub ann : User
ann = record {
  id = codes "ann";
  email_normalized = codes "ann@x";
  email_verified_at = some 1;
  state = active_user;
  password_hash = codes "old";
  password_changed_at = none;
  password_expires_at = none;
  failed_login_count = 0;
  failed_login_window_started_at = none;
  locked_until = none;
  roles = record { tenant_id = codes "t"; revoked_at = none; role_deleted_at = none } ∷ [];
  deleted_at = none;
}

abbrev ann_session : Session
ann_session = record {
  id = codes "s";
  tenant_id = codes "t";
  user_id = codes "ann";
  state = active_session;
  remember_me = false;
  expires_at = 9000000;
  revoked_at = none;
}

abbrev ann_token : RefreshToken
ann_token = record {
  id = codes "k";
  tenant_id = codes "t";
  user_id = codes "ann";
  session_id = codes "s";
  token_hash = codes "raw";
  family_id = codes "f";
  parent_token_id = none;
  state = active_token;
  expires_at = 9000000;
  revoked_at = none;
}

abbrev pub accounts : Accounts
accounts = record {
  tenants = desk_tenant ∷ [];
  users = ann ∷ [];
  sessions = ann_session ∷ [];
  tokens = ann_token ∷ [];
  audits = [];
}

run : Unit {0}
unfolding text_eq trim refresh_with rotate change_with find_refresh_token_by_hash stored_token
    refresh_token_pair find_login_candidate login run_attempts key_of find_password_change_identity
    validate change_password hash_key consume allowed_calls
run = tt

abbrev once : Accounts
once = (refresh_token_pair (env_at 1000) (some (codes "raw")) accounts).0

abbrev pair : TokenPair
pair = record {
  access_token = record {
    password_change_required = false;
    session_id = codes "s";
    tenant_id = codes "t";
    user_id = codes "ann";
    expires_at = 901000;
  };
  refresh_token = 9 ∷ 0 ∷ 1000 ∷ [];
  refresh_token_expires_at = 3601000;
}

refreshes :
    refresh_token_pair (env_at 1000) (some (codes "raw")) accounts ≡ (once, ok (refreshed pair))
unfolding run
refreshes = refl

refresh_replay_denied_example :
    (t n : RefreshToken) × (find_refresh_token_by_hash (trim (codes "raw")) accounts ≡ some t)
    × In n once.tokens
    × (n.token_hash ≡ 9 ∷ 0 ∷ 1000 ∷ [])
    × (n.family_id ≡ t.family_id)
    × ((refresh_token_pair (env_at 2000) (some (codes "raw")) once).1 ≡ ok refresh_denied)
    × IsClosed t.family_id (refresh_token_pair (env_at 2000) (some (codes "raw")) once).0
refresh_replay_denied_example =
    refresh_replay_denied (env_at 1000) (env_at 2000) (codes "raw") accounts once pair refl
      refreshes

abbrev login_as_ann : (password : Text) → LoginRequest
login_as_ann password = record {
  email_normalized = some (codes "ann@x");
  password = password;
  tenant_id = some (codes "t");
  remember_me = false;
}

abbrev guess : ℕ → Attempt
guess now = record { env = env_at now; request = login_as_ann (codes "guess") }

abbrev ann_candidate : LoginCandidate
ann_candidate = record {
  tenant_id = codes "t";
  user = ann;
  failed_login_window_minutes = 15;
  lockout_duration_minutes = 30;
  lockout_threshold = 2;
}

ann_candidate-IsFound : IsFound (codes "t") (codes "ann@x") ann_candidate accounts
unfolding run
ann_candidate-IsFound = record { candidate = refl; by_id = refl }

guess-IsWrong :
    (now : ℕ)
    → 5 ≤ now
    → now < 5 + 15 * 60000
    → IsWrong (codes "t") (codes "ann@x") (codes "old") 5 15 (guess now)
unfolding text_eq
guess-IsWrong now late soon = record {
  email_given = refl;
  tenant_given = refl;
  filled = λ q. cc;
  wrong = refl;
  begun = late;
  in_time = soon;
}

lockout_reached_example :
    let x =
      login
        (env_at 50000)
        (login_as_ann (codes "old"))
        (run_attempts (guess 10 ∷ guess 4000 ∷ []) accounts) in
    (x.1 ≡ ok login_denied) × (x.0.sessions ≡ ann_session ∷ []) × (x.0.tokens ≡ ann_token ∷ [])
lockout_reached_example =
    lockout_reached (codes "t") (codes "ann@x") 5 ann_candidate accounts (guess 10 ∷ [])
      (guess 4000) (env_at 50000) (login_as_ann (codes "old")) ann_candidate-IsFound refl refl
      (
        guess-IsWrong 10 (omega arith) (omega arith),
        (guess-IsWrong 4000 (omega arith) (omega arith), tt),
      )
      refl refl refl (omega arith)

logout_ends_session_example :
    resolve_current_session 3000 (some (codes " s")) (logout 2000 (some (codes " s")) none accounts)
    ≡ none
logout_ends_session_example = logout_ends_session 2000 3000 (codes " s") accounts (omega arith)

abbrev pub lenient : Policy
lenient = record {
  max_length = 128;
  min_length = 3;
  require_lowercase = true;
  require_number = false;
  require_symbol = false;
  require_uppercase = false;
}

abbrev change_request : ChangePasswordRequest
change_request = record {
  current_password = codes "old";
  current_session_id = some (codes " s");
  new_password = codes "brandnew";
}

abbrev signed_out : Accounts
signed_out = (change_password (env_at 3000) (λ t. t) lenient change_request accounts).0

changes :
    change_password (env_at 3000) (λ t. t) lenient change_request accounts
    ≡ (signed_out, ok changed)
unfolding run
changes = refl

change_password_signs_out_example :
    (i : PasswordChangeIdentity) × (find_password_change_identity 3000
        (trimmed change_request.current_session_id)
        accounts
      ≡ some i)
    × (text_eq i.password_hash (codes "old") ≡ true)
    × (validate
          (λ t. t)
          lenient
          (codes "brandnew")
          i.email_normalized
          (text_eq i.password_hash (codes "brandnew"))
        ≡ [])
    × ((s : Session)
        → In s signed_out.sessions
        → s.tenant_id ≡ i.tenant_id
        → s.user_id ≡ i.user_id
        → is_active_session s.state ≡ false)
    × ((e' : Env) (raw : Text) (t : RefreshToken) (s : Session)
        → stored_token (e'.hash_token (trim raw)) signed_out ≡ some (t, s)
        → t.tenant_id ≡ i.tenant_id
        → t.user_id ≡ i.user_id
        → (refresh_token_pair e' (some raw) signed_out).1 ≡ ok refresh_denied)
change_password_signs_out_example =
    change_password_signs_out (env_at 3000) (λ t. t) lenient change_request accounts signed_out
      changes

abbrev limits : RateLimitConfig
limits = record {
  default_limit = 10;
  scope_limit = λ scope. if text_eq scope (codes "login") then some 2 else none;
  window_seconds = 60;
}

abbrev runtime : Runtime
runtime = record { lower = λ t. t; sha256 = λ t. t }

abbrev login_call : ℕ → Call
login_call now = record {
  now = now;
  attempt = record { dimensions = codes "10.0.0.1" ∷ []; limit = none; scope = codes "login" };
}

abbrev login_key : Text
login_key = key_of runtime (login_call 0)

abbrev old_bucket : Bucket
old_bucket = record { key = login_key; count = 1; expires_at = 2000 }

abbrev calls : List Call
calls = login_call 1000 ∷ login_call 1500 ∷ login_call 2500 ∷ login_call 2600 ∷ login_call 2700 ∷ []

three_allowed : allowed_calls limits runtime login_key calls (old_bucket ∷ []) ≡ 3
unfolding run
three_allowed = refl

login_call-IsInWindow :
    (now : ℕ)
    → 1000 ≤ now
    → now < 1000 + 60 * 1000
    → IsInWindow limits runtime login_key 1000 2 (login_call now)
unfolding text_eq
login_call-IsInWindow now late soon = record {
  begun = late;
  in_time = soon;
  limited = λ same. refl;
}

consume_bounds_example :
    (allowed_calls limits runtime login_key calls (old_bucket ∷ []) ≤ 4)
    × (find (has_key login_key) (old_bucket ∷ []) ≡ none
        → allowed_calls limits runtime login_key calls (old_bucket ∷ []) ≤ 2)
consume_bounds_example = consume_bounds limits runtime login_key 1000 2 calls (old_bucket ∷ []) (
  login_call-IsInWindow 1000 (omega arith) (omega arith),
  (
    login_call-IsInWindow 1500 (omega arith) (omega arith),
    (
      login_call-IsInWindow 2500 (omega arith) (omega arith),
      (
        login_call-IsInWindow 2600 (omega arith) (omega arith),
        (login_call-IsInWindow 2700 (omega arith) (omega arith), tt),
      ),
    ),
  ),
)
