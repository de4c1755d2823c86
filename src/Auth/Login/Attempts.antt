-- ===== src/Auth/Login/Attempts.antt =====
-- A failed attempt to log in (auth-session.service.ts, login).
use support_desk.Base.{
  ℕ, ◌+◌, ◌*◌, ◌≤◌, ◌<◌, ◌≡◌, ◌≢◌, refl, sym, ap, subst, ◌∙◌, inl, inr, Text, text_eq, text_eq_refl,
  true, false, Option, none, some, Option-cases, [], ◌∷◌, find, update_where, Result, ok, arith,
}
use support_desk.Base.Members.{find-In}
use support_desk.Base.Finds.{find-update_const}
use support_desk.Auth.{User, Tenant, Accounts, AuthError, Env}
use support_desk.Auth.Login.{
  LoginRequest, LoginCandidate, LoginResult, login_denied, is_candidate, candidate_of,
  find_login_candidate, failed_attempt, is_user, record_failed_login_attempt, is_locked,
  wrong_password, login_as, login_with, login,
}

-- The candidate of a tenant and an email, which its id finds too, as the primary key demands.
pub record IsFound (tenant email : Text) (c : LoginCandidate) (db : Accounts) : Type 0 where
  pub candidate : find_login_candidate tenant email db ≡ some c
  pub by_id : find (is_user c.user.id) db.users ≡ some c.user

pub record Attempt : Type 0 where
  pub env : Env
  pub request : LoginRequest

-- A request for that candidate, with a password that is there but is not its, in the window of so
-- many minutes from a time on.
pub record IsWrong (tenant email hash : Text) (start minutes : ℕ) (a : Attempt) : Type 0 where
  pub email_given : a.request.email_normalized ≡ some email
  pub tenant_given : a.request.tenant_id ≡ some tenant
  pub filled : a.request.password ≢ []
  pub wrong : a.env.verify_password hash a.request.password ≡ false
  pub begun : start ≤ a.env.now
  pub in_time : a.env.now < start + minutes * 60000

unfoldable pub failed_candidate : ℕ → LoginCandidate → LoginCandidate
failed_candidate now c = record c {
  user =
      (failed_attempt now c.failed_login_window_minutes c.lockout_duration_minutes
        c.lockout_threshold c.user).0;
}

with_password :
    (e : Env) (r : LoginRequest) (tenant email password : Text) (c : LoginCandidate) (db : Accounts)
    → password ≢ []
    → find_login_candidate tenant email db ≡ some c
    → login_with e r (some email) password (some tenant) db ≡ login_as e r c db
unfolding login_with
with_password e r tenant email [] c db f found = absurd (f refl)
with_password e r tenant email (x ∷ password) c db f found = rw found

pub login_with-login_as :
    (e : Env) (r : LoginRequest) (m t : Option Text) (tenant email password : Text)
    (c : LoginCandidate) (db : Accounts)
    → m ≡ some email
    → t ≡ some tenant
    → password ≢ []
    → find_login_candidate tenant email db ≡ some c
    → login_with e r m password t db ≡ login_as e r c db
login_with-login_as e r m t tenant email password c db a b filled found =
    rw (a, b) (with_password e r tenant email password c db filled found)

candidate_of-user :
    (tenant : Text) (u : User) (o : Option Tenant) → (candidate_of tenant u o).user ≡ u
candidate_of-user tenant u none = refl
candidate_of-user tenant u (some t) = refl

candidate_of-replaced :
    (tenant : Text) (u v : User) (o : Option Tenant)
    → candidate_of tenant v o ≡ record (candidate_of tenant u o) { user = v }
candidate_of-replaced tenant u v none = refl
candidate_of-replaced tenant u v (some t) = refl

candidate-parts :
    (tenant email : Text) (c : LoginCandidate) (db : Accounts)
    → find_login_candidate tenant email db ≡ some c
    → (find (is_candidate tenant email) db.users ≡ some c.user)
      × (candidate_of tenant c.user (find (λ (t : Tenant). text_eq t.id tenant) db.tenants) ≡ c)
      × (is_candidate tenant email c.user ≡ true)
unfolding find_login_candidate
candidate-parts tenant email c db h =
    elim (Option-cases (find (is_candidate tenant email) db.users)) [
      | inl e ↦ let x = rw (find_login_candidate, e) at h in cc
      | inr (u, e) ↦
          let x = rw (find_login_candidate, e) at h in
          let q : candidate_of tenant u (find (λ (t : Tenant). text_eq t.id tenant) db.tenants)
              ≡ c =
            ground arith in
          let same : u ≡ c.user =
            sym (candidate_of-user tenant u (find (λ (t : Tenant). text_eq t.id tenant) db.tenants))
            ∙ ap (λ (k : LoginCandidate). k.user) q in
          (
            e ∙ ap some same,
            subst
                (λ v.
                  candidate_of tenant v (find (λ (t : Tenant). text_eq t.id tenant) db.tenants) ≡ c)
                same q,
            subst (λ v. is_candidate tenant email v ≡ true) same
                (find-In (is_candidate tenant email) u db.users e).1,
          )
    ]

wrong_desk : (now : ℕ) → LoginCandidate → Accounts → Accounts
wrong_desk now c db = record db {
  users = update_where (is_user c.user.id) (λ x. (failed_candidate now c).user) db.users;
}

login_as-wrong :
    (e : Env) (r : LoginRequest) (c : LoginCandidate) (db : Accounts)
    → find (is_user c.user.id) db.users ≡ some c.user
    → is_locked e.now c.user ≡ false
    → e.verify_password c.user.password_hash r.password ≡ false
    → ((login_as e r c db).1 ≡ ok login_denied)
      × ((login_as e r c db).0.users ≡ (wrong_desk e.now c db).users)
      × ((login_as e r c db).0.tenants ≡ db.tenants)
      × ((login_as e r c db).0.sessions ≡ db.sessions)
      × ((login_as e r c db).0.tokens ≡ db.tokens)
unfolding login_as wrong_password record_failed_login_attempt wrong_desk failed_candidate
login_as-wrong e r c db found unlocked wrong =
    rw (unlocked, wrong, wrong_password, record_failed_login_attempt, found)
      ((refl, refl, refl, refl, refl))

-- The desk in which the candidate's row has a failed attempt more.
replaced-IsFound :
    (now : ℕ) (tenant email : Text) (c : LoginCandidate) (db db' : Accounts)
    → IsFound tenant email c db
    → db'.users ≡ (wrong_desk now c db).users
    → db'.tenants ≡ db.tenants
    → IsFound tenant email (failed_candidate now c) db'
unfolding failed_candidate failed_attempt wrong_desk find_login_candidate
replaced-IsFound now tenant email c db db' f users tenants =
    let (there, made, fits) = candidate-parts tenant email c db f.candidate in
    let v = (failed_candidate now c).user in
    let o = find (λ (t : Tenant). text_eq t.id tenant) db.tenants in
    let found =
      find-update_const (is_candidate tenant email) (is_user c.user.id) v db.users c.user there
        (text_eq_refl c.user.id) fits in
    let found_by_id =
      find-update_const (is_user c.user.id) (is_user c.user.id) v db.users c.user f.by_id
        (text_eq_refl c.user.id) (text_eq_refl c.user.id) in
    let whole : candidate_of tenant v o ≡ failed_candidate now c =
      candidate_of-replaced tenant c.user v o
      ∙ ap {A = LoginCandidate} (λ k. record k { user = v }) made in
    record {
      candidate = rw (find_login_candidate, users, found, tenants) (ap some whole);
      by_id = rw users found_by_id;
    }

-- A failed attempt while the account is open changes the row of the candidate, and no session or
-- token.
pub attempt-IsFound :
    (a : Attempt) (tenant email : Text) (start minutes : ℕ) (c : LoginCandidate) (db : Accounts)
    → IsFound tenant email c db
    → IsWrong tenant email c.user.password_hash start minutes a
    → is_locked a.env.now c.user ≡ false
    → let db' = (login a.env a.request db).0 in
      IsFound tenant email (failed_candidate a.env.now c) db'
      × (db'.sessions ≡ db.sessions)
      × (db'.tokens ≡ db.tokens)
unfolding login
attempt-IsFound a tenant email start minutes c db f w unlocked =
    let run =
      login_with-login_as a.env a.request a.request.email_normalized a.request.tenant_id tenant
        email a.request.password c db w.email_given w.tenant_given w.filled f.candidate in
    let (denied, users, tenants, sessions, tokens) =
      login_as-wrong a.env a.request c db f.by_id unlocked w.wrong in
    let same = sym (ap (λ (z : Accounts × Result AuthError LoginResult). z.0) run) in
    (
      subst (IsFound tenant email (failed_candidate a.env.now c)) same (
          replaced-IsFound a.env.now tenant email c db (login_as a.env a.request c db).0 f users
            tenants),
      subst (λ (z : Accounts). z.sessions ≡ db.sessions) same sessions,
      subst (λ (z : Accounts). z.tokens ≡ db.tokens) same tokens,
    )
