-- ===== src/Auth/Login/Lockout.antt =====
-- The lockout after failed logins (auth-session.service.ts, login).
use support_desk.Base.{
  ℕ, suc, ◌+◌, ◌*◌, ◌≤◌, ◌<◌, ◌≡◌, refl, sym, subst, ◌∙◌, ◌⊎◌, inl, inr, Text, true, false, Option,
  none, some, List, [], ◌∷◌, ◌++◌, leb, lt→ltb, length, length-append, All, All-append, Result, ok,
  arith,
}
use support_desk.Auth.{User, Accounts, AuthError, Env, add_minutes}
use support_desk.Auth.Login.{
  LoginRequest, LoginCandidate, LoginResult, login_denied, find_login_candidate, failed_attempt,
  is_locked, login_as, login_with, login,
}
use support_desk.Auth.Login.Attempts.{
  Attempt, IsFound, IsWrong, failed_candidate, login_with-login_as, attempt-IsFound,
}

-- The row counts k failures since a window that began at the time or later, and is not locked.
record IsOpen (start k : ℕ) (u : User) : Type 0 where
  pub unlocked : u.locked_until ≡ none
  pub counted :
      ((k ≡ 0) × (u.failed_login_window_started_at ≡ none))
      ⊎ ((began : ℕ) × (u.failed_login_window_started_at ≡ some began)
          × (start ≤ began)
          × (u.failed_login_count ≡ k))

failed_attempt-IsOpen :
    (now window duration threshold start k : ℕ) (u : User)
    → IsOpen start k u
    → start ≤ now
    → now < start + window * 60000
    → suc k < threshold
    → IsOpen start (suc k) (failed_attempt now window duration threshold u).0
unfolding failed_attempt
failed_attempt-IsOpen now window duration threshold start k u o late soon below = elim o.counted [
  | inl (zero_count, fresh) ↦ record {
    unlocked = rw (fresh, o.unlocked) (ground arith);
    counted = inr (now, rw fresh, late, rw fresh (ground arith));
  }
  | inr (began, there, later, count) ↦
      let running : leb (began + window * 60000) now ≡ false = ground arith in
      record {
        unlocked = rw (there, o.unlocked, running) (ground arith);
        counted = inr (began, rw (there, running), later, rw (there, running) (ground arith));
      }
]

failed_attempt-locks :
    (now window duration threshold start k : ℕ) (u : User)
    → IsOpen start k u
    → start ≤ now
    → now < start + window * 60000
    → suc k ≡ threshold
    → (failed_attempt now window duration threshold u).0.locked_until
      ≡ some (add_minutes now duration)
unfolding failed_attempt
failed_attempt-locks now window duration threshold start k u o late soon reached = elim o.counted [
  | inl (zero_count, fresh) ↦ rw (fresh, o.unlocked) (ground arith)
  | inr (began, there, later, count) ↦
      let running : leb (began + window * 60000) now ≡ false = ground arith in
      rw (there, o.unlocked, running) (ground arith)
]

failed_candidate-hash :
    (now : ℕ) (c : LoginCandidate)
    → (failed_candidate now c).user.password_hash ≡ c.user.password_hash
unfolding failed_candidate failed_attempt
failed_candidate-hash now c = refl

unfoldable pub run_attempts : List Attempt → Accounts → Accounts
run_attempts [] db = db
run_attempts (a ∷ rest) db = run_attempts rest (login a.env a.request db).0

-- The attempts before the last one leave the account open, with so many failures counted.
run_attempts-lock :
    (earlier : List Attempt) (last : Attempt) (tenant email hash : Text)
    (start minutes duration threshold k : ℕ) (c : LoginCandidate) (db : Accounts)
    → IsFound tenant email c db
    → c.user.password_hash ≡ hash
    → c.failed_login_window_minutes ≡ minutes
    → c.lockout_duration_minutes ≡ duration
    → c.lockout_threshold ≡ threshold
    → IsOpen start k c.user
    → All (IsWrong tenant email hash start minutes) earlier
    → IsWrong tenant email hash start minutes last
    → k + suc (length earlier) ≡ threshold
    → let db' = run_attempts (earlier ++ last ∷ []) db in
      (c' : LoginCandidate) × IsFound tenant email c' db'
      × (c'.user.locked_until ≡ some (add_minutes last.env.now duration))
      × (db'.sessions ≡ db.sessions)
      × (db'.tokens ≡ db.tokens)
unfolding run_attempts failed_candidate
run_attempts-lock [] last tenant email hash start minutes duration threshold k c db f eh em ed et o
      all w n =
    let unlocked : is_locked last.env.now c.user ≡ false = rw o.unlocked refl in
    let (found, sessions, tokens) =
      attempt-IsFound last tenant email start minutes c db f
        (subst (λ z. IsWrong tenant email z start minutes last) (sym eh) w) unlocked in
    (
      failed_candidate last.env.now c,
      found,
      (subst
          (λ z.
            (failed_candidate last.env.now c).user.locked_until ≡ some (add_minutes last.env.now z))
          ed
          (failed_attempt-locks last.env.now c.failed_login_window_minutes
            c.lockout_duration_minutes c.lockout_threshold start k c.user o w.begun
            (subst (λ z. last.env.now < start + z * 60000) (sym em) w.in_time)
            (omega (arith, n, et)))),
      sessions,
      tokens,
    )
run_attempts-lock (a ∷ rest) last tenant email hash start minutes duration threshold k c db f eh em
      ed et o all w n =
    let unlocked : is_locked a.env.now c.user ≡ false = rw o.unlocked refl in
    let (found, sessions, tokens) =
      attempt-IsFound a tenant email start minutes c db f
        (subst (λ z. IsWrong tenant email z start minutes a) (sym eh) all.0) unlocked in
    let (c', there, locked, kept, unused) =
      run_attempts-lock rest last tenant email hash start minutes duration threshold (suc k)
        (failed_candidate a.env.now c) (login a.env a.request db).0 found
        (failed_candidate-hash a.env.now c ∙ eh) em ed et
        (failed_attempt-IsOpen a.env.now c.failed_login_window_minutes c.lockout_duration_minutes
          c.lockout_threshold start k c.user o all.0.begun
          (subst (λ z. a.env.now < start + z * 60000) (sym em) all.0.in_time)
          (omega (arith, n, et)))
        all.1 w (omega (arith, n)) in
    (c', there, locked, kept ∙ sessions, unused ∙ tokens)

-- A run that denies the login and leaves the sessions and tokens of the desk.
abbrev IsDenied : Accounts → Accounts × Result AuthError LoginResult → Type 0
IsDenied db x = (x.1 ≡ ok login_denied) × (x.0.sessions ≡ db.sessions) × (x.0.tokens ≡ db.tokens)

login_as-locked :
    (e : Env) (r : LoginRequest) (c : LoginCandidate) (db : Accounts)
    → is_locked e.now c.user ≡ true
    → IsDenied db (login_as e r c db)
unfolding login_as
login_as-locked e r c db locked = rw locked (refl, refl, refl)

login_with-locked :
    (e : Env) (r : LoginRequest) (m t : Option Text) (password tenant email : Text)
    (c : LoginCandidate) (db : Accounts)
    → m ≡ some email
    → t ≡ some tenant
    → find_login_candidate tenant email db ≡ some c
    → is_locked e.now c.user ≡ true
    → IsDenied db (login_with e r m password t db)
unfolding login_with
login_with-locked e r m t [] tenant email c db em et found locked = rw em (refl, refl, refl)
login_with-locked e r m t (x ∷ password) tenant email c db em et found locked =
    subst (IsDenied db)
      (sym (login_with-login_as e r m t tenant email (x ∷ password) c db em et (λ q. cc) found))
      (login_as-locked e r c db locked)

is_locked-until :
    (now until : ℕ) (u : User) → u.locked_until ≡ some until → now < until → is_locked now u ≡ true
is_locked-until now until u h soon = rw h (lt→ltb now until soon)

-- The lockout is reached and holds. Take a user whom the tenant and the email find, also by its id,
-- without failures or a lock, and as many attempts to log in as the threshold of the tenant, each
-- with a wrong password and all of them within the window of failed logins. Then every login for that
-- tenant and email before the end of the lockout, which counts from the last attempt, is denied
-- whatever its password, and neither the attempts nor that login make a session or a token.
pub lockout_reached :
    (tenant email : Text) (start : ℕ) (c : LoginCandidate) (db : Accounts) (earlier : List Attempt)
    (last : Attempt) (e : Env) (r : LoginRequest)
    → IsFound tenant email c db
    → c.user.locked_until ≡ none
    → c.user.failed_login_window_started_at ≡ none
    → All
        (IsWrong tenant email c.user.password_hash start c.failed_login_window_minutes)
        (earlier ++ last ∷ [])
    → length (earlier ++ last ∷ []) ≡ c.lockout_threshold
    → r.email_normalized ≡ some email
    → r.tenant_id ≡ some tenant
    → e.now < add_minutes last.env.now c.lockout_duration_minutes
    → let x = login e r (run_attempts (earlier ++ last ∷ []) db) in
      (x.1 ≡ ok login_denied) × (x.0.sessions ≡ db.sessions) × (x.0.tokens ≡ db.tokens)
unfolding login
lockout_reached tenant email start c db earlier last e r f unlocked fresh wrong count em et soon =
    let (before, at_last) =
      All-append (IsWrong tenant email c.user.password_hash start c.failed_login_window_minutes)
        earlier (last ∷ []) wrong in
    let (c', found, locked, sessions, tokens) =
      run_attempts-lock earlier last tenant email c.user.password_hash start
        c.failed_login_window_minutes c.lockout_duration_minutes c.lockout_threshold 0 c db f refl
        refl refl refl (record { unlocked = unlocked; counted = inl (refl, fresh) }) before
        at_last.0 (omega (arith, count, length-append earlier (last ∷ []))) in
    let (denied, kept, unused) =
      login_with-locked e r r.email_normalized r.tenant_id r.password tenant email c'
        (run_attempts (earlier ++ last ∷ []) db) em et found.candidate
        (is_locked-until e.now (add_minutes last.env.now c.lockout_duration_minutes) c'.user locked
          soon) in
    (denied, kept ∙ sessions, unused ∙ tokens)
