-- ===== src/Auth/Reset/Once.antt =====
-- A link for the reset of a password works once (auth-password-reset.service.ts,
-- confirmPasswordReset).
use support_desk.Base.{
  ℕ, ◌≡◌, ◌≢◌, refl, sym, ap, ◌∙◌, inl, inr, Text, text_eq, text_eq_refl, false, Bool-cases, Option,
  none, some, List, [], ◌∷◌, any, find, update_where, leb, arith,
}
use support_desk.Base.Finds.{find-update_where}
use support_desk.Auth.{Tenant, User, Accounts, AuthAudit, Env, is_active_user}
use support_desk.Auth.Login.{is_user}
use support_desk.Auth.Password.{PolicyError, Policy, validate, complete_password_change, trimmed}
use support_desk.Auth.Reset.{
  AuthToken, ResetDesk, ResetRecord, is_token, with_id, used, is_active_reset, joined, record_of,
  find_reset_token_by_hash, complete_password_reset, store_reset, confirm_as, confirm_valid,
  confirm_password_reset,
}

-- All but the audit is as it was.
pub record IsUntouched (s t : ResetDesk) : Type 0 where
  pub users : t.accounts.users ≡ s.accounts.users
  pub sessions : t.accounts.sessions ≡ s.accounts.sessions
  pub tokens : t.accounts.tokens ≡ s.accounts.tokens
  pub auth_tokens : t.auth_tokens ≡ s.auth_tokens

IsUntouched-refl :
    (s : ResetDesk) (a : List AuthAudit)
    → IsUntouched s (record s { accounts = record s.accounts { audits = a } })
IsUntouched-refl s a = record { users = refl; sessions = refl; tokens = refl; auth_tokens = refl }

record_of-token :
    (db : Accounts) (o : Option AuthToken) (r : ResetRecord)
    → record_of db o ≡ some r
    → o ≡ some r.token
record_of-token db none r h = cc
record_of-token db (some t) r h =
    of_rows t (find (λ (u : User). text_eq u.id t.user_id) db.users)
      (find (λ (n : Tenant). text_eq n.id t.tenant_id) db.tenants) r h
  where
    of_rows :
        (t : AuthToken) (u : Option User) (n : Option Tenant) (r : ResetRecord)
        → joined t u n ≡ some r
        → some t ≡ some r.token
    of_rows t none n r h = cc
    of_rows t (some u) none r h = cc
    of_rows t (some u) (some n) r h = ground arith

module _ (e : Env) (lower : Text → Text) (p : Policy) (password : Text) where
  -- Whatever is found, a token that is not ACTIVE changes nothing.
  confirm_as-IsUntouched :
      (o : Option ResetRecord) (s : ResetDesk)
      → ((r : ResetRecord) → o ≡ some r → is_active_reset r.token.state ≡ false)
      → IsUntouched s (confirm_as e lower p password o s).0
  unfolding confirm_as
  confirm_as-IsUntouched none s dead = IsUntouched-refl s _
  confirm_as-IsUntouched (some r) s dead = let over = dead r refl in rw over (IsUntouched-refl s _)

  confirm-IsUntouched :
      (token : Option Text) (s : ResetDesk)
      → ((r : ResetRecord)
          → find_reset_token_by_hash (e.hash_token (trimmed token)) s ≡ some r
          → is_active_reset r.token.state ≡ false)
      → IsUntouched s (confirm_password_reset e lower p password token s).0
  unfolding confirm_password_reset
  confirm-IsUntouched token s dead =
      of_errors (trimmed token) (validate lower p password [] false) s dead
    where
      of_errors :
          (token : Text) (errors : List PolicyError) (s : ResetDesk)
          → ((r : ResetRecord)
              → find_reset_token_by_hash (e.hash_token token) s ≡ some r
              → is_active_reset r.token.state ≡ false)
          → IsUntouched s (confirm_valid e lower p password token errors s).0
      of_errors token (x ∷ errors) s dead = IsUntouched-refl s _
      of_errors [] [] s dead = IsUntouched-refl s _
      of_errors (c ∷ token) [] s dead =
          confirm_as-IsUntouched (find_reset_token_by_hash (e.hash_token (c ∷ token)) s) s dead

  -- Where users change, a token was found that is USED afterwards.
  store_reset-spent :
      (r : ResetRecord) (errors : List PolicyError) (s : ResetDesk)
      → (store_reset e r password errors s).0.accounts.users ≢ s.accounts.users
      → (store_reset e r password errors s).0.auth_tokens
        ≡ update_where (with_id r.token.id) (used e.now) s.auth_tokens
  unfolding complete_password_reset complete_password_change
  store_reset-spent r (x ∷ errors) s h = absurd (h refl)
  store_reset-spent r [] s h = elim (Bool-cases (any (is_user r.token.user_id) s.accounts.users)) [
    | inl there ↦ rw there
    | inr gone ↦ absurd (rw gone at h refl)
  ]

  confirm_as-spent :
      (o : Option ResetRecord) (s : ResetDesk)
      → (confirm_as e lower p password o s).0.accounts.users ≢ s.accounts.users
      → (r : ResetRecord) × (o ≡ some r)
        × ((confirm_as e lower p password o s).0.auth_tokens
            ≡ update_where (with_id r.token.id) (used e.now) s.auth_tokens)
  unfolding confirm_as
  confirm_as-spent none s h = absurd (h refl)
  confirm_as-spent (some r) s h = elim (Bool-cases (is_active_reset r.token.state)) [
    | inr dead ↦ let k = rw dead at h in absurd (k refl)
    | inl active ↦ elim (Bool-cases (leb r.token.expires_at e.now)) [
      | inl late ↦ let k = rw (active, late) at h in absurd (k refl)
      | inr early ↦ elim (Bool-cases (is_active_user r.user.state)) [
        | inr shut ↦ let k = rw (active, early, shut) at h in absurd (k refl)
        | inl open_user ↦
            let k = rw (active, early, open_user) at h in
            (r, refl, rw (active, early, open_user) (store_reset-spent r _ s k))
      ]
    ]
  ]

  confirm-spent :
      (token : Option Text) (s : ResetDesk)
      → (confirm_password_reset e lower p password token s).0.accounts.users ≢ s.accounts.users
      → (r : ResetRecord) × (find_reset_token_by_hash (e.hash_token (trimmed token)) s ≡ some r)
        × ((confirm_password_reset e lower p password token s).0.auth_tokens
            ≡ update_where (with_id r.token.id) (used e.now) s.auth_tokens)
  unfolding confirm_password_reset
  confirm-spent token s h = of_errors (trimmed token) (validate lower p password [] false) s h
    where
      of_errors :
          (token : Text) (errors : List PolicyError) (s : ResetDesk)
          → (confirm_valid e lower p password token errors s).0.accounts.users ≢ s.accounts.users
          → (r : ResetRecord) × (find_reset_token_by_hash (e.hash_token token) s ≡ some r)
            × ((confirm_valid e lower p password token errors s).0.auth_tokens
                ≡ update_where (with_id r.token.id) (used e.now) s.auth_tokens)
      of_errors token (x ∷ errors) s h = absurd (h refl)
      of_errors [] [] s h = absurd (h refl)
      of_errors (c ∷ token) [] s h =
          confirm_as-spent (find_reset_token_by_hash (e.hash_token (c ∷ token)) s) s h

-- The token that a reset has used, as a later call finds it.
spent-found :
    (hash : Text) (now : ℕ) (s t : ResetDesk) (r q : ResetRecord)
    → find_reset_token_by_hash hash s ≡ some r
    → t.auth_tokens ≡ update_where (with_id r.token.id) (used now) s.auth_tokens
    → find_reset_token_by_hash hash t ≡ some q
    → is_active_reset q.token.state ≡ false
unfolding find_reset_token_by_hash
spent-found hash now s t r q before spent after =
    let found = record_of-token s.accounts (find (is_token hash) s.auth_tokens) r before in
    let later = record_of-token t.accounts (find (is_token hash) t.auth_tokens) q after in
    let changed =
      find-update_where (is_token hash) (with_id r.token.id) (used now) s.auth_tokens r.token
        (λ x. refl) found (text_eq_refl r.token.id) in
    let same : some (used now r.token) ≡ some q.token =
      sym changed ∙ (ap (find (is_token hash)) (sym spent) ∙ later) in
    of_some (used now r.token) q.token same refl
  where
    of_some :
        (a b : AuthToken)
        → some a ≡ some b
        → is_active_reset a.state ≡ false
        → is_active_reset b.state ≡ false
    of_some a b same dead = ground arith

-- A link works once: where the confirmation of a reset has changed a user, every later confirmation
-- with the same token, at whatever time, with whatever password and policy, leaves the users, their
-- sessions, the refresh tokens and the tokens of resets as they are, provided that the hash of the
-- token is the same.
pub reset_works_once :
    (e other : Env) (lower : Text → Text) (p q : Policy) (password again : Text)
    (token : Option Text) (s : ResetDesk)
    → (confirm_password_reset e lower p password token s).0.accounts.users ≢ s.accounts.users
    → other.hash_token (trimmed token) ≡ e.hash_token (trimmed token)
    → IsUntouched
        (confirm_password_reset e lower p password token s).0
        (confirm_password_reset other lower q again token
          (confirm_password_reset e lower p password token s).0).0
reset_works_once e other lower p q password again token s changed same_hash =
    let (r, found, spent) = confirm-spent e lower p password token s changed in
    let after = (confirm_password_reset e lower p password token s).0 in
    confirm-IsUntouched other lower q again token after (λ x there.
      spent-found (e.hash_token (trimmed token)) e.now s after r x found spent
        (ap (λ h. find_reset_token_by_hash h after) (sym same_hash) ∙ there))
