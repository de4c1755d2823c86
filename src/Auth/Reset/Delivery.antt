-- ===== src/Auth/Reset/Delivery.antt =====
-- The link that a request sends is the one that resets the password (auth-password-reset.service.ts,
-- requestPasswordReset and confirmPasswordReset).
use support_desk.Base.{
  ℕ, ◌+◌, ◌*◌, ◌<◌, ◌≡◌, refl, ap, ap₂, ◌∙◌, Text, text_eq, text_eq_refl, Bool, true, false, none,
  some, List, [], ◌∷◌, ◌++◌, any, find, leb, ok, arith,
}
use support_desk.Base.Finds.{find-append, find-update_where}
use support_desk.Base.Members.{find-In, In-any}
use support_desk.Auth.{Tenant, User, Env, is_active_user, add_minutes}
use support_desk.Auth.Login.{is_user}
use support_desk.Auth.Password.{
  Policy, with_new_password, validate, complete_password_change, trimmed,
}
use support_desk.Auth.Reset.{
  AuthToken, ResetDesk, accepted, is_token, find_reset_token_by_hash, find_reset_candidate,
  complete_password_reset, request_password_reset, request_for, confirm_as, confirm_password_reset,
  new_token, ResetRecord, store_reset, change_of, confirm_valid,
}

abbrev not_empty : Text → Bool
not_empty [] = false
not_empty (c ∷ s) = true

-- No token has the hash.
no_token :
    (hash : Text) (ts : List AuthToken)
    → any (λ t. text_eq t.token_hash hash) ts ≡ false
    → find (is_token hash) ts ≡ none
no_token hash [] h = refl
no_token hash (t ∷ ts) h = ground (arith, no_token hash ts)

module _ (e later : Env) (lower : Text → Text) (p : Policy) (ttl : ℕ) (email tenant password : Text)
    (u : User) (n : Tenant) (s : ResetDesk) where
  abbrev created : ResetDesk
  created = (request_password_reset e ttl true (some email) (some (some tenant)) s).0

  request_for-created :
      find_reset_candidate tenant email s.accounts ≡ some u
      → created ≡ (request_for e ttl true tenant (some u) s).0
  unfolding request_password_reset
  request_for-created candidate = ap (λ o. (request_for e ttl true tenant o s).0) candidate

  request_for-tokens :
      any (λ t. text_eq t.token_hash (e.hash_token (e.token 0))) s.auth_tokens ≡ false
      → ((request_for e ttl true tenant (some u) s).0.auth_tokens
          ≡ s.auth_tokens ++ new_token e ttl tenant u ∷ [])
        × ((request_for e ttl true tenant (some u) s).0.accounts.users ≡ s.accounts.users)
        × ((request_for e ttl true tenant (some u) s).0.accounts.tenants ≡ s.accounts.tenants)
  request_for-tokens fresh = (rw fresh, rw fresh, rw fresh)

  candidate_active :
      find_reset_candidate tenant email s.accounts ≡ some u → is_active_user u.state ≡ true
  unfolding find_reset_candidate
  candidate_active candidate =
      let (i, holds) = find-In _ u s.accounts.users candidate in ground arith

  -- The record that the link finds.
  abbrev pub found : ResetRecord
  found = record {
    token = new_token e ttl tenant u;
    user = u;
    password_expires_days = n.password_expires_days;
  }

  found_later :
      (t : ResetDesk)
      → t.auth_tokens ≡ s.auth_tokens ++ new_token e ttl tenant u ∷ []
      → t.accounts.users ≡ s.accounts.users
      → t.accounts.tenants ≡ s.accounts.tenants
      → any (λ x. text_eq x.token_hash (e.hash_token (e.token 0))) s.auth_tokens ≡ false
      → find (λ (x : User). text_eq x.id u.id) s.accounts.users ≡ some u
      → find (λ (x : Tenant). text_eq x.id tenant) s.accounts.tenants ≡ some n
      → find_reset_token_by_hash (e.hash_token (e.token 0)) t ≡ some found
  unfolding find_reset_token_by_hash
  found_later t tokens users tenants fresh has_user has_tenant =
      let there =
        find-append (is_token (e.hash_token (e.token 0))) s.auth_tokens (new_token e ttl tenant u)
          (no_token (e.hash_token (e.token 0)) s.auth_tokens fresh)
          (text_eq_refl (e.hash_token (e.token 0))) in
      rw (tokens, users, tenants, there, has_user, has_tenant)

  store_found :
      (t : ResetDesk)
      → find (is_user u.id) t.accounts.users ≡ some u
      → ((store_reset later found password [] t).1 ≡ ok accepted)
        × (find (is_user u.id) (store_reset later found password [] t).0.accounts.users
            ≡ some (with_new_password (change_of later found password) u))
  unfolding complete_password_reset complete_password_change
  store_found t has_user =
      let (i, own) = find-In (is_user u.id) u t.accounts.users has_user in
      let there : any (is_user u.id) t.accounts.users ≡ true =
        In-any (is_user u.id) u t.accounts.users i own in
      rw there (
        refl,
        find-update_where (is_user u.id) (is_user u.id)
            (with_new_password (change_of later found password)) t.accounts.users u (λ x. refl)
            has_user own,
      )

  -- The confirmation with that record.
  confirm_found :
      (t : ResetDesk)
      → t.accounts.users ≡ s.accounts.users
      → find (λ (x : User). text_eq x.id u.id) s.accounts.users ≡ some u
      → is_active_user u.state ≡ true
      → later.now < e.now + ttl * 60000
      → validate lower p password u.email_normalized
          (later.verify_password u.password_hash password)
        ≡ []
      → ((confirm_as later lower p password (some found) t).1 ≡ ok accepted)
        × (find (is_user u.id) (confirm_as later lower p password (some found) t).0.accounts.users
            ≡ some (with_new_password (change_of later found password) u))
  unfolding confirm_as
  confirm_found t users has_user active soon valid =
      let early : leb (add_minutes e.now ttl) later.now ≡ false = (ground arith) in
      let user : find (is_user u.id) t.accounts.users ≡ some u = rw users has_user in
      rw (early, active, valid) (store_found t user)

  confirm_sent :
      (t : ResetDesk) (token : Text)
      → trimmed (some (e.token 0)) ≡ token
      → not_empty token ≡ true
      → validate lower p password [] false ≡ []
      → find_reset_token_by_hash (later.hash_token token) t ≡ some found
      → confirm_password_reset later lower p password (some (e.token 0)) t
        ≡ confirm_as later lower p password (some found) t
  unfolding confirm_password_reset
  confirm_sent t [] home full valid there = cc
  confirm_sent t (c ∷ token) home full valid there =
      ap₂ (λ (k : Text) errors. confirm_valid later lower p password k errors t) home valid
      ∙ ap (λ o. confirm_as later lower p password o t) there

  -- The link that a request sends works: if the address is that of a candidate of the tenant, the
  -- token is new to the table and has no blanks around it, and the notice is delivered, then a
  -- confirmation with that token before it expires, with a password that meets the policy, is
  -- accepted, and the user's row has the new password, without failed attempts and without a lock.
  pub request-confirm :
      find_reset_candidate tenant email s.accounts ≡ some u
      → find (λ (x : User). text_eq x.id u.id) s.accounts.users ≡ some u
      → find (λ (x : Tenant). text_eq x.id tenant) s.accounts.tenants ≡ some n
      → any (λ t. text_eq t.token_hash (e.hash_token (e.token 0))) s.auth_tokens ≡ false
      → trimmed (some (e.token 0)) ≡ e.token 0
      → not_empty (e.token 0) ≡ true
      → later.hash_token (e.token 0) ≡ e.hash_token (e.token 0)
      → later.now < e.now + ttl * 60000
      → validate lower p password [] false ≡ []
      → validate lower p password u.email_normalized
          (later.verify_password u.password_hash password)
        ≡ []
      → ((confirm_password_reset later lower p password (some (e.token 0)) created).1 ≡ ok accepted)
        × (find
              (is_user u.id)
              (confirm_password_reset later lower p password
                (some (e.token 0))
                created).0.accounts.users
            ≡ some (with_new_password (change_of later found password) u))
  request-confirm candidate has_user has_tenant fresh home full same_hash soon valid valid_user =
      let t = (request_for e ttl true tenant (some u) s).0 in
      let (tokens, users, tenants) = request_for-tokens fresh in
      let there : find_reset_token_by_hash (later.hash_token (e.token 0)) t ≡ some found =
        ap (λ h. find_reset_token_by_hash h t) same_hash
        ∙ found_later t tokens users tenants fresh has_user has_tenant in
      let asked = confirm_sent t (e.token 0) home full valid there in
      let done = confirm_found t users has_user (candidate_active candidate) soon valid_user in
      rw (request_for-created candidate, asked) done
