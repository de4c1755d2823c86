-- ===== src/Auth/Password/Laws.antt =====
-- What a changed password ends (auth-password.service.ts, changePassword).
use support_desk.Base.{
  ◌≡◌, refl, sym, ap, subst, ◌∙◌, inl, inr, Text, text_eq, text_eq_refl, trim, Bool, true, false,
  Bool-cases, ◌&&◌, some, Option-cases, List, [], ◌∷◌, any, update_where, In, Result, ok, if-true,
  if-false, arith,
}
use support_desk.Base.Members.{find-In, In-update_where}
use support_desk.Auth.{
  Session, is_active_session, RefreshToken, RefreshTokenState, active_token, rotated_token,
  revoked_token, expired_token, reused_token, is_active_token, Accounts, AuthError, Env,
}
use support_desk.Auth.Tokens.{
  is_live, revoked, closed, refresh_denied, find_refresh_token_by_hash, stored_token,
  refresh_token_pair,
}
use support_desk.Auth.Tokens.Reuse.{refresh_with-denied, stored_token-parts}
use support_desk.Auth.Login.{is_user}
use support_desk.Auth.Password.{
  PolicyError, Policy, ChangePasswordRequest, ChangePasswordResult, changed, PasswordChangeIdentity,
  find_password_change_identity, complete_password_change, store_password, store_valid, change_as,
  change_with, validate, change_password, trimmed,
}

-- Nothing of the user in the tenant is of use any more: its sessions and its refresh tokens.
pub record IsSignedOut (tenant user : Text) (db : Accounts) : Type 0 where
  pub sessions_closed :
      (s : Session)
      → In s db.sessions
      → s.tenant_id ≡ tenant
      → s.user_id ≡ user
      → is_active_session s.state ≡ false
  pub tokens_dead :
      (t : RefreshToken)
      → In t db.tokens
      → t.tenant_id ≡ tenant
      → t.user_id ≡ user
      → is_live t.state ≡ false

-- A row that a change takes if the row is live, at home in the tenant, and the user's.
module _ {A : Type 0} (live : A → Bool) (tenant_of user_of : A → Text) (f : A → A)
    (tenant user : Text) where
  taken : A → Bool
  taken x = live x && text_eq (tenant_of x) tenant && text_eq (user_of x) user

  update_where-dead :
      ((x : A) → live (f x) ≡ false)
      → (a : A) (xs : List A) → In a (update_where taken f xs)
      → tenant_of a ≡ tenant
      → user_of a ≡ user
      → live a ≡ false
  unfolding taken
  update_where-dead dead a xs m et eu =
      let (x, i, e) = In-update_where taken f a xs m in
      elim (Bool-cases (taken x)) [
        | inl yes_taken ↦ ap live (if-true (taken x) (f x) x e yes_taken) ∙ dead x
        | inr left ↦
            let same = if-false (taken x) (f x) x e left in
            let t : text_eq (tenant_of x) tenant ≡ true =
              subst (λ k. text_eq (tenant_of x) k ≡ true) (sym (ap tenant_of same) ∙ et)
                (text_eq_refl (tenant_of x)) in
            let u : text_eq (user_of x) user ≡ true =
              subst (λ k. text_eq (user_of x) k ≡ true) (sym (ap user_of same) ∙ eu)
                (text_eq_refl (user_of x)) in
            let dull : live x ≡ false = ground arith in ap live same ∙ dull
      ]

store_password-IsSignedOut :
    (e : Env) (i : PasswordChangeIdentity) (password : Text) (db db' : Accounts)
    → store_password e i password db ≡ (db', ok changed)
    → IsSignedOut i.tenant_id i.user_id db'
unfolding store_password complete_password_change taken
store_password-IsSignedOut e i password db db' h =
    elim (Bool-cases (any (is_user i.user_id) db.users)) [
      | inr gone ↦ let x = rw gone at h in cc
      | inl there ↦
          let x = rw there at h in
          let sessions =
            sym (ap (λ (z : Accounts × Result AuthError ChangePasswordResult). z.0.sessions) x) in
          let tokens =
            sym (ap (λ (z : Accounts × Result AuthError ChangePasswordResult). z.0.tokens) x) in
          record {
            sessions_closed = λ s m et eu.
                update_where-dead (λ (k : Session). is_active_session k.state) (λ k. k.tenant_id)
                  (λ k. k.user_id) (closed e.now) i.tenant_id i.user_id (λ k. refl) s db.sessions
                  (subst (In s) sessions m) et eu;
            tokens_dead = λ t m et eu.
                update_where-dead (λ (k : RefreshToken). is_live k.state) (λ k. k.tenant_id)
                  (λ k. k.user_id) (revoked e.now) i.tenant_id i.user_id (λ k. refl) t db.tokens
                  (subst (In t) tokens m) et eu;
          }
    ]

-- What stands behind a change that went through.
record IsChange (e : Env) (lower : Text → Text) (p : Policy) (r : ChangePasswordRequest)
    (db db' : Accounts) : Type 0 where
  pub identity : PasswordChangeIdentity
  pub found : find_password_change_identity e.now (trimmed r.current_session_id) db ≡ some identity
  pub verified : e.verify_password identity.password_hash r.current_password ≡ true
  pub valid :
      validate lower p r.new_password identity.email_normalized
        (e.verify_password identity.password_hash r.new_password)
      ≡ []
  pub stored : store_password e identity r.new_password db ≡ (db', ok changed)

store_valid-store_password :
    (e : Env) (i : PasswordChangeIdentity) (password : Text) (errors : List PolicyError)
    (db db' : Accounts)
    → store_valid e i password errors db ≡ (db', ok changed)
    → (errors ≡ []) × (store_password e i password db ≡ (db', ok changed))
store_valid-store_password e i password [] db db' h = (refl, h)
store_valid-store_password e i password (x ∷ errors) db db' h = cc

change_as-parts :
    (e : Env) (lower : Text → Text) (p : Policy) (r : ChangePasswordRequest)
    (i : PasswordChangeIdentity) (db db' : Accounts)
    → change_as e lower p r (some i) db ≡ (db', ok changed)
    → (e.verify_password i.password_hash r.current_password ≡ true)
      × (validate lower p r.new_password i.email_normalized
            (e.verify_password i.password_hash r.new_password)
          ≡ [])
      × (store_password e i r.new_password db ≡ (db', ok changed))
change_as-parts e lower p r i db db' h =
    elim (Bool-cases (e.verify_password i.password_hash r.current_password)) [
      | inr wrong ↦ let x = rw wrong at h in cc
      | inl right ↦
          let (valid, stored) =
            store_valid-store_password e i r.new_password
              (validate lower p r.new_password i.email_normalized
                (e.verify_password i.password_hash r.new_password))
              db db' (rw right at h) in
          (right, valid, stored)
    ]

change_with-IsChange :
    (e : Env) (lower : Text → Text) (p : Policy) (r : ChangePasswordRequest)
    (session current : Text) (db db' : Accounts)
    → trimmed r.current_session_id ≡ session
    → change_with e lower p r session current db ≡ (db', ok changed)
    → IsChange e lower p r db db'
unfolding change_with
change_with-IsChange e lower p r [] current db db' home h = cc
change_with-IsChange e lower p r (c ∷ session) [] db db' home h = cc
change_with-IsChange e lower p r (c ∷ session) (x ∷ current) db db' home h =
    elim (Option-cases (find_password_change_identity e.now (c ∷ session) db)) [
      | inl gone ↦ let x = rw gone at h in cc
      | inr (i, there) ↦
          let (right, valid, stored) = change_as-parts e lower p r i db db' (rw there at h) in
          record {
            identity = i;
            found = rw home there;
            verified = right;
            valid = valid;
            stored = stored;
          }
    ]

-- A password that is changed ends everything that the user had in the tenant. If the change goes
-- through, then the current session identified a user whose current password was given, and the new
-- password meets the policy; no session of the user in the tenant is active any more, the current one
-- included; and a refresh with any stored token of the user in the tenant, at whatever time and with
-- the same hash of tokens or another, is denied.
pub change_password_signs_out :
    (e : Env) (lower : Text → Text) (p : Policy) (r : ChangePasswordRequest) (db db' : Accounts)
    → change_password e lower p r db ≡ (db', ok changed)
    → (i : PasswordChangeIdentity) × (find_password_change_identity e.now
          (trimmed r.current_session_id)
          db
        ≡ some i)
      × (e.verify_password i.password_hash r.current_password ≡ true)
      × (validate lower p r.new_password i.email_normalized
            (e.verify_password i.password_hash r.new_password)
          ≡ [])
      × ((s : Session)
          → In s db'.sessions
          → s.tenant_id ≡ i.tenant_id
          → s.user_id ≡ i.user_id
          → is_active_session s.state ≡ false)
      × ((e' : Env) (raw : Text) (t : RefreshToken) (s : Session)
          → stored_token (e'.hash_token (trim raw)) db' ≡ some (t, s)
          → t.tenant_id ≡ i.tenant_id
          → t.user_id ≡ i.user_id
          → (refresh_token_pair e' (some raw) db').1 ≡ ok refresh_denied)
unfolding change_password refresh_token_pair find_refresh_token_by_hash
change_password_signs_out e lower p r db db' h =
    let c =
      change_with-IsChange e lower p r (trimmed r.current_session_id) r.current_password db db' refl
        h in
    let out = store_password-IsSignedOut e c.identity r.new_password db db' c.stored in
    (
      c.identity,
      c.found,
      c.verified,
      c.valid,
      out.sessions_closed,
      (λ e' raw t s there et eu.
          let hash = e'.hash_token (trim raw) in
          let m =
            (find-In (λ (x : RefreshToken). text_eq x.token_hash hash) t db'.tokens
              (stored_token-parts hash db' t s there).0).0 in
          let dead = out.tokens_dead t m et eu in
          refresh_with-denied e' (trim raw) db' t s there (dead_state t.state dead)),
    )
  where
    dead_state : (s : RefreshTokenState) → is_live s ≡ false → is_active_token s ≡ false
    dead_state active_token h = cc
    dead_state rotated_token h = cc
    dead_state revoked_token h = refl
    dead_state expired_token h = refl
    dead_state reused_token h = refl
