-- ===== src/Auth/Tokens/Reuse.antt =====
-- The detection of a refresh token that is used twice (auth-token.service.ts, refreshTokenPair).
use support_desk.Base.{
  ℕ, ◌≡◌, ◌≢◌, refl, sym, ap, subst, ◌∙◌, inl, inr, Text, text_eq, text_eq_refl, trim, Bool, true,
  false, Bool-cases, ◌&&◌, some, Option-cases, List, [], ◌∷◌, ◌++◌, any, leb, update_where, In,
  Result, ok, if◌then◌else◌, if-true, if-false, arith,
}
use support_desk.Base.Members.{In-update_where, In-any, append-In}
use support_desk.Base.Finds.{find-update_where, find-append_left}
use support_desk.Auth.{
  Session, revoked_session, RefreshToken, is_active_token, Accounts, AuthError, Env,
}
use support_desk.Auth.Tokens.{
  TokenPair, RefreshTokenResult, refresh_denied, refreshed, NewRefreshToken, token_row,
  create_refresh_token, find_refresh_token_by_hash, rotated, mark_refresh_token_rotated, is_live,
  in_family, revoked, closed, has_token_of, revoke_refresh_token_family, session_of, is_over,
  refresh_expiry, rotate, reuse_detected, use_token, stored_token, refresh_with, refresh_token_pair,
}

-- No token of the family can be used any more, and each session that has one is revoked.
pub record IsClosed (family : Text) (db : Accounts) : Type 0 where
  pub tokens_dead :
      (t : RefreshToken) → In t db.tokens → t.family_id ≡ family → is_live t.state ≡ false
  pub sessions_closed :
      (t : RefreshToken) (s : Session)
      → In t db.tokens
      → t.family_id ≡ family
      → In s db.sessions
      → t.session_id ≡ s.id
      → s.state ≡ revoked_session

revoked-dead :
    (now : ℕ) (family : Text) (x t : RefreshToken)
    → t ≡ (if in_family family x && is_live x.state then revoked now x else x)
    → t.family_id ≡ family
    → is_live t.state ≡ false
revoked-dead now family x t e f = elim (Bool-cases (in_family family x && is_live x.state)) [
  | inl taken ↦
      ap (λ (y : RefreshToken). is_live y.state)
        (if-true (in_family family x && is_live x.state) (revoked now x) x e taken)
  | inr left ↦
      let same = if-false (in_family family x && is_live x.state) (revoked now x) x e left in
      let home = sym (ap (λ (y : RefreshToken). y.family_id) same) ∙ f in
      let mine = subst (λ k. text_eq x.family_id k ≡ true) home (text_eq_refl x.family_id) in
      let dead : is_live x.state ≡ false = ground arith in
      ap (λ (y : RefreshToken). is_live y.state) same ∙ dead
]

session-closed :
    (now : ℕ) (family : Text) (tokens : List RefreshToken) (t : RefreshToken) (s y : Session)
    → In t tokens
    → t.family_id ≡ family
    → t.session_id ≡ s.id
    → s ≡ (if has_token_of family tokens y then closed now y else y)
    → s.state ≡ revoked_session
session-closed now family tokens t s y m f same e =
    let kept : s.id ≡ y.id = id_kept (has_token_of family tokens y) e in
    let mine = subst (λ k. text_eq t.family_id k ≡ true) f (text_eq_refl t.family_id) in
    let his =
      subst (λ k. text_eq t.session_id k ≡ true) (same ∙ kept) (text_eq_refl t.session_id) in
    let taken =
      In-any (λ (x : RefreshToken). text_eq x.session_id y.id && in_family family x) t tokens m
        (ground arith) in
    ap (λ (z : Session). z.state) (if-true (has_token_of family tokens y) (closed now y) y e taken)
  where
    id_kept : (b : Bool) → s ≡ (if b then closed now y else y) → s.id ≡ y.id
    id_kept true e = ap (λ (z : Session). z.id) e
    id_kept false e = ap (λ (z : Session). z.id) e

revoke_refresh_token_family-IsClosed :
    (now : ℕ) (family : Text) (db : Accounts)
    → IsClosed family (revoke_refresh_token_family now family db)
unfolding revoke_refresh_token_family
revoke_refresh_token_family-IsClosed now family db =
    let gone : RefreshToken → Bool = λ t. in_family family t && is_live t.state in
    let tokens = update_where gone (revoked now) db.tokens in
    record {
      tokens_dead = λ t m f.
          let (x, i, e) = In-update_where gone (revoked now) t db.tokens m in
          revoked-dead now family x t e f;
      sessions_closed = λ t s m f n same.
          let (y, j, e) =
            In-update_where (has_token_of family tokens) (closed now) s db.sessions n in
          session-closed now family tokens t s y m f same e;
    }

reused_text :
    (e : Env) (text : Text) (db : Accounts) (t : RefreshToken) (s : Session)
    → text ≢ []
    → stored_token (e.hash_token text) db ≡ some (t, s)
    → is_active_token t.state ≡ false
    → refresh_with e text db ≡ reuse_detected e t db
unfolding refresh_with use_token
reused_text e [] db t s filled found dead = absurd (filled refl)
reused_text e (c ∷ text) db t s filled found dead = rw (found, dead)

reuse_detected-IsClosed :
    (e : Env) (t : RefreshToken) (db : Accounts)
    → let r = reuse_detected e t db in (r.1 ≡ ok refresh_denied) × IsClosed t.family_id r.0
unfolding reuse_detected
reuse_detected-IsClosed e t db =
    let c = revoke_refresh_token_family-IsClosed e.now t.family_id db in
    (refl, record { tokens_dead = c.tokens_dead; sessions_closed = c.sessions_closed })

-- A stored token that is no longer active serves no refresh.
pub refresh_with-denied :
    (e : Env) (text : Text) (db : Accounts) (t : RefreshToken) (s : Session)
    → stored_token (e.hash_token text) db ≡ some (t, s)
    → is_active_token t.state ≡ false
    → (refresh_with e text db).1 ≡ ok refresh_denied
unfolding refresh_with
refresh_with-denied e [] db t s found dead = refl
refresh_with-denied e (c ∷ text) db t s found dead =
    ap (λ (z : Accounts × Result AuthError RefreshTokenResult). z.1)
      (reused_text e (c ∷ text) db t s (λ q. cc) found dead)
    ∙ (reuse_detected-IsClosed e t db).0

-- The desk after a rotation.
record IsRotated (e : Env) (t : RefreshToken) (p : TokenPair) (db db' : Accounts) : Type 0 where
  pub successor : NewRefreshToken
  pub family : successor.family_id ≡ t.family_id
  pub handed_out : successor.token_hash ≡ e.hash_token p.refresh_token
  pub tokens :
      db'.tokens
      ≡ update_where (λ x. text_eq x.id t.id) rotated db.tokens ++ token_row successor ∷ []
  pub sessions : db'.sessions ≡ db.sessions

rotate-IsRotated :
    (e : Env) (t : RefreshToken) (s : Session) (db db' : Accounts) (p : TokenPair)
    → rotate e t s db ≡ (db', ok (refreshed p))
    → IsRotated e t p db db'
unfolding rotate create_refresh_token mark_refresh_token_rotated
rotate-IsRotated e t s db db' p h =
    elim (Bool-cases (
      any (λ x. text_eq x.token_hash (e.hash_token (e.token 0)))
        (update_where (λ x. text_eq x.id t.id) rotated db.tokens))) [
          | inl taken ↦ let x = rw taken at h in cc
          | inr free ↦ elim (Bool-cases (leb 32 e.config.secret_length)) [
            | inr short ↦ let x = rw (free, short) at h in cc
            | inl long ↦
                let x = rw (free, long) at h in
                record {
                  successor = record {
                    id = e.uuid 0;
                    family_id = t.family_id;
                    parent_token_id = some t.id;
                    session_id = s.id;
                    tenant_id = t.tenant_id;
                    user_id = t.user_id;
                    token_hash = e.hash_token (e.token 0);
                    expires_at = refresh_expiry e s.remember_me;
                  };
                  family = refl;
                  handed_out = ground arith;
                  tokens =
                      sym
                        (ap (λ (z : Accounts × Result AuthError RefreshTokenResult). z.0.tokens) x);
                  sessions =
                      sym (
                        ap (λ (z : Accounts × Result AuthError RefreshTokenResult). z.0.sessions)
                          x);
                }
          ]
        ]

-- A token that serves a refresh is active.
use_token-rotate :
    (e : Env) (t : RefreshToken) (s : Session) (db db' : Accounts) (p : TokenPair)
    → use_token e t s db ≡ (db', ok (refreshed p))
    → rotate e t s db ≡ (db', ok (refreshed p))
unfolding use_token reuse_detected
use_token-rotate e t s db db' p h = elim (Bool-cases (is_active_token t.state)) [
  | inr dead ↦ let x = rw dead at h in cc
  | inl alive ↦ elim (Bool-cases (is_over e.now t s)) [
    | inl over ↦ let x = rw (alive, over) at h in cc
    | inr young ↦ rw (alive, young) at h
  ]
]

served :
    (e : Env) (text : Text) (db db' : Accounts) (p : TokenPair)
    → refresh_with e text db ≡ (db', ok (refreshed p))
    → (t : RefreshToken) × (s : Session) × (text ≢ [])
      × (stored_token (e.hash_token text) db ≡ some (t, s))
      × (rotate e t s db ≡ (db', ok (refreshed p)))
unfolding refresh_with
served e [] db db' p h = cc
served e (c ∷ text) db db' p h = elim (Option-cases (stored_token (e.hash_token (c ∷ text)) db)) [
  | inl none_there ↦ let x = rw none_there at h in cc
  | inr (z, there) ↦
      let x = rw there at h in (z.0, z.1, (λ q. cc), there, use_token-rotate e z.0 z.1 db db' p x)
]

-- The parts of a stored token.
pub stored_token-parts :
    (h : Text) (db : Accounts) (t : RefreshToken) (s : Session)
    → stored_token h db ≡ some (t, s)
    → (find_refresh_token_by_hash h db ≡ some t) × (session_of t db ≡ some s)
unfolding stored_token
stored_token-parts h db t s e = ground arith

rotated-stored :
    (e : Env) (h : Text) (t : RefreshToken) (s : Session) (p : TokenPair) (db db' : Accounts)
    → IsRotated e t p db db'
    → stored_token h db ≡ some (t, s)
    → stored_token h db' ≡ some (rotated t, s)
unfolding stored_token find_refresh_token_by_hash
rotated-stored e h t s p db db' r there =
    let (found, session) = stored_token-parts h db t s there in
    let moved =
      find-append_left (λ (x : RefreshToken). text_eq x.token_hash h)
        (update_where (λ x. text_eq x.id t.id) rotated db.tokens) (token_row r.successor ∷ [])
        (rotated t)
        (find-update_where (λ (x : RefreshToken). text_eq x.token_hash h)
          (λ (x : RefreshToken). text_eq x.id t.id) rotated db.tokens t (λ x. refl) found
          (text_eq_refl t.id)) in
    let same = r.tokens in let kept = r.sessions in ground arith

-- A refresh token works once. After it has served a refresh, presenting it again, at whatever time,
-- is denied; and then no token of its family can be used any more, the one that the first refresh
-- handed out among them, and every session that has a token of the family is revoked.
pub refresh_replay_denied :
    (e e' : Env) (raw : Text) (db db' : Accounts) (p : TokenPair)
    → e'.hash_token ≡ e.hash_token
    → refresh_token_pair e (some raw) db ≡ (db', ok (refreshed p))
    → let r = refresh_token_pair e' (some raw) db' in
      (t n : RefreshToken) × (find_refresh_token_by_hash (e.hash_token (trim raw)) db ≡ some t)
      × In n db'.tokens
      × (n.token_hash ≡ e.hash_token p.refresh_token)
      × (n.family_id ≡ t.family_id)
      × (r.1 ≡ ok refresh_denied)
      × IsClosed t.family_id r.0
unfolding refresh_token_pair
refresh_replay_denied e e' raw db db' p hash h =
    let (t, s, filled, there, ran) = served e (trim raw) db db' p h in
    let r = rotate-IsRotated e t s db db' p ran in
    let again : stored_token (e'.hash_token (trim raw)) db' ≡ some (rotated t, s) =
      ap (λ f. stored_token (f (trim raw)) db') hash
      ∙ rotated-stored e (e.hash_token (trim raw)) t s p db db' r there in
    let run = reused_text e' (trim raw) db' (rotated t) s filled again refl in
    let (denied, shut) = reuse_detected-IsClosed e' (rotated t) db' in
    (
      t,
      token_row r.successor,
      (stored_token-parts (e.hash_token (trim raw)) db t s there).0,
      subst (In (token_row r.successor)) (sym r.tokens) (
          append-In (token_row r.successor)
            (update_where (λ x. text_eq x.id t.id) rotated db.tokens) (token_row r.successor ∷ [])
            (inr (inl refl))),
      r.handed_out,
      r.family,
      ap (λ (z : Accounts × Result AuthError RefreshTokenResult). z.1) run ∙ denied,
      subst (IsClosed t.family_id)
          (sym (ap (λ (z : Accounts × Result AuthError RefreshTokenResult). z.0) run)) shut,
    )
