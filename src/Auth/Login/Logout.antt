-- ===== src/Auth/Login/Logout.antt =====
-- What a logout ends (auth-session.service.ts, logout and resolveCurrentSession).
use support_desk.Base.{
  ℕ, ◌≤◌, ◌≡◌, refl, sym, subst, ◌⊎◌, inl, inr, Text, text_eq, text_eq_refl, text_eq→eq, trim, Bool,
  true, false, Bool-cases, not, ◌&&◌, none, some, Option-cases, List, [], ◌∷◌, ltb, find,
  update_where, is_some, arith,
}
use support_desk.Base.Members.{find-In}
use support_desk.Auth.{Session, is_active_session, Accounts}
use support_desk.Auth.Tokens.{closed}
use support_desk.Auth.Login.{
  find_active_session, revoke_session, resolve_current_session, close_target, logout,
}

List-cases : (xs : Text) → (xs ≡ []) ⊎ ((c : ℕ) × (cs : Text) × (xs ≡ c ∷ cs))
List-cases [] = inl refl
List-cases (c ∷ cs) = inr (c, cs, refl)

-- The test of `findActiveSession`.
abbrev is_open : (id : Text) → Session → Bool
is_open id s = text_eq s.id id && not (is_some s.revoked_at) && is_active_session s.state

closed-none :
    (now : ℕ) (id : Text) (sessions : List Session)
    → find (is_open id) (
        update_where
          (λ (s : Session). text_eq s.id id && is_active_session s.state)
          (closed now)
          sessions)
      ≡ none
closed-none now id [] = refl
closed-none now id (s ∷ sessions) =
    elim (Bool-cases (text_eq s.id id && is_active_session s.state)) [
      | inl shut ↦ rw (shut, closed-none now id sessions) (ground arith)
      | inr left ↦
          let other : is_open id s ≡ false = ground arith in
          rw (left, other) (closed-none now id sessions)
    ]

close_target-none :
    (now : ℕ) (id : Text) (s : Session) (db : Accounts)
    → s.id ≡ id
    → find_active_session id (close_target now s (some s) db) ≡ none
unfolding find_active_session revoke_session
close_target-none now id s db e =
    rw (text_eq_refl s.tenant_id, text_eq_refl s.user_id)
      (subst
        (λ k.
          find (is_open id) (
            update_where (λ (x : Session). text_eq x.id k && is_active_session x.state) (closed now)
              db.sessions)
          ≡ none)
        (sym e) (closed-none now id db.sessions))

is_open-id :
    (id : Text) (s : Session) (db : Accounts)
    → find_active_session id db ≡ some s
    → text_eq s.id id ≡ true
unfolding find_active_session
is_open-id id s db h = let fits = (find-In (is_open id) s db.sessions h).1 in ground arith

-- A session that has been logged out serves nobody. After a logout without a target, the current
-- session is not resolved from its id at that time or any later one; the same holds if there was no
-- session to log out.
pub logout_ends_session :
    (now later : ℕ) (id : Text) (db : Accounts)
    → now ≤ later
    → resolve_current_session later (some id) (logout now (some id) none db) ≡ none
unfolding resolve_current_session logout
logout_ends_session now later id db after = elim (List-cases (trim id)) [
  | inl blank ↦ rw (resolve_current_session, blank)
  | inr (c, cs, filled) ↦ elim (Option-cases (find (is_open (c ∷ cs)) db.sessions)) [
    | inl gone ↦ rw (
      resolve_current_session, logout, filled, resolve_current_session, filled, gone,
      find_active_session, gone,
    )
    | inr (s, there) ↦ elim (Bool-cases (ltb now s.expires_at)) [
      | inr over ↦
          let still : ltb later s.expires_at ≡ false = ground arith in
          rw (
            resolve_current_session, logout, filled, resolve_current_session, filled, there, over,
            find_active_session, there, still,
          )
      | inl alive ↦
          let own : s.id ≡ c ∷ cs = text_eq→eq s.id (c ∷ cs) (is_open-id (c ∷ cs) s db there) in
          rw (
            resolve_current_session,
            logout,
            filled,
            resolve_current_session,
            filled,
            there,
            alive,
            close_target-none now (c ∷ cs) s db own,
          )
    ]
  ]
]
