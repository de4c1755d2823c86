-- ===== src/Auth/Reset/Tests.antt =====
-- The theorem on the reset of a password at a concrete link.
use support_desk.Base.{
  ◌≡◌, ◌≢◌, refl, ap, Text, codes, text_eq, trim, true, none, some, List, [], ◌∷◌, ok, find, arith,
}
use support_desk.Auth.{User, Env}
use support_desk.Auth.Login.{is_user}
use support_desk.Auth.Password.{
  with_new_password, validate, complete_password_change, contains_an_identifier,
}
use support_desk.Auth.Reset.{
  password_reset, active_reset, AuthToken, ResetDesk, accepted, change_of, find_reset_token_by_hash,
  find_reset_candidate, complete_password_reset, confirm_as, confirm_password_reset,
  request_password_reset,
}
use support_desk.Auth.Reset.Delivery.{found, request-confirm}
use support_desk.Auth.Reset.Once.{IsUntouched, reset_works_once}
use support_desk.Auth.Tests.{env_at, ann, desk_tenant, accounts, lenient}

run : Unit {0}
unfolding text_eq trim validate complete_password_change contains_an_identifier
    find_reset_token_by_hash find_reset_candidate complete_password_reset confirm_as
    confirm_password_reset request_password_reset
run = tt

abbrev link : AuthToken
link = record {
  id = codes "r1";
  tenant_id = codes "t";
  user_id = codes "ann";
  purpose = password_reset;
  state = active_reset;
  token_hash = codes "link";
  expires_at = 5000;
  used_at = none;
}

abbrev desk : ResetDesk
desk = record { accounts = accounts; auth_tokens = link ∷ [] }

abbrev after : ResetDesk
after =
    (confirm_password_reset (env_at 3000) (λ t. t) lenient (codes "brandnew") (some (codes " link"))
      desk).0

abbrev hashes : List User → List Text
hashes [] = []
hashes (u ∷ users) = u.password_hash ∷ hashes users

resets : hashes after.accounts.users ≡ codes "brandnew" ∷ []
unfolding run
resets = refl

changes_user : after.accounts.users ≢ accounts.users
changes_user same = let x = ap hashes same in let y = resets in cc

reset_works_once_example :
    IsUntouched after
      (confirm_password_reset
        (env_at 4000)
        (λ t. t)
        lenient
        (codes "another")
        (some (codes " link"))
        after).0
reset_works_once_example =
    reset_works_once (env_at 3000) (env_at 4000) (λ t. t) lenient lenient (codes "brandnew")
      (codes "another") (some (codes " link")) desk changes_user refl

-- A link for an address that nobody has looks like any other.
asks :
    (request_password_reset
      (env_at 3000)
      60
      true
      (some (codes "bob@x"))
      (some (some (codes "t")))
      desk).1
    ≡ ok accepted
unfolding run
asks = refl

abbrev sending : Env
sending = record (env_at 3000) { token = λ n. codes "fresh" }

candidate : find_reset_candidate (codes "t") (codes "ann@x") accounts ≡ some ann
unfolding run
candidate = refl

abbrev empty_desk : ResetDesk
empty_desk = record { accounts = accounts; auth_tokens = [] }

abbrev asked : ResetDesk
asked =
    (request_password_reset sending 60 true (some (codes "ann@x")) (some (some (codes "t")))
      empty_desk).0

request-confirm_example :
    ((confirm_password_reset
        (env_at 4000)
        (λ t. t)
        lenient
        (codes "brandnew")
        (some (codes "fresh"))
        asked).1
      ≡ ok accepted)
    × (find
          (is_user (codes "ann"))
          (confirm_password_reset
            (env_at 4000)
            (λ t. t)
            lenient
            (codes "brandnew")
            (some (codes "fresh"))
            asked).0.accounts.users
        ≡ some (
            with_new_password
              (change_of
                (env_at 4000)
                (found sending
                  (env_at 4000)
                  (λ t. t)
                  lenient
                  60
                  (codes "ann@x")
                  (codes "t")
                  (codes "brandnew")
                  ann
                  desk_tenant
                  empty_desk)
                (codes "brandnew"))
              ann))
unfolding run
request-confirm_example =
    request-confirm sending (env_at 4000) (λ t. t) lenient 60 (codes "ann@x") (codes "t")
      (codes "brandnew") ann desk_tenant empty_desk candidate refl refl refl refl refl refl
      (omega arith) refl refl
