-- ===== src/Examples/Sessions.antt =====
-- Sessions of the small organization.
use cuddly_lamp.Prelude.{ℕ, ◌≤◌, ◌≡◌, ◌≢◌, refl, true, false, some, List, [], ◌∷◌, arith}
use cuddly_lamp.Text.{text, text_eq}
use cuddly_lamp.Model.Identity.{
  admin, Token, access, refresh, TokenResponse, TokenClaims, RevokeReason,
}
use cuddly_lamp.Storage.Action.{World, ok, err, token_revoked}
use cuddly_lamp.Storage.Accounts.{get_user, get_organization}
use cuddly_lamp.Storage.Members.{get_organization_member}
use cuddly_lamp.Storage.Tokens.{
  in_family, create_token, get_token_by_hash, get_token_by_jti, revoke_token, revoke_rows,
  revoke_token_family, revoke_family_rows, update_token_last_used, touch_rows,
}
use cuddly_lamp.Auth.Tokens.{
  access_claims, token_response, hash_token, generate_token_pair_with_family, generate_access_token,
  generate_refresh_token,
}
use cuddly_lamp.Auth.Session.{
  is_refresh, is_expired, rotate, refresh_tokens, validate_token, revoke_access_token, check_record,
  revoke_refresh_token_family, revoke_family_of, revoke_by_family,
}
use cuddly_lamp.Auth.Families.{live, live_refresh}
use cuddly_lamp.Auth.Invariants.{IsSingle}
use cuddly_lamp.Auth.Requests.{Request, refresh_pair, wait, serve, serve_all}
use cuddly_lamp.Auth.Sessions.{one_live_refresh, no_double_refresh, by_raw, by_id}
use cuddly_lamp.Auth.Logout.{
  after_logout, after_revoke, logout_ends_refresh, logout_ends_access, reuse_ends_family,
  revoke_final,
}
use cuddly_lamp.Auth.Refresh.{refresh_is_checked, is_for_member}
use cuddly_lamp.Examples.{alice, acme, service, env, token, world}

abbrev before : World
before = world (token refresh false ∷ [])

abbrev reused : World
reused = world (token refresh true ∷ [])

abbrev bearer : World
bearer = world (token access false ∷ [])

abbrev reply : TokenResponse
reply = token_response env service alice acme admin (env.uuid 200) (env.random_token 201)

abbrev later : List Request
later = wait 10 ∷ refresh_pair (text "raw") ∷ []

uuids_differ : (m n : ℕ) → text_eq (env.uuid m) (env.uuid n) ≡ true → m ≡ n
unfolding text_eq
uuids_differ m n h = ground arith

refresh_succeeds : (refresh_tokens env service (text "raw") before).0 ≡ ok reply
unfolding refresh_tokens get_token_by_hash rotate revoke_token revoke_rows get_user get_organization
    get_organization_member generate_token_pair_with_family generate_access_token
    generate_refresh_token create_token text_eq hash_token
refresh_succeeds = refl

no_double_refresh_example :
    (refresh_tokens env service
      (text "raw")
      (serve_all env service later (refresh_tokens env service (text "raw") before).1)).0
    ≢ ok reply
no_double_refresh_example =
    no_double_refresh env service (text "raw") before reply reply later refresh_succeeds

before-IsSingle : IsSingle env service uuids_differ before.db.tokens before.draws
unfolding text_eq in_family
before-IsSingle = record { at_most_one = λ f. ground arith; unborn = λ k le. ground arith }

one_live_refresh_example :
    live_refresh (text "f") (serve_all env service later before).db.tokens ≤ 1
one_live_refresh_example =
    one_live_refresh env service uuids_differ before later (text "f") before-IsSingle

not_f : (k : ℕ) → 200 ≤ k → text_eq (env.uuid k) (text "f") ≡ false
unfolding text_eq
not_f k le = ground arith

found_before : by_raw env (text "raw") before ≡ some (token refresh false)
unfolding text_eq
found_before = refl

found_reused : by_raw env (text "raw") reused ≡ some (token refresh true)
unfolding text_eq
found_reused = refl

reuse_ends_family_example :
    (refresh_tokens env service (text "raw") reused).0 ≡ err token_revoked
    × live
        (text "f")
        (serve_all env service later (refresh_tokens env service (text "raw") reused).1).db.tokens
      ≡ 0
reuse_ends_family_example =
    reuse_ends_family env service (text "f") (text "raw") reused (token refresh true) found_reused
      refl refl refl refl refl not_f later

-- The session's new tokens after a refresh, and a logout with the new refresh token.
abbrev renewed : World
renewed = world (token refresh false ∷ token access false ∷ [])

found_renewed : by_raw env (text "raw") renewed ≡ some (token refresh false)
unfolding text_eq
found_renewed = refl

abbrev logged_out : World
logged_out = after_logout env service (text "raw") (wait 5 ∷ []) renewed

-- `RevokeTokenFamily` on the token that was read.
abbrev out : Token
out = record (token refresh false) {
  is_revoked = true;
  revoked_at = some 1000;
  revoke_reason = some RevokeReason.logged_out;
}

found_out : by_raw env (text "raw") logged_out ≡ some out
unfolding text_eq serve_all serve in_family revoke_refresh_token_family revoke_family_of
    revoke_by_family get_token_by_hash revoke_token_family revoke_family_rows hash_token
found_out = refl

in_family-out : in_family (text "f") out ≡ true
unfolding in_family text_eq
in_family-out = refl

logout_ends_refresh_example : (refresh_tokens env service (text "raw") logged_out).0 ≢ ok reply
logout_ends_refresh_example =
    logout_ends_refresh env service (text "f") (text "raw") renewed (token refresh false)
      found_renewed refl refl refl not_f (wait 5 ∷ []) (text "raw") out found_out in_family-out
      reply

abbrev claims : ℕ → TokenClaims
claims time = access_claims service alice acme admin (text "j") time

clock_out : logged_out.clock ≡ 1005
unfolding serve_all serve revoke_refresh_token_family revoke_family_of revoke_by_family
    get_token_by_hash revoke_token_family hash_token text_eq
clock_out = refl

parsed_out :
    env.parse_claims service.jwt_secret logged_out.clock (text "j") ≡ some (claims logged_out.clock)
parsed_out = refl

by_id-out : by_id (text "j") logged_out ≡ some out
unfolding text_eq serve_all serve in_family revoke_refresh_token_family revoke_family_of
    revoke_by_family get_token_by_hash revoke_token_family revoke_family_rows hash_token
by_id-out = refl

logout_ends_access_example : (validate_token env service (text "j") logged_out).0 ≢ ok (claims 1005)
logout_ends_access_example =
    logout_ends_access env service (text "f") (text "raw") renewed (token refresh false)
      found_renewed refl refl refl not_f (wait 5 ∷ []) (text "j") (claims logged_out.clock) out
      parsed_out by_id-out in_family-out (claims 1005)

found_bearer : by_id (text "j") bearer ≡ some (token access false)
unfolding text_eq
found_bearer = refl

revoke_succeeds : (revoke_access_token env service (text "j") bearer).0 ≡ ok tt
unfolding revoke_access_token revoke_token revoke_rows
revoke_succeeds = refl

abbrev revoked_world : World
revoked_world = after_revoke env service (text "j") (wait 5 ∷ []) bearer

revoke_final_example : (validate_token env service (text "j") revoked_world).0 ≢ ok (claims 1005)
revoke_final_example =
    revoke_final env service (text "j") (claims 1000) bearer (token access false) refl found_bearer
      revoke_succeeds (wait 5 ∷ []) (text "j") (claims revoked_world.clock) refl refl (claims 1005)

refresh_is_checked_example :
    is_refresh (token refresh false).type ≡ true
    × (token refresh false).is_revoked ≡ false
    × is_expired (token refresh false) before.clock ≡ false
    × is_for_member (token refresh false) before reply ≡ true
refresh_is_checked_example =
    refresh_is_checked env service (text "raw") before (token refresh false) reply found_before
      refresh_succeeds

-- A bearer token is accepted, and not after its revocation.
accepts_bearer : (validate_token env service (text "j") bearer).0 ≡ ok (claims 1000)
unfolding validate_token check_record get_token_by_jti update_token_last_used touch_rows text_eq
accepts_bearer = refl

-- Two refreshes that both read the token before either revokes it both end with a new pair.
abbrev second_reply : TokenResponse
second_reply = token_response env service alice acme admin (env.uuid 203) (env.random_token 204)

both_rotate :
    (rotate env service (token refresh false) before).0 ≡ ok reply
    × (rotate env service
        (token refresh false)
        (rotate env service (token refresh false) before).1).0
      ≡ ok second_reply
unfolding rotate revoke_token revoke_rows get_user get_organization get_organization_member
    generate_token_pair_with_family generate_access_token generate_refresh_token create_token
    text_eq hash_token
both_rotate = (refl, refl)
