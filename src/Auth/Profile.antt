-- ===== src/Auth/Profile.antt =====
-- What internal/auth/service/github_client.go lets through to the table of users.
use sys_escape.Prelude.{
  ◌≡◌, ◌≢◌, ◌∙◌, sym, false, some, String, ok, arith, Option-cases, Result-cases, inl, inr,
}
use sys_escape.Prelude.Int.{pos, eqb_ℤ_iff}
use sys_escape.Prelude.Text.{str_eq}
use sys_escape.Auth.Tables.{User, AuthDb, Conditions}
use sys_escape.Auth.GitHub.{
  GitHubUser, OAuthConfig, Http, profile_request, real_get_user, real_exchange_code,
  real_github_client,
}
use sys_escape.Auth.Service.{AuthService, profile_of, exchange_code_for_user, display_name_of}
use sys_escape.Auth.Valid.{IsValid}
use sys_escape.Auth.Rows.{exchange_code_for_user-ok, upsert-ok}

real_get_user-ok :
    (http : Http) (access_token : String) (profile : GitHubUser)
    → real_get_user http access_token ≡ ok profile
    → (profile.id ≢ pos 0) × (str_eq profile.login "" ≡ false)
unfolding real_get_user
real_get_user-ok http access_token profile h =
    elim (Option-cases (http.send (profile_request access_token))) [
      | inl e ↦ absurd (ground (arith, e, h))
      | inr (reply, e) ↦ elim (Option-cases (http.user_of reply.body)) [
        | inl f ↦ absurd (ground (arith, e, f, h))
        | inr (payload, f) ↦
            let same : profile ≡ payload = ground (arith, e, f, h) in
            rw same (ground (arith, e, f, h, eqb_ℤ_iff payload.id (pos 0)))
      ]
    ]

pub profile_of-ok :
    (http : Http) (config : OAuthConfig) (code : String) (profile : GitHubUser)
    → profile_of (real_github_client http config) code ≡ ok profile
    → (profile.id ≢ pos 0) × (str_eq profile.login "" ≡ false)
unfolding real_github_client
profile_of-ok http config code profile h =
    elim (Result-cases (real_exchange_code http config code)) [
      | inr (e, f) ↦ absurd (ground (arith, f, h))
      | inl (token, f) ↦ elim (Result-cases (real_get_user http token)) [
        | inr (e, g) ↦ absurd (ground (arith, f, g, h))
        | inl (user, g) ↦
            let same : profile ≡ user = ground (arith, f, g, h) in
            rw same (real_get_user-ok http token user g)
      ]
    ]

-- A login through the real client, whatever GitHub or anybody in its place answers, is never one of the
-- account with GitHub id 0, which migrations/0004 gives to the administrator that stands for the tool.
pub exchange_code_for_user_not_system :
    (http : Http) (config : OAuthConfig) (c : Conditions) (s : AuthService) (db db' : AuthDb)
    (code : String) (u : User)
    → IsValid db
    → s.github_client ≡ some (real_github_client http config)
    → exchange_code_for_user c (some s) db code ≡ (ok u, db')
    → u.github_id ≢ pos 0
exchange_code_for_user_not_system http config c s db db' code u v g h =
    let x = exchange_code_for_user-ok c s db db' code u h in
    let up =
      upsert-ok c db db' x.profile.id x.profile.login (display_name_of x.profile) u v.users
        x.is_upserted in
    let real : x.client ≡ real_github_client http config = cc in
    let profile : profile_of (real_github_client http config) code ≡ ok x.profile =
      rw (sym real) x.is_profile in
    λ zero. (profile_of-ok http config code x.profile profile).0 (sym up.has_id ∙ zero)
