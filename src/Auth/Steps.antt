-- ===== src/Auth/Steps.antt =====
-- The handlers of internal/auth/transport/oauth_handler.go as steps of the tables, in any order and on
-- any requests.
use sys_escape.Prelude.{
  ℕ, ◌+◌, ◌≡◌, Bool, true, false, Option, none, some, if◌then◌else◌, Result, ok, err, String,
  Option-cases, Bool-cases, inl, inr, not,
}
use sys_escape.Prelude.Int.{ℤ}
use sys_escape.Prelude.Text.{str_eq}
use sys_escape.Auth.Tables.{
  User, Session, AuthDb, Conditions, AuthError, upsert_by_github_id, insert_session, delete_session,
}
use sys_escape.Auth.GitHub.{GitHubUser, OAuthConfig}
use sys_escape.Auth.Service.{
  AuthService, profile_of, display_name_of, upsert_profile, exchange_code_for_user, create_session,
  logout, session_ttl,
}
use sys_escape.Auth.Transport.{
  Uuids, Request, http_error, session_response, begin_session, handle_github_callback,
  ended_session, handle_logout,
}
use sys_escape.Auth.Valid.{IsValid, upsert-IsValid, insert_session-IsValid, delete_session-IsValid}

-- One call of a handler that writes.
pub data Step (uuids : Uuids) (db db' : AuthDb) : Type 0 where
  logs_in :
      (c : Conditions) (config : OAuthConfig) (service : Option AuthService) (r : Request)
      → db' ≡ (handle_github_callback uuids c config service db r).1
      → Step uuids db db'
  logs_out :
      (c : Conditions) (service : Option AuthService) (r : Request)
      → db' ≡ (handle_logout uuids c service db r).1
      → Step uuids db db'

pub data Reach (uuids : Uuids) (db : AuthDb) : AuthDb → Type 0 where
  here : Reach uuids db db
  next : {d e : AuthDb} → Reach uuids db d → Step uuids d e → Reach uuids db e

-- What the three statements that write keep.
pub record IsKept (P : AuthDb → Type 0) : Type 0 where
  pub by_upsert :
      (c : Conditions) (db : AuthDb) (g : ℤ) (un dn : String)
      → P db
      → P (upsert_by_github_id c db g un dn).1
  pub by_insert :
      (c : Conditions) (db : AuthDb) (user_id expires_at : ℕ)
      → P db
      → P (insert_session c db user_id expires_at).1
  pub by_delete : (c : Conditions) (db : AuthDb) (id : ℕ) → P db → P (delete_session c db id).1

module _ (P : AuthDb → Type 0) (k : IsKept P) (c : Conditions) where
  if-keeps : {A : Type 0} (b : Bool) (x y : A × AuthDb) → P x.1 → P y.1 → P (if b then x else y).1
  if-keeps true x y h k = h
  if-keeps false x y h k = k

  upsert_profile-keeps :
      (db : AuthDb) (p : Result AuthError GitHubUser) → P db → P (upsert_profile c db p).1
  unfolding upsert_profile
  upsert_profile-keeps db (err e) h = h
  upsert_profile-keeps db (ok p) h = k.by_upsert c db p.id p.login (display_name_of p) h

  exchange-keeps :
      (service : Option AuthService) (db : AuthDb) (code : String)
      → P db
      → P (exchange_code_for_user c service db code).1
  unfolding exchange_code_for_user
  exchange-keeps none db code h = h
  exchange-keeps (some s) db code h = elim (Bool-cases (str_eq code "")) [
    | inl e ↦ rw e h
    | inr e ↦ elim (Option-cases s.github_client) [
      | inl f ↦ rw (e, f) h
      | inr (client, f) ↦ elim (Bool-cases (not s.user_repo)) [
        | inl g ↦ rw (e, f, g) h
        | inr g ↦ rw (e, f, g) (upsert_profile-keeps db (profile_of client code) h)
      ]
    ]
  ]

  create_session-keeps :
      (service : Option AuthService) (db : AuthDb) (user_id : ℕ)
      → P db
      → P (create_session c service db user_id).1
  unfolding create_session
  create_session-keeps none db user_id h = h
  create_session-keeps (some s) db user_id h = elim (Bool-cases (not s.session_repo)) [
    | inl e ↦ rw e h
    | inr e ↦ rw e (k.by_insert c db user_id (c.now + session_ttl) h)
  ]

  response-keeps :
      (uuids : Uuids) (config : OAuthConfig) (p : Result AuthError Session × AuthDb)
      → P p.1
      → P (session_response uuids config p).1
  response-keeps uuids config (err e, db) h = h
  response-keeps uuids config (ok s, db) h = h

  begin_session-keeps :
      (uuids : Uuids) (config : OAuthConfig) (service : Option AuthService)
      (p : Result AuthError User × AuthDb)
      → P p.1
      → P (begin_session uuids c config service p).1
  unfolding begin_session
  begin_session-keeps uuids config service (err e, db) h = h
  begin_session-keeps uuids config service (ok u, db) h =
      response-keeps uuids config (create_session c service db u.id)
        (create_session-keeps service db u.id h)

  callback-keeps :
      (uuids : Uuids) (config : OAuthConfig) (service : Option AuthService) (db : AuthDb)
      (r : Request)
      → P db
      → P (handle_github_callback uuids c config service db r).1
  unfolding handle_github_callback
  callback-keeps uuids config none db r h =
      if-keeps (str_eq r.code "") (http_error "missing oauth code" 400, db)
        (http_error "auth service unavailable" 500, db) h h
  callback-keeps uuids config (some s) db r h =
      if-keeps (str_eq r.code "") (http_error "missing oauth code" 400, db)
        (begin_session uuids c config (some s) (exchange_code_for_user c (some s) db r.code)) h
        (begin_session-keeps uuids config (some s) (exchange_code_for_user c (some s) db r.code)
          (exchange-keeps (some s) db r.code h))

  logout-keeps :
      (service : Option AuthService) (db : AuthDb) (id : ℕ) → P db → P (logout c service db id).1
  unfolding logout
  logout-keeps none db id h = h
  logout-keeps (some s) db id h = elim (Bool-cases (not s.session_repo)) [
    | inl e ↦ rw e h
    | inr e ↦ rw e (k.by_delete c db id h)
  ]

  handle_logout-keeps :
      (uuids : Uuids) (service : Option AuthService) (db : AuthDb) (r : Request)
      → P db
      → P (handle_logout uuids c service db r).1
  unfolding handle_logout
  handle_logout-keeps uuids service db r h = elim (Option-cases r.cookie) [
    | inl e ↦ rw e h
    | inr (value, e) ↦ elim (Option-cases (Uuids.parse uuids value)) [
      | inl f ↦ rw (e, ended_session, f) h
      | inr (id, f) ↦ rw (e, ended_session, f) (logout-keeps service db id h)
    ]
  ]

-- What the statements keep, the handlers keep.
pub Reach-keeps :
    (P : AuthDb → Type 0) (k : IsKept P) (uuids : Uuids) (db : AuthDb) {e : AuthDb}
    → Reach uuids db e
    → P db
    → P e
Reach-keeps P k uuids db here h = h
Reach-keeps P k uuids db (next {d} reach (logs_in c config service r e)) h =
    rw e (callback-keeps P k c uuids config service d r (Reach-keeps P k uuids db reach h))
Reach-keeps P k uuids db (next {d} reach (logs_out c service r e)) h =
    rw e (handle_logout-keeps P k c uuids service d r (Reach-keeps P k uuids db reach h))

-- However many logins and logouts run, and whatever statements fail in them, the ids of users, their
-- GitHub ids and the ids of sessions stay without repetition, and every session is of a user that is there.
pub Reach-IsValid : (uuids : Uuids) (db e : AuthDb) → Reach uuids db e → IsValid db → IsValid e
Reach-IsValid uuids db e reach =
    Reach-keeps IsValid
      (record {
        by_upsert = upsert-IsValid;
        by_insert = insert_session-IsValid;
        by_delete = delete_session-IsValid;
      })
      uuids db reach
