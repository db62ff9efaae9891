-- ===== src/Auth/Tables.antt =====
-- internal/auth/repo/user_repo.go and session_repo.go, pkg/models/user.go, with the tables of
-- migrations/0001_init_users_sessions.up.sql.
use sys_escape.Prelude.{
  ℕ, ◌==◌, Bool, List, [], ◌∷◌, ◌++◌, Option, none, some, String, map, find_first, select,
  if◌then◌else◌, Result, ok, err, is_some,
}
use sys_escape.Prelude.Int.{ℤ, eqb_ℤ}
use mathlib.Core.Bool.{◌||◌, not}

pub record User : Type 0 where
  pub id : ℕ
  pub github_id : ℤ
  pub github_username : String
  pub display_name : String
  pub role : String
  pub created_at : ℕ
  pub updated_at : ℕ

pub record Session : Type 0 where
  pub id : ℕ
  pub user_id : ℕ
  pub expires_at : ℕ
  pub created_at : ℕ

pub record AuthDb : Type 0 where
  pub users : List User
  pub sessions : List Session

-- Which statements the driver reports as failed, the clock, and the ids that the database generates.
pub record Conditions : Type 0 where
  pub upsert_fails : Bool
  pub create_fails : Bool
  pub session_fails : Bool
  pub user_fails : Bool
  pub delete_fails : Bool
  pub now : ℕ
  pub user_id : ℕ
  pub session_id : ℕ

pub data AuthError : Type 0 where
  service_nil session_repo_nil user_repo_nil github_client_nil code_required : AuthError
  exchange_failed profile_failed database_failed : AuthError
  session_not_found session_expired user_not_found : AuthError

unfoldable pub find_user : List User → ℕ → Option User
find_user users id = find_first (λ u. u.id == id) users

abbrev pub has_github_id : ℤ → User → Bool
has_github_id github_id u = eqb_ℤ u.github_id github_id

-- ON CONFLICT (github_id) DO UPDATE.
abbrev pub renamed : ℕ → String → String → User → User
renamed now username display_name u = record u {
  github_username = username;
  display_name = display_name;
  updated_at = now;
}

abbrev pub new_user : Conditions → ℤ → String → String → User
new_user c github_id username display_name = record {
  id = c.user_id;
  github_id = github_id;
  github_username = username;
  display_name = display_name;
  role = "USER";
  created_at = c.now;
  updated_at = c.now;
}

-- `none` is a generated id that is taken.
unfoldable pub upsert_row : Conditions → List User → ℤ → String → String → Option (User × List User)
unfolding find_user
upsert_row c users github_id username display_name =
    elim (find_first (has_github_id github_id) users) [
      | none ↦
          let u = new_user c github_id username display_name in
          if is_some (find_user users c.user_id) then none else some (u, users ++ u ∷ [])
      | some u ↦ some (
        renamed c.now username display_name u,
        map
            (λ (v : User).
              if has_github_id github_id v then renamed c.now username display_name v else v)
            users,
      )
    ]

abbrev pub upserted : AuthDb → Option (User × List User) → Result AuthError User × AuthDb
upserted db none = (err database_failed, db)
upserted db (some (u, users)) = (ok u, record db { users = users })

unfoldable pub upsert_by_github_id :
    Conditions → AuthDb → ℤ → String → String → Result AuthError User × AuthDb
unfolding upsert_row
upsert_by_github_id c db github_id username display_name =
    if c.upsert_fails
    then (err database_failed, db)
    else upserted db (upsert_row c db.users github_id username display_name)

unfoldable pub get_user_by_id : Conditions → AuthDb → ℕ → Result AuthError (Option User)
unfolding find_user
get_user_by_id c db id = if c.user_fails then err database_failed else ok (find_user db.users id)

abbrev pub new_session : Conditions → ℕ → ℕ → Session
new_session c user_id expires_at = record {
  id = c.session_id;
  user_id = user_id;
  expires_at = expires_at;
  created_at = c.now;
}

unfoldable pub find_session : List Session → ℕ → Option Session
find_session sessions id = find_first (λ s. s.id == id) sessions

-- The reference to `users` refuses a session of nobody, and the primary key an id that is taken.
unfoldable pub insert_session : Conditions → AuthDb → ℕ → ℕ → Result AuthError Session × AuthDb
unfolding find_user find_session
insert_session c db user_id expires_at =
    let s = new_session c user_id expires_at in
    if c.create_fails
      || is_some (find_session db.sessions c.session_id)
      || not (is_some (find_user db.users user_id))
    then (err database_failed, db)
    else (ok s, record db { sessions = db.sessions ++ s ∷ [] })

unfoldable pub get_session : Conditions → AuthDb → ℕ → Result AuthError (Option Session)
unfolding find_session
get_session c db id =
    if c.session_fails then err database_failed else ok (find_session db.sessions id)

unfoldable pub delete_session : Conditions → AuthDb → ℕ → Result AuthError (Unit {0}) × AuthDb
delete_session c db id =
    if c.delete_fails
    then (err database_failed, db)
    else (ok tt, record db { sessions = select (λ s. not (s.id == id)) db.sessions })
