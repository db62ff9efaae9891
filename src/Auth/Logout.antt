-- ===== src/Auth/Logout.antt =====
-- What a logout through internal/auth/transport/oauth_handler.go leaves of the sessions.
use mathlib.Core.Bool.{not}
use sys_escape.Prelude.{
  ℕ, ◌==◌, ◌≡◌, refl, ◌∙◌, ap, true, false, List, [], ◌∷◌, Option, none, some, String, select,
  if◌then◌else◌, ok, err, arith, Option-cases, Bool-cases, inl, inr,
}
use sys_escape.Prelude.Text.{str_eq}
use sys_escape.Auth.Tables.{
  User, Session, AuthDb, AuthError, session_repo_nil, user_repo_nil, database_failed,
  session_not_found, Conditions, find_session, get_session, get_user_by_id, delete_session,
}
use sys_escape.Auth.Service.{AuthService, logout, validate_session}
use sys_escape.Auth.Transport.{Uuids, Request, handle_logout, user_of_cookie}

find_session-select :
    (id j : ℕ) (ss : List Session)
    → find_session (select (λ s. not (s.id == id)) ss) j
      ≡ (if j == id then none else find_session ss j)
unfolding find_session
find_session-select id j [] = ground arith
find_session-select id j (s ∷ ss) = ground (arith, find_session-select id j ss)

without : ℕ → AuthDb → AuthDb
without id db = record db { sessions = select (λ s. not (s.id == id)) db.sessions }

handle_logout-without :
    (uuids : Uuids) (c : Conditions) (s : AuthService) (db : AuthDb) (r : Request) (value : String)
    (id : ℕ)
    → r.cookie ≡ some value
    → Uuids.parse uuids value ≡ some id
    → s.session_repo ≡ true
    → c.delete_fails ≡ false
    → (handle_logout uuids c (some s) db r).1 ≡ without id db
unfolding handle_logout logout delete_session without
handle_logout-without uuids c s db r value id e p a d = ground (arith, e, p, a, d)

get_session-other :
    (c : Conditions) (db : AuthDb) (id j : ℕ)
    → (j == id) ≡ false
    → get_session c (without id db) j ≡ get_session c db j
unfolding get_session without
get_session-other c db id j e = rw (find_session-select id j db.sessions, e) refl

get_session-ended :
    (c : Conditions) (db : AuthDb) (id : ℕ)
    → get_session c (without id db) id ≡ (if c.session_fails then err database_failed else ok none)
unfolding get_session without
get_session-ended c db id = ground (arith, find_session-select id id db.sessions)

validate_session-other :
    (c : Conditions) (s : AuthService) (db : AuthDb) (id j : ℕ)
    → (j == id) ≡ false
    → validate_session c (some s) (without id db) j ≡ validate_session c (some s) db j
unfolding validate_session without get_user_by_id
validate_session-other c s db id j e = rw (get_session-other c db id j e) refl

validate_session-ended :
    (c : Conditions) (s : AuthService) (db : AuthDb) (id : ℕ)
    → (e : AuthError) × (validate_session c (some s) (without id db) id ≡ err e)
unfolding validate_session
validate_session-ended c s db id = elim (Bool-cases s.session_repo) [
  | inr e ↦ (session_repo_nil, rw e refl)
  | inl e ↦ elim (Bool-cases s.user_repo) [
    | inr f ↦ (user_repo_nil, rw (e, f) refl)
    | inl f ↦ elim (Bool-cases c.session_fails) [
      | inl g ↦ (database_failed, rw (e, f, get_session-ended c db id, g) refl)
      | inr g ↦ (session_not_found, rw (e, f, get_session-ended c db id, g) refl)
    ]
  ]
]

-- What is left of the user that a cookie stands for, when the session `id` is gone.
abbrev pub unless_ended : ℕ → Option User → Option ℕ → Option User
unless_ended id user none = none
unless_ended id user (some j) = if j == id then none else user

cookies-without :
    (uuids : Uuids) (later : Conditions) (s : AuthService) (db : AuthDb) (other : String) (id : ℕ)
    → user_of_cookie uuids later (some s) (without id db) (some other)
      ≡ unless_ended id (user_of_cookie uuids later (some s) db (some other)) (uuids.parse other)
unfolding user_of_cookie
cookies-without uuids later s db other id = elim (Bool-cases (str_eq other "")) [
  | inl g ↦ elim (Option-cases (uuids.parse other)) [
    | inl f ↦ rw (f, g) refl
    | inr (j, f) ↦ rw (f, g) (elim (Bool-cases (j == id)) [ inl k ↦ rw k refl | inr k ↦ rw k refl ])
  ]
  | inr g ↦ elim (Option-cases (uuids.parse other)) [
    | inl f ↦ rw (f, g) refl
    | inr (j, f) ↦ elim (Bool-cases (j == id)) [
      | inr k ↦ rw (f, g, k, validate_session-other later s db id j k) refl
      | inl k ↦
          let same : j ≡ id = ground arith in
          rw (f, g, k, same, (validate_session-ended later s db id).1) refl
    ]
  ]
]

-- After a logout that reaches the table, no cookie stands for the session that the request's cookie
-- named, at any time and under any failures; every cookie of another session stands for what it stood
-- for before.
pub logout-cookies :
    (uuids : Uuids) (c later : Conditions) (s : AuthService) (db : AuthDb) (r : Request)
    (value other : String) (id : ℕ)
    → r.cookie ≡ some value
    → Uuids.parse uuids value ≡ some id
    → s.session_repo ≡ true
    → c.delete_fails ≡ false
    → user_of_cookie uuids later (some s) (handle_logout uuids c (some s) db r).1 (some other)
      ≡ unless_ended id (user_of_cookie uuids later (some s) db (some other)) (uuids.parse other)
logout-cookies uuids c later s db r value other id e p a d =
    ap (λ d. user_of_cookie uuids later (some s) d (some other))
      (handle_logout-without uuids c s db r value id e p a d)
    ∙ cookies-without uuids later s db other id
