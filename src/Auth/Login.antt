-- ===== src/Auth/Login.antt =====
-- A login through internal/auth/transport/oauth_handler.go and the cookie that it sets.
use mathlib.Core.Bool.{not}
use sys_escape.Prelude.{
  ℕ, ◌+◌, ltb, ◌≡◌, refl, sym, ap, ◌∙◌, true, false, none, some, String, if◌then◌else◌, ok, err,
  arith, Bool-cases, Result-cases, inl, inr,
}
use sys_escape.Prelude.Text.{str_eq, eq_iff}
use sys_escape.Auth.Tables.{
  User, Session, AuthDb, Conditions, find_user, find_session, insert_session, get_session,
  get_user_by_id, session_expired,
}
use sys_escape.Auth.GitHub.{GitHubUser, GitHubClient, OAuthConfig}
use sys_escape.Auth.Service.{
  AuthService, profile_of, display_name_of, exchange_code_for_user, create_session, session_ttl,
  validate_session,
}
use sys_escape.Auth.Transport.{
  Uuids, Request, http_error, redirect, Cookie, begin_session, handle_github_callback,
  user_of_cookie,
}
use sys_escape.Auth.Valid.{IsValid}
use sys_escape.Auth.Rows.{Exchanged, upsert-ok, insert_session-ok, exchange_code_for_user-ok}

-- `google/uuid`: Parse reads back what String writes, and refuses the empty text.
pub record UuidLaws (uuids : Uuids) : Type 0 where
  pub parse-text : (id : ℕ) → Uuids.parse uuids (Uuids.text uuids id) ≡ some id
  pub parse_empty : Uuids.parse uuids "" ≡ none

-- With the rows there, only the time decides.
validate_session-rows :
    (c : Conditions) (service : AuthService) (db : AuthDb) (s : Session) (u : User)
    → service.user_repo ≡ true
    → service.session_repo ≡ true
    → c.session_fails ≡ false
    → c.user_fails ≡ false
    → find_session db.sessions s.id ≡ some s
    → find_user db.users s.user_id ≡ some u
    → validate_session c (some service) db s.id
      ≡ (if ltb c.now s.expires_at then ok u else err session_expired)
unfolding validate_session get_session get_user_by_id
validate_session-rows c service db s u a b sf uf hs hu = ground (arith, a, b, sf, uf, hs, hu)

not_empty-text :
    (uuids : Uuids) (laws : UuidLaws uuids) (id : ℕ) → str_eq (Uuids.text uuids id) "" ≡ false
not_empty-text uuids laws id = elim (Bool-cases (str_eq (Uuids.text uuids id) "")) [
  | inr e ↦ e
  | inl e ↦
      let same : Uuids.text uuids id ≡ "" = grind (arith, eq_iff (Uuids.text uuids id) "", e) in
      absurd
        (grind (arith, sym (laws.parse-text id) ∙ ap (Uuids.parse uuids) same ∙ laws.parse_empty))
]

user_of_cookie-rows :
    (uuids : Uuids) (laws : UuidLaws uuids) (c : Conditions) (service : AuthService) (db : AuthDb)
    (s : Session) (u : User)
    → service.user_repo ≡ true
    → service.session_repo ≡ true
    → c.session_fails ≡ false
    → c.user_fails ≡ false
    → find_session db.sessions s.id ≡ some s
    → find_user db.users s.user_id ≡ some u
    → user_of_cookie uuids c (some service) db (some (uuids.text s.id))
      ≡ (if ltb c.now s.expires_at then some u else none)
unfolding user_of_cookie
user_of_cookie-rows uuids laws c service db s u a b sf uf hs hu =
    rw
      (
        not_empty-text uuids laws s.id,
        laws.parse-text s.id,
        validate_session-rows c service db s u a b sf uf hs hu,
      )
      (elim (Bool-cases (ltb c.now s.expires_at)) [ inl e ↦ rw e refl | inr e ↦ rw e refl ])

pub record Opened (uuids : Uuids) (c : Conditions) (s : AuthService) (db db' : AuthDb) (u : User)
    (k : Cookie) : Type 0 where
  pub session : Session
  pub has_session_repo : s.session_repo ≡ true
  pub is_value : k.value ≡ uuids.text session.id
  pub is_inserted : insert_session c db u.id (c.now + session_ttl) ≡ (ok session, db')

begin_session-redirect :
    (uuids : Uuids) (c : Conditions) (config : OAuthConfig) (s : AuthService) (db db' : AuthDb)
    (u : User) (k : Cookie) (to : String)
    → begin_session uuids c config (some s) (ok u, db) ≡ (redirect (some k) to, db')
    → Opened uuids c s db db' u k
unfolding begin_session create_session
begin_session-redirect uuids c config s db db' u k to h = elim (Bool-cases (not s.session_repo)) [
  | inl e ↦ absurd (ground (arith, e, h))
  | inr e ↦ elim (Result-cases (insert_session c db u.id (c.now + session_ttl)).0) [
    | inr (f, g) ↦ absurd (ground (arith, e, g, h))
    | inl (session, g) ↦ record {
      session = session;
      has_session_repo = ground (arith, e);
      is_value = ground (arith, e, g, h);
      is_inserted = ground (arith, e, g, h);
    }
  ]
]

pub record LoggedIn (uuids : Uuids) (c : Conditions) (s : AuthService) (db db' : AuthDb)
    (code : String) (k : Cookie) : Type 0 where
  pub user : User
  pub between : AuthDb
  pub exchanged : Exchanged c s db code user between
  pub opened : Opened uuids c s between db' user k

callback-code :
    (uuids : Uuids) (c : Conditions) (config : OAuthConfig) (s : AuthService) (db : AuthDb)
    (r : Request)
    → str_eq r.code "" ≡ false
    → handle_github_callback uuids c config (some s) db r
      ≡ begin_session uuids c config (some s) (exchange_code_for_user c (some s) db r.code)
unfolding handle_github_callback
callback-code uuids c config s db r e =
    ap
      (λ b.
        if b
        then (http_error "missing oauth code" 400, db)
        else begin_session uuids c config (some s) (exchange_code_for_user c (some s) db r.code))
      e

callback-redirect :
    (uuids : Uuids) (c : Conditions) (config : OAuthConfig) (s : AuthService) (db db' : AuthDb)
    (r : Request) (k : Cookie) (to : String)
    → handle_github_callback uuids c config (some s) db r ≡ (redirect (some k) to, db')
    → LoggedIn uuids c s db db' r.code k
unfolding handle_github_callback
callback-redirect uuids c config s db db' r k to h = elim (Bool-cases (str_eq r.code "")) [
  | inl e ↦ absurd (ground (arith, e, h))
  | inr e ↦ elim (Result-cases (exchange_code_for_user c (some s) db r.code).0) [
    | inr (f, g) ↦ absurd (ground (arith, e, g, h))
    | inl (u, g) ↦
        let d = (exchange_code_for_user c (some s) db r.code).1 in
        let is_exchange : exchange_code_for_user c (some s) db r.code ≡ (ok u, d) =
          ap (λ x. (x, d)) g in
        record {
          user = u;
          between = d;
          exchanged = exchange_code_for_user-ok c s db d r.code u is_exchange;
          opened = begin_session-redirect uuids c config s d db' u k to (
              sym (ap (begin_session uuids c config (some s)) is_exchange)
              ∙ sym (callback-code uuids c config s db r e)
              ∙ h);
        }
  ]
]

-- Over the tables that a callback leaves, before any other login or logout changes them, the cookie that it
-- hands out stands for the account whose GitHub id is the one that GitHub gave for the code: until seven
-- days after the callback, and for nobody from that moment on. The tables were in order before the
-- callback, and the later reads do not fail.
pub callback-session :
    (uuids : Uuids) (laws : UuidLaws uuids) (c later : Conditions) (config : OAuthConfig)
    (s : AuthService) (db db' : AuthDb) (r : Request) (k : Cookie) (to : String)
    → IsValid db
    → handle_github_callback uuids c config (some s) db r ≡ (redirect (some k) to, db')
    → later.session_fails ≡ false
    → later.user_fails ≡ false
    → (client : GitHubClient) × (profile : GitHubUser) × (user : User) × (s.github_client
        ≡ some client)
      × (profile_of client r.code ≡ ok profile)
      × (user.github_id ≡ profile.id)
      × (user_of_cookie uuids later (some s) db' (some k.value)
          ≡ (if ltb later.now (c.now + session_ttl) then some user else none))
callback-session uuids laws c later config s db db' r k to v h sf uf =
    let l = callback-redirect uuids c config s db db' r k to h in
    let x = l.exchanged in
    let o = l.opened in
    let up =
      upsert-ok c db l.between x.profile.id x.profile.login (display_name_of x.profile) l.user
        v.users x.is_upserted in
    let row =
      insert_session-ok c l.between db' l.user.id (c.now + session_ttl) o.session o.is_inserted in
    let owner : find_user db'.users o.session.user_id ≡ some l.user =
      rw (row.of_user, row.same_users) up.is_found in
    (
      x.client,
      x.profile,
      l.user,
      x.has_client,
      x.is_profile,
      up.has_id,
      ap (λ value. user_of_cookie uuids later (some s) db' (some value)) o.is_value
          ∙ user_of_cookie-rows uuids laws later s db' o.session l.user x.has_user_repo
              o.has_session_repo sf uf row.is_found owner
          ∙ ap (λ t. if ltb later.now t then some l.user else none) row.until,
    )
