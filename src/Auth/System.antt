-- ===== src/Auth/System.antt =====
-- The administrator of migrations/0004_add_system_admin_user.up.sql, whose GitHub id is 0, and the logins
-- of internal/auth.
use mathlib.Core.Bool.{not, ◌||◌}
use sys_escape.Prelude.{
  ℕ, ◌+◌, ◌≡◌, ◌≢◌, refl, sym, ap, ◌∙◌, subst, Bool, true, false, List, [], ◌∷◌, ◌++◌, Option, none,
  some, String, map, select, find_first, if◌then◌else◌, Result, ok, err, All, All-append, is_some,
  arith, Option-cases, Bool-cases, inl, inr,
}
use sys_escape.Prelude.Int.{ℤ, pos, eqb_ℤ, eqb_ℤ_iff}
use sys_escape.Prelude.Text.{str_eq}
use sys_escape.Auth.Tables.{
  User, Session, AuthDb, Conditions, AuthError, find_user, find_session, has_github_id, new_user,
  new_session, upsert_row, upsert_by_github_id, insert_session, delete_session,
}
use sys_escape.Auth.GitHub.{GitHubUser, OAuthConfig, Http, real_github_client}
use sys_escape.Auth.Service.{
  AuthService, profile_of, display_name_of, upsert_profile, exchange_code_for_user, create_session,
  logout, session_ttl,
}
use sys_escape.Auth.Transport.{
  Uuids, Request, http_error, session_response, begin_session, handle_github_callback,
  ended_session, handle_logout,
}
use sys_escape.Auth.Valid.{
  IsValid, rename_one, upsert-IsValid, insert_session-IsValid, delete_session-IsValid,
}
use sys_escape.Auth.Rows.{upsert-ok}
use sys_escape.Auth.Roles.{is_admin, is_admin-upsert}
use sys_escape.Auth.Profile.{profile_of-ok}

abbrev is_system_row : Option User → Bool
is_system_row none = false
is_system_row (some u) = eqb_ℤ u.github_id (pos 0)

-- An id stands for the account with GitHub id 0.
unfoldable pub is_system : List User → ℕ → Bool
unfolding find_user
is_system users id = is_system_row (find_user users id)

-- Only the account with GitHub id 0 is an administrator, and it has no session.
pub record IsSafe (db : AuthDb) : Type 0 where
  pub valid : IsValid db
  pub admins : (id : ℕ) → is_admin db.users id ≡ true → is_system db.users id ≡ true
  pub sessions : All (λ (s : Session). is_system db.users s.user_id ≡ false) db.sessions

is_system-rename :
    (now : ℕ) (g : ℤ) (un dn : String) (us : List User) (id : ℕ)
    → is_system (map (rename_one now g un dn) us) id ≡ is_system us id
unfolding is_system
is_system-rename now g un dn [] id = refl
is_system-rename now g un dn (u ∷ us) id = ground (arith, is_system-rename now g un dn us id)

is_system-append :
    (us : List User) (u : User) (id : ℕ)
    → eqb_ℤ u.github_id (pos 0) ≡ false
    → is_system (us ++ u ∷ []) id ≡ is_system us id
unfolding is_system
is_system-append [] u id h = ground (arith, h)
is_system-append (v ∷ vs) u id h = ground (arith, is_system-append vs u id h)

is_system-upsert_row :
    (c : Conditions) (users us : List User) (g : ℤ) (un dn : String) (u : User) (id : ℕ)
    → eqb_ℤ g (pos 0) ≡ false
    → upsert_row c users g un dn ≡ some (u, us)
    → is_system us id ≡ is_system users id
unfolding upsert_row
is_system-upsert_row c users us g un dn u id z h =
    elim (Option-cases (find_first (has_github_id g) users)) [
      | inr (w, e) ↦
          let same : us ≡ map (rename_one c.now g un dn) users = grind (arith, e, h) in
          rw same (is_system-rename c.now g un dn users id)
      | inl e ↦
          let same : us ≡ users ++ new_user c g un dn ∷ [] = ground (arith, e, h) in
          rw same (is_system-append users (new_user c g un dn) id z)
    ]

is_system-upsert :
    (c : Conditions) (db : AuthDb) (g : ℤ) (un dn : String) (id : ℕ)
    → eqb_ℤ g (pos 0) ≡ false
    → is_system (upsert_by_github_id c db g un dn).1.users id ≡ is_system db.users id
unfolding upsert_by_github_id
is_system-upsert c db g un dn id z = elim (Bool-cases c.upsert_fails) [
  | inl e ↦ rw e refl
  | inr e ↦ elim (Option-cases (upsert_row c db.users g un dn)) [
    | inl k ↦ rw (e, k) refl
    | inr (p, k) ↦ rw (e, k) (is_system-upsert_row c db.users p.1 g un dn p.0 id z k)
  ]
]

sessions-upsert :
    (c : Conditions) (db : AuthDb) (g : ℤ) (un dn : String)
    → (upsert_by_github_id c db g un dn).1.sessions ≡ db.sessions
unfolding upsert_by_github_id
sessions-upsert c db g un dn = elim (Bool-cases c.upsert_fails) [
  | inl e ↦ rw e refl
  | inr e ↦ elim (Option-cases (upsert_row c db.users g un dn)) [
    | inl k ↦ rw (e, k) refl
    | inr (p, k) ↦ rw (e, k) refl
  ]
]

-- Sessions of nobody special stay so under tables of users that agree.
All-agree :
    (us vs : List User) (ss : List Session)
    → ((id : ℕ) → is_system vs id ≡ is_system us id)
    → All (λ (s : Session). is_system us s.user_id ≡ false) ss
    → All (λ (s : Session). is_system vs s.user_id ≡ false) ss
All-agree us vs [] same h = tt
All-agree us vs (s ∷ ss) same h = (same s.user_id ∙ h.0, All-agree us vs ss same h.1)

All-select :
    (P : Session → Type 0) (b : Session → Bool) (ss : List Session) → All P ss → All P (select b ss)
All-select P b [] h = tt
All-select P b (s ∷ ss) h = elim (Bool-cases (b s)) [
  | inl e ↦ rw e (h.0, All-select P b ss h.1)
  | inr e ↦ rw e (All-select P b ss h.1)
]

upsert-IsSafe :
    (c : Conditions) (db : AuthDb) (g : ℤ) (un dn : String)
    → eqb_ℤ g (pos 0) ≡ false
    → IsSafe db
    → IsSafe (upsert_by_github_id c db g un dn).1
upsert-IsSafe c db g un dn z v =
    let after = (upsert_by_github_id c db g un dn).1 in
    let same = λ (id : ℕ). is_system-upsert c db g un dn id z in
    record {
      valid = upsert-IsValid c db g un dn v.valid;
      admins = λ id h. same id ∙ v.admins id (sym (is_admin-upsert c db g un dn id) ∙ h);
      sessions =
          subst (All (λ (s : Session). is_system after.users s.user_id ≡ false))
            (sym (sessions-upsert c db g un dn))
            (All-agree db.users after.users db.sessions same v.sessions);
    }

insert_session-IsSafe :
    (c : Conditions) (db : AuthDb) (user_id expires_at : ℕ)
    → is_system db.users user_id ≡ false
    → IsSafe db
    → IsSafe (insert_session c db user_id expires_at).1
unfolding insert_session
insert_session-IsSafe c db user_id expires_at free v = record {
  valid = insert_session-IsValid c db user_id expires_at v.valid;
  admins = λ id h. ground (arith, v.admins id, h);
  sessions =
      let guard =
        c.create_fails
        || is_some (find_session db.sessions c.session_id)
        || not (is_some (find_user db.users user_id)) in
      let P : Session → Type 0 = λ s. is_system db.users s.user_id ≡ false in
      elim (Bool-cases guard) [
        | inl e ↦ rw e v.sessions
        | inr e ↦
            rw e (
              All-append P db.sessions (new_session c user_id expires_at ∷ []) v.sessions
                (free, tt))
      ];
}

delete_session-IsSafe :
    (c : Conditions) (db : AuthDb) (id : ℕ) → IsSafe db → IsSafe (delete_session c db id).1
unfolding delete_session
delete_session-IsSafe c db id v = elim (Bool-cases c.delete_fails) [
  | inl e ↦ rw e v
  | inr e ↦ record {
    valid = delete_session-IsValid c db id v.valid;
    admins = rw e v.admins;
    sessions = rw e (
        All-select (λ (s : Session). is_system db.users s.user_id ≡ false) _ db.sessions
          v.sessions);
  }
]

-- What an exchange leaves: tables in order, and a user who is not the account with GitHub id 0.
IsExchanged : Result AuthError User × AuthDb → Type 0
IsExchanged r = IsSafe r.1 × ((u : User) → r.0 ≡ ok u → is_system r.1.users u.id ≡ false)

nonzero : (g : ℤ) → g ≢ pos 0 → eqb_ℤ g (pos 0) ≡ false
nonzero g h = elim (Bool-cases (eqb_ℤ g (pos 0))) [
  | inl e ↦ absurd (h ((eqb_ℤ_iff g (pos 0)).0 e))
  | inr e ↦ e
]

if-IsSafe :
    {A : Type 0} (b : Bool) (x y : A × AuthDb)
    → IsSafe x.1
    → IsSafe y.1
    → IsSafe (if b then x else y).1
if-IsSafe true x y h k = h
if-IsSafe false x y h k = k

module _ (http : Http) (config : OAuthConfig) (c : Conditions) where
  upserted-IsExchanged :
      (db : AuthDb) (g : ℤ) (un dn : String)
      → g ≢ pos 0
      → IsSafe db
      → IsExchanged (upsert_by_github_id c db g un dn)
  unfolding IsExchanged is_system
  upserted-IsExchanged db g un dn z v = (
    upsert-IsSafe c db g un dn (nonzero g z) v,
    λ u h.
        let after = (upsert_by_github_id c db g un dn).1 in
        let up = upsert-ok c db after g un dn u v.valid.users (ap (λ r. (r, after)) h) in
        rw up.is_found (rw up.has_id (nonzero g z)),
  )

  upsert_profile-IsExchanged :
      (db : AuthDb) (p : Result AuthError GitHubUser)
      → ((profile : GitHubUser) → p ≡ ok profile → profile.id ≢ pos 0)
      → IsSafe db
      → IsExchanged (upsert_profile c db p)
  unfolding upsert_profile IsExchanged
  upsert_profile-IsExchanged db (err e) h v = (v, λ u k. cc)
  upsert_profile-IsExchanged db (ok p) h v =
      upserted-IsExchanged db p.id p.login (display_name_of p) (h p refl) v

  exchange-IsExchanged :
      (s : AuthService) (db : AuthDb) (code : String)
      → s.github_client ≡ some (real_github_client http config)
      → IsSafe db
      → IsExchanged (exchange_code_for_user c (some s) db code)
  unfolding exchange_code_for_user IsExchanged
  exchange-IsExchanged s db code real v = elim (Bool-cases (str_eq code "")) [
    | inl e ↦ rw e (v, λ u k. cc)
    | inr e ↦ elim (Bool-cases (not s.user_repo)) [
      | inl g ↦ rw (e, real, g) (v, λ u k. cc)
      | inr g ↦
          rw (e, real, g)
            (upsert_profile-IsExchanged db (profile_of (real_github_client http config) code)
              (λ profile k. (profile_of-ok http config code profile k).0) v)
    ]
  ]

  create_session-IsSafe :
      (s : AuthService) (db : AuthDb) (user_id : ℕ)
      → is_system db.users user_id ≡ false
      → IsSafe db
      → IsSafe (create_session c (some s) db user_id).1
  unfolding create_session
  create_session-IsSafe s db user_id free v = elim (Bool-cases (not s.session_repo)) [
    | inl e ↦ rw e v
    | inr e ↦ rw e (insert_session-IsSafe c db user_id (c.now + session_ttl) free v)
  ]

  response-IsSafe :
      (uuids : Uuids) (cfg : OAuthConfig) (p : Result AuthError Session × AuthDb)
      → IsSafe p.1
      → IsSafe (session_response uuids cfg p).1
  response-IsSafe uuids cfg (err e, db) h = h
  response-IsSafe uuids cfg (ok s, db) h = h

  begin_session-IsSafe :
      (uuids : Uuids) (cfg : OAuthConfig) (s : AuthService) (p : Result AuthError User × AuthDb)
      → IsExchanged p
      → IsSafe (begin_session uuids c cfg (some s) p).1
  unfolding begin_session IsExchanged
  begin_session-IsSafe uuids cfg s (err e, db) h = h.0
  begin_session-IsSafe uuids cfg s (ok u, db) h =
      response-IsSafe uuids cfg (create_session c (some s) db u.id)
        (create_session-IsSafe s db u.id (h.1 u refl) h.0)

  callback-IsSafe :
      (uuids : Uuids) (cfg : OAuthConfig) (s : AuthService) (db : AuthDb) (r : Request)
      → s.github_client ≡ some (real_github_client http config)
      → IsSafe db
      → IsSafe (handle_github_callback uuids c cfg (some s) db r).1
  unfolding handle_github_callback
  callback-IsSafe uuids cfg s db r real v =
      if-IsSafe (str_eq r.code "") (http_error "missing oauth code" 400, db)
        (begin_session uuids c cfg (some s) (exchange_code_for_user c (some s) db r.code)) v
        (begin_session-IsSafe uuids cfg s (exchange_code_for_user c (some s) db r.code)
          (exchange-IsExchanged s db r.code real v))

logout-IsSafe :
    (c : Conditions) (service : Option AuthService) (db : AuthDb) (id : ℕ)
    → IsSafe db
    → IsSafe (logout c service db id).1
unfolding logout
logout-IsSafe c none db id v = v
logout-IsSafe c (some s) db id v = elim (Bool-cases (not s.session_repo)) [
  | inl e ↦ rw e v
  | inr e ↦ rw e (delete_session-IsSafe c db id v)
]

handle_logout-IsSafe :
    (uuids : Uuids) (c : Conditions) (service : Option AuthService) (db : AuthDb) (r : Request)
    → IsSafe db
    → IsSafe (handle_logout uuids c service db r).1
unfolding handle_logout
handle_logout-IsSafe uuids c service db r v = elim (Option-cases r.cookie) [
  | inl e ↦ rw e v
  | inr (value, e) ↦ elim (Option-cases (Uuids.parse uuids value)) [
    | inl f ↦ rw (e, ended_session, f) v
    | inr (id, f) ↦ rw (e, ended_session, f) (logout-IsSafe c service db id v)
  ]
]

-- Logins through the client of GitHub, whatever answers it gets, and logouts, in any order.
pub data RealReach (uuids : Uuids) (db : AuthDb) : AuthDb → Type 0 where
  here : RealReach uuids db db
  logs_in :
      {d e : AuthDb} (c : Conditions) (http : Http) (github : OAuthConfig) (config : OAuthConfig)
      (s : AuthService) (r : Request)
      → RealReach uuids db d
      → s.github_client ≡ some (real_github_client http github)
      → e ≡ (handle_github_callback uuids c config (some s) d r).1
      → RealReach uuids db e
  logs_out :
      {d e : AuthDb} (c : Conditions) (service : Option AuthService) (r : Request)
      → RealReach uuids db d
      → e ≡ (handle_logout uuids c service d r).1
      → RealReach uuids db e

pub RealReach-IsSafe :
    (uuids : Uuids) (db : AuthDb) {e : AuthDb} → RealReach uuids db e → IsSafe db → IsSafe e
RealReach-IsSafe uuids db here v = v
RealReach-IsSafe uuids db (logs_in {d} c http github config s r reach real e) v =
    rw e (callback-IsSafe http github c uuids config s d r real (RealReach-IsSafe uuids db reach v))
RealReach-IsSafe uuids db (logs_out {d} c service r reach e) v =
    rw e (handle_logout-IsSafe uuids c service d r (RealReach-IsSafe uuids db reach v))
