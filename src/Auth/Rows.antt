-- ===== src/Auth/Rows.antt =====
-- What the statements of internal/auth/repo and the exchange of a code give when they succeed.
use sys_escape.Prelude.{
  ℕ, ◌≡◌, ◌≢◌, refl, true, List, [], ◌∷◌, ◌++◌, none, some, String, map, find_first, find_first-ok,
  ok, arith, Option-cases, Bool-cases, Result-cases, inl, inr, All,
}
use sys_escape.Prelude.Int.{ℤ, eqb_ℤ_iff}
use sys_escape.Auth.Tables.{
  User, Session, AuthDb, Conditions, find_user, has_github_id, renamed, new_user, upsert_row,
  upsert_by_github_id, find_session, new_session, insert_session,
}
use sys_escape.Auth.GitHub.{GitHubUser, GitHubClient}
use sys_escape.Auth.Service.{AuthService, profile_of, display_name_of, exchange_code_for_user}
use sys_escape.Auth.Valid.{IsUnique, Apart, rename_one}

find_user-append_new :
    (us : List User) (u : User) → find_user us u.id ≡ none → find_user (us ++ u ∷ []) u.id ≡ some u
unfolding find_user
find_user-append_new [] u h = ground arith
find_user-append_new (v ∷ vs) u h = ground (arith, find_user-append_new vs u)

All-Apart-find :
    (g : ℤ) (u w : User) (us : List User)
    → All (Apart u) us
    → find_first (has_github_id g) us ≡ some w
    → u.id ≢ w.id
All-Apart-find g u w [] h e = cc
All-Apart-find g u w (v ∷ vs) h e = ground (arith, All-Apart-find g u w vs h.1)

-- The renamed row is the one that its id finds, since no other row has it.
find_user-rename_one :
    (now : ℕ) (g : ℤ) (un dn : String) (us : List User) (w : User)
    → IsUnique us
    → find_first (has_github_id g) us ≡ some w
    → find_user (map (rename_one now g un dn) us) w.id ≡ some (renamed now un dn w)
unfolding find_user
find_user-rename_one now g un dn [] w h e = cc
find_user-rename_one now g un dn (v ∷ vs) w h e =
    ground (arith, find_user-rename_one now g un dn vs w h.1, All-Apart-find g v w vs h.0)

pub record Upserted (db db' : AuthDb) (g : ℤ) (u : User) : Type 0 where
  pub is_found : find_user db'.users u.id ≡ some u
  pub has_id : u.github_id ≡ g
  pub same_sessions : db'.sessions ≡ db.sessions

upsert_row-ok :
    (c : Conditions) (us vs : List User) (g : ℤ) (un dn : String) (u : User)
    → IsUnique us
    → upsert_row c us g un dn ≡ some (u, vs)
    → (find_user vs u.id ≡ some u) × (u.github_id ≡ g)
unfolding upsert_row
upsert_row-ok c us vs g un dn u v h = elim (Option-cases (find_first (has_github_id g) us)) [
  | inr (w, e) ↦
      let is_u : u ≡ renamed c.now un dn w = grind (arith, e, h) in
      let is_vs : vs ≡ map (rename_one c.now g un dn) us = grind (arith, e, h) in
      rw (is_u, is_vs)
        (
          find_user-rename_one c.now g un dn us w v e,
          (eqb_ℤ_iff w.github_id g).0 (find_first-ok (has_github_id g) us w e),
        )
  | inl e ↦
      let absent : find_user us c.user_id ≡ none = ground (arith, e, h) in
      let is_u : u ≡ new_user c g un dn = ground (arith, e, h) in
      let is_vs : vs ≡ us ++ new_user c g un dn ∷ [] = ground (arith, e, h) in
      rw (is_u, is_vs) (find_user-append_new us (new_user c g un dn) absent, refl)
]

pub upsert-ok :
    (c : Conditions) (db db' : AuthDb) (g : ℤ) (un dn : String) (u : User)
    → IsUnique db.users
    → upsert_by_github_id c db g un dn ≡ (ok u, db')
    → Upserted db db' g u
unfolding upsert_by_github_id
upsert-ok c db db' g un dn u v h = elim (Bool-cases c.upsert_fails) [
  | inl e ↦ absurd (ground (arith, e, h))
  | inr e ↦ elim (Option-cases (upsert_row c db.users g un dn)) [
    | inl k ↦ absurd (ground (arith, e, k, h))
    | inr (p, k) ↦
        let is_u : u ≡ p.0 = ground (arith, e, k, h) in
        let is_db : db' ≡ record db { users = p.1 } = ground (arith, e, k, h) in
        let row = upsert_row-ok c db.users p.1 g un dn p.0 v k in
        rw (is_u, is_db) (record { is_found = row.0; has_id = row.1; same_sessions = refl })
  ]
]

pub record Inserted (db db' : AuthDb) (user_id expires_at : ℕ) (s : Session) : Type 0 where
  pub is_found : find_session db'.sessions s.id ≡ some s
  pub same_users : db'.users ≡ db.users
  pub of_user : s.user_id ≡ user_id
  pub until : s.expires_at ≡ expires_at

find_session-append_new :
    (ss : List Session) (s : Session)
    → find_session ss s.id ≡ none
    → find_session (ss ++ s ∷ []) s.id ≡ some s
unfolding find_session
find_session-append_new [] s h = ground arith
find_session-append_new (t ∷ ts) s h = ground (arith, find_session-append_new ts s)

pub insert_session-ok :
    (c : Conditions) (db db' : AuthDb) (user_id expires_at : ℕ) (s : Session)
    → insert_session c db user_id expires_at ≡ (ok s, db')
    → Inserted db db' user_id expires_at s
unfolding insert_session
insert_session-ok c db db' user_id expires_at s h =
    let new = new_session c user_id expires_at in
    let absent : find_session db.sessions c.session_id ≡ none = ground (arith, h) in
    let is_s : s ≡ new = ground (arith, h) in
    let is_db : db' ≡ record db { sessions = db.sessions ++ new ∷ [] } = ground (arith, h) in
    rw (is_s, is_db)
      (record {
        is_found = find_session-append_new db.sessions new absent;
        same_users = refl;
        of_user = refl;
        until = refl;
      })

pub record Exchanged (c : Conditions) (s : AuthService) (db : AuthDb) (code : String) (u : User)
    (db' : AuthDb) : Type 0 where
  pub client : GitHubClient
  pub profile : GitHubUser
  pub has_client : s.github_client ≡ some client
  pub has_user_repo : s.user_repo ≡ true
  pub is_profile : profile_of client code ≡ ok profile
  pub is_upserted :
      upsert_by_github_id c db profile.id profile.login (display_name_of profile) ≡ (ok u, db')

pub exchange_code_for_user-ok :
    (c : Conditions) (s : AuthService) (db db' : AuthDb) (code : String) (u : User)
    → exchange_code_for_user c (some s) db code ≡ (ok u, db')
    → Exchanged c s db code u db'
unfolding exchange_code_for_user
exchange_code_for_user-ok c s db db' code u h = elim (Option-cases s.github_client) [
  | inl e ↦ absurd (ground (arith, e, h))
  | inr (client, e) ↦ elim (Result-cases (profile_of client code)) [
    | inr (f, k) ↦ absurd (ground (arith, e, k, h))
    | inl (profile, k) ↦ record {
      client = client;
      profile = profile;
      has_client = e;
      has_user_repo = ground (arith, e, k, h);
      is_profile = k;
      is_upserted = ground (arith, e, k, h);
    }
  ]
]
