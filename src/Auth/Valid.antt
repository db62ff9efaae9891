-- ===== src/Auth/Valid.antt =====
-- The tables of internal/auth/repo stay in order whatever handlers of internal/auth/transport run.
use sys_escape.Prelude.{
  ℕ, ◌==◌, ◌≡◌, ◌≢◌, refl, Bool, true, List, [], ◌∷◌, ◌++◌, none, some, map, find_first, select,
  if◌then◌else◌, is_some, All, All-append, ◌||◌, ◌∙◌, arith, String, Option-cases, Bool-cases, not,
  inl, inr,
}
use sys_escape.Prelude.Int.{ℤ, eqb_ℤ_iff}
use sys_escape.Auth.Tables.{
  User, Session, AuthDb, Conditions, find_user, has_github_id, renamed, new_user, upsert_row,
  find_session, new_session, upsert_by_github_id, insert_session, delete_session,
}

-- Neither the ids nor GitHub's ids repeat.
abbrev pub Apart : User → User → Type 0
Apart u v = (u.id ≢ v.id) × (u.github_id ≢ v.github_id)

abbrev pub IsUnique : List User → Type 0
IsUnique [] = Unit
IsUnique (u ∷ us) = All (Apart u) us × IsUnique us

abbrev pub IsUniqueSession : List Session → Type 0
IsUniqueSession [] = Unit
IsUniqueSession (s ∷ ss) = All (λ t. s.id ≢ t.id) ss × IsUniqueSession ss

-- Every session is of a user that is there.
abbrev pub Owned : List User → List Session → Type 0
Owned users = All (λ s. is_some (find_user users s.user_id) ≡ true)

pub record IsValid (db : AuthDb) : Type 0 where
  pub users : IsUnique db.users
  pub sessions : IsUniqueSession db.sessions
  pub owned : Owned db.users db.sessions

abbrev pub rename_one : ℕ → ℤ → String → String → User → User
rename_one now g un dn v = if has_github_id g v then renamed now un dn v else v

-- A row that is in neither index of the table is apart from every row.
Apart-absent :
    (u : User) (us : List User)
    → find_user us u.id ≡ none
    → find_first (has_github_id u.github_id) us ≡ none
    → All (λ v. Apart v u) us
unfolding find_user
Apart-absent u [] h k = tt
Apart-absent u (v ∷ vs) h k = ground (arith, Apart-absent u vs, eqb_ℤ_iff v.github_id u.github_id)

IsUnique-append :
    (u : User) (us : List User) → IsUnique us → All (λ v. Apart v u) us → IsUnique (us ++ u ∷ [])
IsUnique-append u [] h k = (tt, tt)
IsUnique-append u (v ∷ vs) h k = (snoc vs h.0, IsUnique-append u vs h.1 k.1)
  where
    snoc : (ws : List User) → All (Apart v) ws → All (Apart v) (ws ++ u ∷ [])
    snoc [] a = (k.0, tt)
    snoc (w ∷ ws) a = (a.0, snoc ws a.1)

All-Apart-rename :
    (now : ℕ) (g : ℤ) (un dn : String) (u : User) (us : List User)
    → All (Apart u) us
    → All (Apart (rename_one now g un dn u)) (map (rename_one now g un dn) us)
All-Apart-rename now g un dn u [] h = tt
All-Apart-rename now g un dn u (v ∷ vs) h = ground (arith, All-Apart-rename now g un dn u vs h.1)

pub IsUnique-rename :
    (now : ℕ) (g : ℤ) (un dn : String) (us : List User)
    → IsUnique us
    → IsUnique (map (rename_one now g un dn) us)
IsUnique-rename now g un dn [] h = tt
IsUnique-rename now g un dn (u ∷ us) h =
    (All-Apart-rename now g un dn u us h.0, IsUnique-rename now g un dn us h.1)

-- The renamed row is still found under its id.
pub find_user-rename :
    (now : ℕ) (g : ℤ) (un dn : String) (us : List User) (id : ℕ)
    → is_some (find_user (map (rename_one now g un dn) us) id) ≡ is_some (find_user us id)
unfolding find_user
find_user-rename now g un dn [] id = refl
find_user-rename now g un dn (u ∷ us) id = ground (arith, find_user-rename now g un dn us id)

find_user-append :
    (us : List User) (u : User) (id : ℕ)
    → is_some (find_user us id) ≡ true
    → is_some (find_user (us ++ u ∷ []) id) ≡ true
unfolding find_user
find_user-append [] u id h = cc
find_user-append (v ∷ vs) u id h = ground (arith, find_user-append vs u id)

Owned-by :
    (us vs : List User)
    → ((id : ℕ) → is_some (find_user us id) ≡ true → is_some (find_user vs id) ≡ true)
    → (ss : List Session) → Owned us ss
    → Owned vs ss
Owned-by us vs k [] h = tt
Owned-by us vs k (s ∷ ss) h = (k s.user_id h.0, Owned-by us vs k ss h.1)

upsert_row-IsValid :
    (c : Conditions) (db : AuthDb) (g : ℤ) (un dn : String) (u : User) (us : List User)
    → IsValid db
    → upsert_row c db.users g un dn ≡ some (u, us)
    → IsValid (record db { users = us })
unfolding upsert_row
upsert_row-IsValid c db g un dn u us v h =
    elim (Option-cases (find_first (has_github_id g) db.users)) [
      | inr (w, e) ↦
          let same : us ≡ map (rename_one c.now g un dn) db.users = grind (arith, e, h) in
          rw same (record {
            users = IsUnique-rename c.now g un dn db.users v.users;
            sessions = v.sessions;
            owned =
                Owned-by db.users (map (rename_one c.now g un dn) db.users)
                  (λ id k. find_user-rename c.now g un dn db.users id ∙ k) db.sessions v.owned;
          })
      | inl e ↦
          let new = new_user c g un dn in
          let absent : find_user db.users c.user_id ≡ none = ground (arith, e, h) in
          let same : us ≡ db.users ++ new ∷ [] = ground (arith, e, h) in
          rw same (record {
            users = IsUnique-append new db.users v.users (Apart-absent new db.users absent e);
            sessions = v.sessions;
            owned =
                Owned-by db.users (db.users ++ new ∷ []) (find_user-append db.users new) db.sessions
                  v.owned;
          })
    ]

pub upsert-IsValid :
    (c : Conditions) (db : AuthDb) (g : ℤ) (un dn : String)
    → IsValid db
    → IsValid (upsert_by_github_id c db g un dn).1
unfolding upsert_by_github_id
upsert-IsValid c db g un dn v = elim (Bool-cases c.upsert_fails) [
  | inl e ↦ rw e v
  | inr e ↦ elim (Option-cases (upsert_row c db.users g un dn)) [
    | inl k ↦ rw (e, k) v
    | inr (p, k) ↦ rw (e, k) (upsert_row-IsValid c db g un dn p.0 p.1 v k)
  ]
]

IsUniqueSession-append :
    (s : Session) (ss : List Session)
    → IsUniqueSession ss
    → find_session ss s.id ≡ none
    → IsUniqueSession (ss ++ s ∷ [])
unfolding find_session
IsUniqueSession-append s [] h k = (tt, tt)
IsUniqueSession-append s (t ∷ ts) h k =
    (snoc ts h.0, IsUniqueSession-append s ts h.1 (ground arith))
  where
    snoc : (rs : List Session) → All (λ r. t.id ≢ r.id) rs → All (λ r. t.id ≢ r.id) (rs ++ s ∷ [])
    snoc [] a = (ground arith, tt)
    snoc (r ∷ rs) a = (a.0, snoc rs a.1)

pub insert_session-IsValid :
    (c : Conditions) (db : AuthDb) (user_id expires_at : ℕ)
    → IsValid db
    → IsValid (insert_session c db user_id expires_at).1
unfolding insert_session
insert_session-IsValid c db user_id expires_at v =
    elim (Bool-cases (
      c.create_fails
      || is_some (find_session db.sessions c.session_id)
      || not (is_some (find_user db.users user_id)))) [
        | inl e ↦ rw e v
        | inr e ↦ rw e (record {
          users = v.users;
          sessions =
              IsUniqueSession-append (new_session c user_id expires_at) db.sessions v.sessions
                (ground (arith, e));
          owned =
              All-append (λ s. is_some (find_user db.users s.user_id) ≡ true) db.sessions
                (new_session c user_id expires_at ∷ []) v.owned (ground (arith, e), tt);
        })
      ]

All-select :
    {A : Type 0} (P : A → Type 0) (p : A → Bool) (xs : List A) → All P xs → All P (select p xs)
All-select P p [] h = tt
All-select P p (x ∷ xs) h = ground (arith, All-select P p xs h.1)

IsUniqueSession-select :
    (p : Session → Bool) (ss : List Session) → IsUniqueSession ss → IsUniqueSession (select p ss)
IsUniqueSession-select p [] h = tt
IsUniqueSession-select p (s ∷ ss) h =
    ground (arith, All-select (λ t. s.id ≢ t.id) p ss h.0, IsUniqueSession-select p ss h.1)

pub delete_session-IsValid :
    (c : Conditions) (db : AuthDb) (id : ℕ) → IsValid db → IsValid (delete_session c db id).1
unfolding delete_session
delete_session-IsValid c db id v = elim (Bool-cases c.delete_fails) [
  | inl e ↦ rw e v
  | inr e ↦ rw e (record {
    users = v.users;
    sessions = IsUniqueSession-select (λ s. not (s.id == id)) db.sessions v.sessions;
    owned =
        All-select (λ s. is_some (find_user db.users s.user_id) ≡ true) (λ s. not (s.id == id))
          db.sessions v.owned;
  })
]
