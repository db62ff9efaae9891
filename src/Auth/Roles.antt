-- ===== src/Auth/Roles.antt =====
-- The handlers of internal/auth/transport leave the roles of internal/auth/repo alone.
use sys_escape.Prelude.{
  ℕ, ◌≡◌, refl, Bool, false, List, [], ◌∷◌, ◌++◌, Option, none, some, String, map, find_first,
  arith, Option-cases, Bool-cases, inl, inr,
}
use sys_escape.Prelude.Int.{ℤ}
use sys_escape.Prelude.Text.{str_eq}
use sys_escape.Auth.Tables.{
  User, AuthDb, Conditions, find_user, has_github_id, new_user, upsert_row, upsert_by_github_id,
  insert_session, delete_session,
}
use sys_escape.Auth.Valid.{rename_one}

abbrev pub is_admin_row : Option User → Bool
is_admin_row none = false
is_admin_row (some u) = str_eq u.role "ADMIN"

-- An id stands for an administrator.
unfoldable pub is_admin : List User → ℕ → Bool
unfolding find_user
is_admin users id = is_admin_row (find_user users id)

is_admin-rename :
    (now : ℕ) (g : ℤ) (un dn : String) (us : List User) (id : ℕ)
    → is_admin (map (rename_one now g un dn) us) id ≡ is_admin us id
unfolding is_admin
is_admin-rename now g un dn [] id = refl
is_admin-rename now g un dn (u ∷ us) id = ground (arith, is_admin-rename now g un dn us id)

is_admin-append :
    (us : List User) (u : User) (id : ℕ)
    → str_eq u.role "ADMIN" ≡ false
    → is_admin (us ++ u ∷ []) id ≡ is_admin us id
unfolding is_admin
is_admin-append [] u id h = ground (arith, h)
is_admin-append (v ∷ vs) u id h = ground (arith, is_admin-append vs u id h)

is_admin-upsert_row :
    (c : Conditions) (users us : List User) (g : ℤ) (un dn : String) (u : User) (id : ℕ)
    → upsert_row c users g un dn ≡ some (u, us)
    → is_admin us id ≡ is_admin users id
unfolding upsert_row
is_admin-upsert_row c users us g un dn u id h =
    elim (Option-cases (find_first (has_github_id g) users)) [
      | inr (w, e) ↦
          let same : us ≡ map (rename_one c.now g un dn) users = grind (arith, e, h) in
          rw same (is_admin-rename c.now g un dn users id)
      | inl e ↦
          let same : us ≡ users ++ new_user c g un dn ∷ [] = ground (arith, e, h) in
          rw same (is_admin-append users (new_user c g un dn) id refl)
    ]

pub is_admin-upsert :
    (c : Conditions) (db : AuthDb) (g : ℤ) (un dn : String) (id : ℕ)
    → is_admin (upsert_by_github_id c db g un dn).1.users id ≡ is_admin db.users id
unfolding upsert_by_github_id
is_admin-upsert c db g un dn id = elim (Bool-cases c.upsert_fails) [
  | inl e ↦ rw e refl
  | inr e ↦ elim (Option-cases (upsert_row c db.users g un dn)) [
    | inl k ↦ rw (e, k) refl
    | inr (p, k) ↦ rw (e, k) (is_admin-upsert_row c db.users p.1 g un dn p.0 id k)
  ]
]

pub users-insert_session :
    (c : Conditions) (db : AuthDb) (user_id expires_at : ℕ)
    → (insert_session c db user_id expires_at).1.users ≡ db.users
unfolding insert_session
users-insert_session c db user_id expires_at = ground arith

pub users-delete_session :
    (c : Conditions) (db : AuthDb) (id : ℕ) → (delete_session c db id).1.users ≡ db.users
unfolding delete_session
users-delete_session c db id = ground arith
