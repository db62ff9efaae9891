-- ===== src/Graphql/Access.antt =====
-- Who can publish over POST /graphql (internal/auth/transport, internal/graphql/resolvers and their
-- composition in cmd/graphql-bff/main.go).
use mathlib.Core.Bool.{◌&&◌, not}
use sys_escape.Prelude.{
  ℕ, ◌==◌, ◌≡◌, refl, sym, ◌∙◌, ap, Bool, false, List, [], ◌∷◌, All, subst, Option, none, some,
  String, if◌then◌else◌, ok, err, arith, Option-cases, Bool-cases, Result-cases, inl, inr,
  find_first-ok, ==_iff,
}
use sys_escape.Prelude.Text.{str_eq}
use sys_escape.Auth.Tables.{
  User, Session, find_session, AuthDb, Conditions, find_user, get_session, get_user_by_id,
}
use sys_escape.Auth.Service.{AuthService, validate_session}
use sys_escape.Auth.Transport.{
  Uuids, Request, Handler, user_of_cookie, session_middleware, has_api_key, system_admin,
  admin_api_key_middleware, gql_handler,
}
use sys_escape.Auth.System.{is_system, IsSafe, RealReach, RealReach-IsSafe}
use sys_escape.Auth.Roles.{is_admin, is_admin_row}
use sys_escape.Publishing.Service.{Hashes, Circumstances, PublishDb}
use sys_escape.Graphql.Resolvers.{
  Formats, Resolver, PublishRoomVersionInput, forbidden, publish_room_version,
}

-- The user that the session or, without one, the key of a request stands for.
abbrev pub user_of_key : String → Request → Option User
user_of_key api_key r =
    if not (str_eq api_key "") && has_api_key api_key r then some system_admin else none

abbrev pub session_or : Option User → Option User → Option User
session_or none other = other
session_or (some user) other = some user

session_middleware_lem :
    {A : Type 0} (uuids : Uuids) (c : Conditions) (service : Option AuthService) (db : AuthDb)
    (next : Handler A) (ctx : Option User) (r : Request)
    → session_middleware uuids c service db next ctx r
      ≡ next (session_or (user_of_cookie uuids c service db r.cookie) ctx) r
unfolding session_middleware
session_middleware_lem uuids c service db next ctx r =
    elim (Option-cases (user_of_cookie uuids c service db r.cookie)) [
      | inl e ↦ rw (session_middleware, e) refl
      | inr (u, e) ↦ rw (session_middleware, e) refl
    ]

-- Whatever the server does with a request, it does with the user of the session or, without one, of the
-- key.
pub gql_handler_lem :
    {A : Type 0} (uuids : Uuids) (c : Conditions) (service : Option AuthService) (api_key : String)
    (db : AuthDb) (srv : Handler A) (r : Request)
    → gql_handler uuids c service api_key db srv r
      ≡ srv (session_or (user_of_cookie uuids c service db r.cookie) (user_of_key api_key r)) r
unfolding gql_handler admin_api_key_middleware
gql_handler_lem uuids c service api_key db srv r = elim (Bool-cases (str_eq api_key "")) [
  | inl f ↦ rw f (session_middleware_lem uuids c service db srv none r)
  | inr f ↦ elim (Bool-cases (has_api_key api_key r)) [
    | inl g ↦ rw (f, g) (session_middleware_lem uuids c service db srv (some system_admin) r)
    | inr g ↦ rw (f, g) (session_middleware_lem uuids c service db srv none r)
  ]
]

-- A request is allowed to publish when its session is an administrator's or, without a session, when a
-- key is configured and the request carries it.
abbrev pub may_publish : Option User → String → Request → Bool
may_publish (some user) api_key r = str_eq user.role "ADMIN"
may_publish none api_key r = not (str_eq api_key "") && has_api_key api_key r

publish_room_version-refused :
    (formats : Formats) (resolver : Resolver) (hashes : Hashes) (circumstances : Circumstances)
    (tables : PublishDb) (input : PublishRoomVersionInput) (session : Option User)
    (api_key : String) (r : Request)
    → may_publish session api_key r ≡ false
    → publish_room_version formats resolver hashes circumstances tables input
        (session_or session (user_of_key api_key r))
      ≡ (err forbidden, tables)
unfolding publish_room_version
publish_room_version-refused formats resolver hashes circumstances tables input none api_key r h =
    rw h refl
publish_room_version-refused formats resolver hashes circumstances tables input (some user) api_key
      r h =
    rw h refl

-- Over POST /graphql, a request whose session is not an administrator's, and that has no session and
-- the configured key either, is refused by publishRoomVersion and changes nothing.
pub publish-refused :
    (uuids : Uuids) (c : Conditions) (service : Option AuthService) (api_key : String) (db : AuthDb)
    (r : Request) (formats : Formats) (resolver : Resolver) (hashes : Hashes)
    (circumstances : Circumstances) (tables : PublishDb) (input : PublishRoomVersionInput)
    → may_publish (user_of_cookie uuids c service db r.cookie) api_key r ≡ false
    → gql_handler uuids c service api_key db
        (λ user q. publish_room_version formats resolver hashes circumstances tables input user)
        r
      ≡ (err forbidden, tables)
publish-refused uuids c service api_key db r formats resolver hashes circumstances tables input h =
    gql_handler_lem uuids c service api_key db
      (λ user q. publish_room_version formats resolver hashes circumstances tables input user) r
    ∙ publish_room_version-refused formats resolver hashes circumstances tables input
        (user_of_cookie uuids c service db r.cookie) api_key r h

find_user-id : (us : List User) (id : ℕ) (v : User) → find_user us id ≡ some v → v.id ≡ id
unfolding find_user
find_user-id us id v h = (==_iff v.id id).0 (find_first-ok (λ u. u.id == id) us v h)

validate_session-is_admin :
    (c : Conditions) (service : Option AuthService) (db : AuthDb) (id : ℕ) (u : User)
    → validate_session c service db id ≡ ok u
    → is_admin db.users u.id ≡ str_eq u.role "ADMIN"
unfolding validate_session get_user_by_id is_admin
validate_session-is_admin c none db id u h = absurd (ground (arith, h))
validate_session-is_admin c (some s) db id u h = elim (Result-cases (get_session c db id)) [
  | inr (e, f) ↦ absurd (ground (arith, f, h))
  | inl (row, f) ↦ elim (Option-cases row) [
    | inl g ↦ absurd (ground (arith, f, g, h))
    | inr (t, g) ↦ elim (Option-cases (find_user db.users t.user_id)) [
      | inl k ↦ absurd (ground (arith, f, g, k, h))
      | inr (v, k) ↦
          let same : u ≡ v = ground (arith, f, g, k, h) in
          let is_id : v.id ≡ t.user_id = find_user-id db.users t.user_id v k in
          let here : find_user db.users v.id ≡ some v = ap (find_user db.users) is_id ∙ k in
          rw same (ap is_admin_row here)
    ]
  ]
]

user_of_cookie-is_admin :
    (uuids : Uuids) (c : Conditions) (service : Option AuthService) (db : AuthDb)
    (cookie : Option String) (u : User)
    → user_of_cookie uuids c service db cookie ≡ some u
    → is_admin db.users u.id ≡ str_eq u.role "ADMIN"
unfolding user_of_cookie
user_of_cookie-is_admin uuids c service db none u h = absurd (ground (arith, h))
user_of_cookie-is_admin uuids c service db (some value) u h =
    elim (Option-cases (Uuids.parse uuids value)) [
      | inl e ↦ absurd (ground (arith, e, h))
      | inr (id, e) ↦ elim (Result-cases (validate_session c service db id)) [
        | inr (f, g) ↦ absurd (ground (arith, e, g, h))
        | inl (v, g) ↦ validate_session-is_admin c service db id u (ground (arith, e, g, h))
      ]
    ]

-- The session that a user is read from.
validate_session-owner :
    (c : Conditions) (service : Option AuthService) (db : AuthDb) (id : ℕ) (u : User)
    → validate_session c service db id ≡ ok u
    → (t : Session) × (find_session db.sessions id ≡ some t) × (t.user_id ≡ u.id)
unfolding validate_session get_session get_user_by_id
validate_session-owner c none db id u h = absurd (ground (arith, h))
validate_session-owner c (some s) db id u h = elim (Bool-cases c.session_fails) [
  | inl e ↦ absurd (ground (arith, e, h))
  | inr e ↦ elim (Option-cases (find_session db.sessions id)) [
    | inl g ↦ absurd (ground (arith, e, g, h))
    | inr (t, g) ↦ elim (Option-cases (find_user db.users t.user_id)) [
      | inl k ↦ absurd (ground (arith, e, g, k, h))
      | inr (v, k) ↦
          let same : v ≡ u = ground (arith, e, g, k, h) in
          let is_id : v.id ≡ t.user_id = find_user-id db.users t.user_id v k in
          (t, g, sym is_id ∙ ap (λ (w : User). w.id) same)
    ]
  ]
]

found-All :
    (P : Session → Type 0) (ss : List Session) (id : ℕ) (t : Session)
    → All P ss
    → find_session ss id ≡ some t
    → P t
unfolding find_session
found-All P [] id t h k = cc
found-All P (s ∷ ss) id t h k = elim (Bool-cases (s.id == id)) [
  | inl e ↦ subst P (ground (arith, e, k)) h.0
  | inr e ↦ found-All P ss id t h.1 (ground (arith, e, k))
]

user_of_cookie-is_system :
    (uuids : Uuids) (c : Conditions) (service : Option AuthService) (db : AuthDb)
    (cookie : Option String) (u : User)
    → IsSafe db
    → user_of_cookie uuids c service db cookie ≡ some u
    → is_system db.users u.id ≡ false
unfolding user_of_cookie
user_of_cookie-is_system uuids c service db none u v h = absurd (ground (arith, h))
user_of_cookie-is_system uuids c service db (some value) u v h =
    elim (Option-cases (Uuids.parse uuids value)) [
      | inl e ↦ absurd (ground (arith, e, h))
      | inr (id, e) ↦ elim (Result-cases (validate_session c service db id)) [
        | inr (f, g) ↦ absurd (ground (arith, e, g, h))
        | inl (w, g) ↦
            let (t, found, owner) =
              validate_session-owner c service db id u (ground (arith, e, g, h)) in
            subst (λ i. is_system db.users i ≡ false) owner
              (found-All (λ (s : Session). is_system db.users s.user_id ≡ false) db.sessions id t
                v.sessions found)
      ]
    ]

safe-no_admin :
    (db : AuthDb) (id : ℕ)
    → IsSafe db
    → is_system db.users id ≡ false
    → is_admin db.users id ≡ false
safe-no_admin db id v h = elim (Bool-cases (is_admin db.users id)) [
  | inl e ↦ absurd (ground (arith, v.admins id e, h))
  | inr e ↦ e
]

-- Where the account with GitHub id 0, as migrations/0004 puts it into the table of users, is the only
-- administrator and has no session, and no key is configured, publishRoomVersion is refused to every
-- request and changes nothing: after however many logins through the client of GitHub, whatever it is
-- answered, and however many logouts.
pub publish-never :
    (uuids : Uuids) (c : Conditions) (service : Option AuthService) (db later : AuthDb)
    (r : Request) (formats : Formats) (resolver : Resolver) (hashes : Hashes)
    (circumstances : Circumstances) (tables : PublishDb) (input : PublishRoomVersionInput)
    → IsSafe db
    → RealReach uuids db later
    → gql_handler uuids c service "" later
        (λ user q. publish_room_version formats resolver hashes circumstances tables input user)
        r
      ≡ (err forbidden, tables)
publish-never uuids c service db later r formats resolver hashes circumstances tables input safe
      reach =
    let v = RealReach-IsSafe uuids db reach safe in
    publish-refused uuids c service "" later r formats resolver hashes circumstances tables input
      (elim (Option-cases (user_of_cookie uuids c service later r.cookie)) [
        | inl e ↦ rw e refl
        | inr (u, e) ↦ rw e (
            sym (user_of_cookie-is_admin uuids c service later r.cookie u e)
            ∙ safe-no_admin later u.id v
                (user_of_cookie-is_system uuids c service later r.cookie u v e))
      ])
