-- ===== src/Catalog/Latest.antt =====
-- The join of internal/catalog/repo/room_repo.go against a plain description of the latest version.
use mathlib.Core.Bool.{◌&&◌}
use mathlib.Core.List.{Perm}
use mathlib.Core.Option
use sys_escape.Prelude.{
  ℕ, ◌==◌, ◌≡◌, refl, ap, subst, ◌∙◌, Bool, true, false, List, [], ◌∷◌, Option, none, some, String,
  map, select, find_first, if◌then◌else◌, ok, All, arith, Option-cases, inl, inr,
}
use sys_escape.Prelude.Int.{ℤ, ◌≤ℤ◌, ltb_ℤ, eqb_ℤ, eqb_ℤ_iff}
use sys_escape.Prelude.Text.{str_eq}
use sys_escape.Publishing.Service.{RoomRow, RoomVersion, find_room}
use sys_escape.Publishing.Versions.{Differ, IsUniqueVersion}
use sys_escape.Catalog.RoomRepo.{
  RoomFilter, RoomWithVersion, is_published_of, max_published, matching, rows_of_room, base_query,
  passes, list, first_row, get_by_slug,
}

abbrev newer : RoomVersion → Option RoomVersion → Option RoomVersion
newer v none = some v
newer v (some w) = if ltb_ℤ v.version_number w.version_number then some w else some v

-- The published version of a room with the greatest number.
unfoldable pub latest_published : ℕ → List RoomVersion → Option RoomVersion
latest_published room_id [] = none
latest_published room_id (v ∷ vs) =
    let rest = latest_published room_id vs in
    if is_published_of room_id v then newer v rest else rest

abbrev number_of : Option RoomVersion → Option ℤ
number_of none = none
number_of (some v) = some v.version_number

max_published-number :
    (room_id : ℕ) (vs : List RoomVersion)
    → max_published room_id vs ≡ number_of (latest_published room_id vs)
unfolding max_published latest_published
max_published-number room_id [] = refl
max_published-number room_id (v ∷ vs) = ground (arith, max_published-number room_id vs)

abbrev has_number : ℕ → ℤ → RoomVersion → Bool
has_number room_id n v = v.room_id == room_id && eqb_ℤ v.version_number n

select-Differ :
    (v : RoomVersion) (room_id : ℕ) (n : ℤ) (vs : List RoomVersion)
    → All (Differ v) vs
    → has_number room_id n v ≡ true
    → select (has_number room_id n) vs ≡ []
select-Differ v room_id n [] h e = refl
select-Differ v room_id n (w ∷ ws) h e = ground (
  arith,
  select-Differ v room_id n ws h.1,
  eqb_ℤ_iff v.version_number w.version_number,
  eqb_ℤ_iff w.version_number n,
  eqb_ℤ_iff v.version_number n,
)

select-latest :
    (room_id : ℕ) (vs : List RoomVersion) (w : RoomVersion)
    → IsUniqueVersion vs
    → latest_published room_id vs ≡ some w
    → select (has_number room_id w.version_number) vs ≡ w ∷ []
unfolding latest_published
select-latest room_id [] w u h = cc
select-latest room_id (v ∷ vs) w u h = elim (Option-cases (latest_published room_id vs)) [
  | inl e ↦
      let same : w ≡ v = ground (arith, e, h) in
      ground (arith, e, h, same, select-Differ v room_id w.version_number vs u.0)
  | inr (x, e) ↦
      ground (
        arith,
        e,
        h,
        select-Differ v room_id w.version_number vs u.0,
        select-latest room_id vs w u.1,
      )
]

matching-none : (room : RoomRow) (vs : List RoomVersion) → matching room none vs ≡ []
unfolding matching
matching-none room [] = refl
matching-none room (v ∷ vs) = ground (arith, matching-none room vs)

matching-latest :
    (room : RoomRow) (vs : List RoomVersion)
    → IsUniqueVersion vs
    → rows_of_room room (matching room (max_published room.id vs) vs)
      ≡ record { room = room; latest_version = latest_published room.id vs } ∷ []
unfolding matching
matching-latest room vs u = elim (Option-cases (latest_published room.id vs)) [
  | inl e ↦ rw (max_published-number room.id vs, e, matching-none room vs) refl
  | inr (w, e) ↦ rw (max_published-number room.id vs, e, select-latest room.id vs w u e) refl
]

abbrev pub with_latest : List RoomVersion → RoomRow → RoomWithVersion
with_latest vs room = record { room = room; latest_version = latest_published room.id vs }

base_query-latest :
    (vs : List RoomVersion) (rooms : List RoomRow)
    → IsUniqueVersion vs
    → base_query vs rooms ≡ map (with_latest vs) rooms
unfolding base_query
base_query-latest vs [] u = refl
base_query-latest vs (room ∷ rooms) u =
    rw (matching-latest room vs u, base_query-latest vs rooms u) refl

select-map :
    {A B : Type 0} (p : B → Bool) (f : A → B) (xs : List A)
    → select p (map f xs) ≡ map f (select (λ x. p (f x)) xs)
select-map p f [] = refl
select-map p f (x ∷ xs) = ground (arith, select-map p f xs)

-- The list of rooms, where the query runs and the versions' numbers are unique in each room, has
-- exactly the rooms that pass the filter, each once and with the published version of the greatest number
-- or without one, in whatever order the database's collation puts the titles.
pub list-latest :
    (order : List RoomWithVersion → List RoomWithVersion)
    (permutes : (rows : List RoomWithVersion) → Perm (order rows) rows) (rooms : List RoomRow)
    (vs : List RoomVersion) (filter : RoomFilter)
    → IsUniqueVersion vs
    → (rows : List RoomWithVersion) × (list order false rooms vs filter ≡ ok rows)
      × Perm rows (map (with_latest vs) (select (passes filter) rooms))
unfolding list
list-latest order permutes rooms vs filter u =
    let same =
      ap (select (λ (row : RoomWithVersion). passes filter row.room)) (base_query-latest vs rooms u)
      ∙ select-map (λ (row : RoomWithVersion). passes filter row.room) (with_latest vs) rooms in
    (
      order (select (λ row. passes filter row.room) (base_query vs rooms)),
      refl,
      subst (Perm (order (select (λ row. passes filter row.room) (base_query vs rooms)))) same
          (permutes (select (λ row. passes filter row.room) (base_query vs rooms))),
    )

first_row-select :
    (p : RoomRow → Bool) (vs : List RoomVersion) (rooms : List RoomRow)
    → first_row (map (with_latest vs) (select p rooms))
      ≡ Option.map (with_latest vs) (find_first p rooms)
first_row-select p vs [] = refl
first_row-select p vs (room ∷ rooms) = ground (arith, first_row-select p vs rooms)

-- GetBySlug is the first room with the slug and its latest published version.
pub get_by_slug-latest :
    (rooms : List RoomRow) (vs : List RoomVersion) (slug : String)
    → IsUniqueVersion vs
    → get_by_slug false rooms vs slug ≡ ok (Option.map (with_latest vs) (find_room rooms slug))
unfolding get_by_slug find_room
get_by_slug-latest rooms vs slug u =
    ap (λ rows. ok (first_row (select (λ (row : RoomWithVersion). str_eq row.room.slug slug) rows)))
      (base_query-latest vs rooms u)
    ∙ ap (λ rows. ok (first_row rows))
        (select-map (λ (row : RoomWithVersion). str_eq row.room.slug slug) (with_latest vs) rooms)
    ∙ ap ok (first_row-select (λ room. str_eq room.slug slug) vs rooms)

-- What the latest version of a row is: a published one of the room, with no published one above it.
pub IsLatest : List RoomVersion → ℕ → RoomVersion → Type 0
IsLatest vs room_id w =
    (is_published_of room_id w ≡ true)
    × All (λ v. is_published_of room_id v ≡ true → v.version_number ≤ℤ w.version_number) vs

abbrev BelowNumber : ℕ → ℤ → RoomVersion → Type 0
BelowNumber room_id n v = is_published_of room_id v ≡ true → v.version_number ≤ℤ n

All-Below-mono :
    (room_id : ℕ) (n m : ℤ) (vs : List RoomVersion)
    → n ≤ℤ m
    → All (BelowNumber room_id n) vs
    → All (BelowNumber room_id m) vs
All-Below-mono room_id n m [] h b = tt
All-Below-mono room_id n m (v ∷ vs) h b =
    ((λ p. let below = b.0 p in omega arith), All-Below-mono room_id n m vs h b.1)

All-Below-none :
    (room_id : ℕ) (n : ℤ) (vs : List RoomVersion)
    → latest_published room_id vs ≡ none
    → All (BelowNumber room_id n) vs
unfolding latest_published
All-Below-none room_id n [] h = tt
All-Below-none room_id n (v ∷ vs) h = ground (arith, h, All-Below-none room_id n vs)

latest_published-IsLatest :
    (room_id : ℕ) (vs : List RoomVersion) (w : RoomVersion)
    → latest_published room_id vs ≡ some w
    → IsLatest vs room_id w
unfolding latest_published IsLatest
latest_published-IsLatest room_id [] w h = cc
latest_published-IsLatest room_id (v ∷ vs) w h = elim (Option-cases (latest_published room_id vs)) [
  | inl e ↦ ground (arith, e, h, All-Below-none room_id w.version_number vs)
  | inr (x, e) ↦
      let tail = latest_published-IsLatest room_id vs x e in
      ground (arith, e, h, tail, All-Below-mono room_id x.version_number w.version_number vs)
]
