-- ===== src/Catalog/RoomRepo.antt =====
-- internal/catalog/repo/room_repo.go. ORDER BY is a parameter, since the order of titles is the
-- database's. A row of the join has all columns of the version or none of them.
use mathlib.Core.Bool.{◌&&◌}
use sys_escape.Prelude.{
  ℕ, ◌==◌, Bool, true, false, List, [], ◌∷◌, ◌++◌, Option, none, some, String, map, select,
  if◌then◌else◌, Result, ok, err,
}
use sys_escape.Prelude.Int.{ℤ, ltb_ℤ, eqb_ℤ}
use sys_escape.Prelude.Text.{str_eq}
use sys_escape.Publishing.Service.{RoomRow, RoomVersion}

pub data CatalogError : Type 0 where
  query_failed : CatalogError

pub record RoomFilter : Type 0 where
  pub engine : Option String
  pub difficulty : Option String
  pub district : Option String

-- `models.RoomWithLatestVersion`.
pub record RoomWithVersion : Type 0 where
  pub room : RoomRow
  pub latest_version : Option RoomVersion

abbrev pub larger : ℤ → Option ℤ → Option ℤ
larger n none = some n
larger n (some m) = if ltb_ℤ n m then some m else some n

abbrev pub is_published_of : ℕ → RoomVersion → Bool
is_published_of room_id v = v.room_id == room_id && str_eq v.status "PUBLISHED"

-- SELECT MAX(v2.version_number).
unfoldable pub max_published : ℕ → List RoomVersion → Option ℤ
max_published room_id [] = none
max_published room_id (v ∷ vs) =
    let rest = max_published room_id vs in
    if is_published_of room_id v then larger v.version_number rest else rest

-- A comparison with NULL holds of nothing.
abbrev pub is_number : Option ℤ → RoomVersion → Bool
is_number none v = false
is_number (some n) v = eqb_ℤ v.version_number n

unfoldable pub matching : RoomRow → Option ℤ → List RoomVersion → List RoomVersion
matching room n versions = select (λ v. v.room_id == room.id && is_number n v) versions

-- A LEFT JOIN keeps a room that nothing matches.
abbrev pub rows_of_room : RoomRow → List RoomVersion → List RoomWithVersion
rows_of_room room [] = record { room = room; latest_version = none } ∷ []
rows_of_room room (v ∷ vs) =
    map (λ (w : RoomVersion). record { room = room; latest_version = some w }) (v ∷ vs)

unfoldable pub base_query : List RoomVersion → List RoomRow → List RoomWithVersion
unfolding matching max_published
base_query versions [] = []
base_query versions (room ∷ rooms) =
    rows_of_room room (matching room (max_published room.id versions) versions)
    ++ base_query versions rooms

abbrev pub is_wanted : Option String → String → Bool
is_wanted none value = true
is_wanted (some wanted) value = str_eq value wanted

unfoldable pub passes : RoomFilter → RoomRow → Bool
passes filter room =
    is_wanted filter.engine room.engine
    && is_wanted filter.difficulty room.difficulty
    && is_wanted filter.district room.district

unfoldable pub list :
    (List RoomWithVersion → List RoomWithVersion)
    → Bool
    → List RoomRow
    → List RoomVersion
    → RoomFilter
    → Result CatalogError (List RoomWithVersion)
unfolding base_query passes
list order_by_title fails rooms versions filter =
    if fails
    then err query_failed
    else ok (order_by_title (select (λ row. passes filter row.room) (base_query versions rooms)))

abbrev pub first_row : List RoomWithVersion → Option RoomWithVersion
first_row [] = none
first_row (row ∷ rows) = some row

unfoldable pub get_by_slug :
    Bool → List RoomRow → List RoomVersion → String → Result CatalogError (Option RoomWithVersion)
unfolding base_query
get_by_slug fails rooms versions slug =
    if fails
    then err query_failed
    else ok (first_row (select (λ row. str_eq row.room.slug slug) (base_query versions rooms)))
