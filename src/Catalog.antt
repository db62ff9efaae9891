-- ===== src/Catalog.antt =====
-- internal/catalog/repo: the rooms, each with its latest published version.
pub mod RoomRepo
pub mod Latest
