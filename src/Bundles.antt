-- ===== src/Bundles.antt =====
-- Room bundles: reading them (internal/engine/a/service/bundle_loader.go), and checking and packing the
-- files of a room (internal/roomctl).
pub mod Paths
pub mod Loader
pub mod Contents
pub mod Check
pub mod Match
pub mod Build
pub mod Archive
