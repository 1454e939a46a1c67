-- ===== src/UpdateMetadata.antt =====
-- tools/update-metadata/src: the manifest of updates, their waves and their migrations.
pub mod Seeds
pub mod Waves
pub mod Migrations
pub mod Manifest
