-- ===== src/Tool.antt =====
-- The publishing tool: internal/roomctl/publish.go and graphql_client.go.
pub mod Options
pub mod Defaults
pub mod Client
pub mod Key
pub mod Publish
pub mod Uploaded
