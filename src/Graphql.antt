-- ===== src/Graphql.antt =====
-- internal/graphql/resolvers: the requests that reach the services and the catalog.
pub mod Resolvers
pub mod Access
pub mod Play
