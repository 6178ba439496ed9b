-- ===== src/Db.antt =====
-- The document database: internal/db/dapr.go, over the Dapr client of internal/db/dapr.go:27.
--
-- The client and encoding/json are not part of this repository: they are parameters. An operation
-- is an action on the state of the store; an error of the client ends it, as in the source.
pub mod Store
pub mod Servers
pub mod Whitelist
pub mod Backups
pub mod Settings
pub mod Laws
