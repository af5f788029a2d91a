-- ===== src/Db.antt =====
-- src/db/: the SQLite database and its repositories.
pub mod Tables
pub mod Cache
pub mod Security
pub mod Connectors
pub mod Nodes
pub mod Namespaces
pub mod ObjectNodes
