-- ===== src/CosmosDb.antt =====
-- azure/cosmos-db: a table of Cosmos DB.
pub mod Keys
pub mod Query
pub mod Retry
pub mod Table
