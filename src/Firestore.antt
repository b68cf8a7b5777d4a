-- ===== src/Firestore.antt =====
-- google-cloud/firestore: the query of a table.
pub mod Query
