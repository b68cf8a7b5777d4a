-- ===== src/DynamoDb.antt =====
-- aws/dynamodb: the document database on DynamoDB.
pub mod Client
pub mod Filter
pub mod Keys
pub mod Mutex
pub mod Table
