-- ===== src/Mongo.antt =====
-- src/internal/media-repository/mongo-client.cpp: `MongoClient` over the driver's handles.
pub mod Resources
pub mod Client
pub mod Download
pub mod Upload
mod Tests
