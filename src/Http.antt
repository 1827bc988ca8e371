-- ===== src/Http.antt =====
-- The HTTP server and the client of other servers: virtual/server.go and virtual/http_client.go.
pub mod Server
pub mod Client
pub mod Remote
pub mod Uploading
mod Tests
