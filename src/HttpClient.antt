-- ===== src/HttpClient.antt =====
-- pkg/customhttp/client.go: requests with cookies, retries, authentication and redirects, over pools
-- of connections.
pub mod Types
pub mod Redirects
pub mod Pools
pub mod Retries
pub mod Challenges
pub mod Requests
mod Tests
