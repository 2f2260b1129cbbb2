-- ===== src/Grpc.antt =====
-- grpc/: the interceptors, the builders and the life of a server.
pub mod RequestIdInterceptors
pub mod Interceptors
pub mod Testkit
pub mod Server
pub mod ServerBuilder
pub mod RateLimiter
pub mod Client
