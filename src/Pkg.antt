-- ===== src/Pkg.antt =====
-- pkg: the helpers of the services.
pub mod Libraries
pub mod Crypto
pub mod Jwt
pub mod Ratelimit
