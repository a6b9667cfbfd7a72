-- ===== src/Auth.antt =====
-- internal/auth: the users bound to a broker, turned into what the broker's plugins read.
pub mod Defs
pub mod Hash
pub mod Files
pub mod Render
pub mod Admitted
pub mod Verified
pub mod Winners
pub mod ReadBack
pub mod Entries
pub mod Fits
pub mod Distinct
pub mod Settles
pub mod Authenticated
pub use Files.{passwd_key, acl_key}
