-- ===== src/Controller/Users.antt =====
-- internal/controller/users.go: the credentials of a broker's users, and their statuses.
pub mod Verdicts
pub mod Collect
unfoldable pub use Verdicts.*
unfoldable pub use Collect.*
