-- ===== src/Config.antt =====
-- internal/builder/configmap.go and config_allowlist.go: the mosquitto.conf that the pods run.
pub mod Defs
unfoldable pub use Defs.*
pub mod Lines
pub mod Locked
