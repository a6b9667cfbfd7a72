-- ===== src/Labels.antt =====
-- internal/common/labels.go: the shared labels, the names derived from a resource, and the maps
-- of labels and annotations that the operator merges into objects others write too.
pub mod Defs
pub mod Valid
pub mod Merge
pub mod Removed
unfoldable pub use Defs.*
