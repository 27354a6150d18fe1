-- ===== src/OrderedMap.antt =====
-- The JavaScript `Map` and `Set` that the program keeps its state in: an association list in
-- insertion order. Writing a key that is there keeps its place; a new key goes to the end.
mod Defs
mod Laws
mod Entries
unfoldable pub use Defs.*
pub use Laws.*
pub use Entries.*
