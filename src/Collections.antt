-- ===== src/Collections.antt =====
-- The standard library's maps and sets, as far as the program uses them.
pub mod HashMap
pub mod BTreeMap
pub mod BTreeSet
