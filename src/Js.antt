-- ===== src/Js.antt =====
-- The parts of the JavaScript library that several components use: `Set`, `Map`, the order of
-- texts by UTF-16 code units, and sorting.
pub mod Equality
pub mod Sets
pub mod Maps
pub mod Sorting
