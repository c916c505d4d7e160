-- ===== src/Map.antt =====
-- include/cpam/map_ops.h: the maps. The functions take the Entry parameter and the block size B. The
-- variants that differ only in who owns a node (insert_tmpl with copy = true, right and right_2) are
-- one function here.
pub mod Search
pub mod Split
pub mod Insert
pub mod Remove
pub mod Update
pub mod Union
pub mod Range
pub mod MultiFind
pub mod MultiInsert
pub mod MultiDelete
pub mod Intersect
pub mod Difference
