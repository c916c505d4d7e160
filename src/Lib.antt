-- ===== src/Lib.antt =====
-- The purely functional search trees of include/cpam (CPAM), whose leaves are compressed blocks of
-- entries.
--
-- The parts, from the bottom up, with the file that models each:
--
-- * Search (include/cpam/utils.h): PAM_binary_search, on arrays.
-- * Node (include/cpam/basic_node.h): a tree is NULL, a regular node with a 32-bit size field, an
--   entry and two children, or a compressed node, a block of entries. Node has size, update, single,
--   the walks iterate_seq and iterate_cond, and finalize. A callback with captured variables is a
--   function on the state of those variables.
-- * Node/Blocks (include/cpam/basic_node_helpers.h): make_compressed and the functions that lay a
--   buffer out as one, two or four blocks.
-- * Balance (include/cpam/weight_balanced_tree.h, include/cpam/balance_utils.h): weights, rotations
--   and node_join, which joins two trees around an entry. The tests on doubles are tests on products
--   of natural numbers that agree with them on all 32-bit weights.
-- * Seq (include/cpam/sequence_ops.h): to_tree_impl, expose, join, join2 and from_array. Seq/Rank:
--   select, take, suffix and subseq. Seq/Bulk: map, filter, reverse. Seq/Walk: map_reduce,
--   foreach_cond, foreach_seq, node_stats. Seq/Scan: foreach_index, find_unsorted, is_sorted,
--   foreach_cond_par.
-- * Coding (include/cpam/byte_encode.h): encodeUnsigned and decodeUnsigned. Coding/Blocks
--   (diffencoded_entry_encoder of include/cpam/compression.h): the bytes of a block, its first key, the
--   coded differences of the others and the values. Elsewhere a block is the list of its entries.
-- * Gc (include/cpam/gc.h, and the counts of include/cpam/basic_node.h): nodes at addresses, each with the
--   number of references to it; decrement_recursive, copy and copy_if_needed. Gc/Handles: gc::ptr.
-- * Aug (include/cpam/augmented_node.h): nodes that keep the sum of the entries below them, in a monoid.
--   Aug/Sums (include/cpam/augmented_ops.h): sums over ranges of keys, and aug_select.
-- * Entry (map_full_entry of include/cpam/map.h): the interface of entries, keys, values and the
--   comparison of keys, with the laws of a strict total order. That the operator <= of the keys, which
--   left, right and range_2 use in blocks, agrees with the comparison is a hypothesis of theirs.
-- * Map (include/cpam/map_ops.h): Search (find, find2, rank), MultiFind (multi_find_sorted), Split, Insert (insert_tmpl,
--   insert_compressed2), Remove (deletet), Update (update_tmpl), Range (left, right, range_2),
--   MultiInsert (multi_insert_sorted, multiinsert_bc), MultiDelete (multi_delete_sorted,
--   multidelete_bc), and Union, Intersect and Difference with their base cases union_bc, intersect_bc
--   and difference_bc.
-- * Build (include/cpam/build.h): from an unsorted array to one in the order of its keys; parlay's sort is a
--   parameter, of which an ordered permutation is asked. Build/Reduced has
--   sort_reduce_duplicates, with the positions that it packs into 32 bits.
-- * PublicMap (map_ of include/cpam/map.h): the class that users see; a map is its root.
--
-- Every operation on maps is built from expose and split, which take trees apart, and from node_join
-- and join2, which put them together. `Holds xs t` says that the size fields of t are right and that
-- its entries, from left to right, are xs; it is the specification language of Node, Balance and Seq.
-- `Refines ent m t` says that in addition the entries are in the order of their keys and that a key
-- finds in t what the function m says; it is that of Map. `Entry.Sides` is the step that the set
-- operations share: a map from its two sides of a key. Examples has concrete trees with blocks of 2 to
-- 4 entries.
--
-- Base has the helpers: lists over native numbers, Boolean tests, if-then-else, and machine words with
-- their wrap-around written out (a size field is taken modulo 2 ^ 32, a size_t modulo 2 ^ 64).
--
-- Recursion. Most functions recur on a tree. Those that expose a block make it a tree first, and run
-- on fuel: split, deletet, foreach_seq, multi_insert_sorted, multi_delete_sorted, uniont, intersect and
-- difference get one more than the number of entries of the tree that they expose, and each call exposes a tree with
-- fewer entries; to_tree_impl, from_array and binary_search get the length of the array, which each
-- call halves; decrement_recursive gets one more than the nodes in use, since a call that goes on has freed
-- one, and encode_loop the number that it writes, which each turn makes smaller.
--
-- Not modelled: the debug checks of include/cpam/sequence_ops.h, the other functions of
-- include/cpam/map_ops.h (insertions with a map on the values, updates in place), aug_filter and
-- insert_lazy of include/cpam/augmented_ops.h (they rebuild trees of augmented nodes),
-- sort_combine_duplicates (it calls the reduce of parlay) and sort_combine_duplicates_inplace (it
-- compiles for no entry type of the library) of include/cpam/build.h, range of include/cpam/map_ops.h
-- (range_2 is what is called), the methods of include/cpam/map.h that only pass their arguments on,
-- the allocator, and the parallel execution of two independent calls. Outside Gc an operation that
-- consumes a tree is a pure function. include/pam and examples are outside.
pub mod Base
pub mod Search
pub mod Coding
pub mod Aug
pub mod Gc
pub mod Node
pub mod Balance
pub mod Seq
pub mod Entry
pub mod Map
pub mod Build
pub mod PublicMap
pub mod Examples
