-- ===== src/Links.antt =====
-- Doubly linked lists by stored links, the shape of every list of the module: the LRU lists, the
-- invalid list and the hash chains of a cache set, the queue of access patterns, the list of I/O
-- flows. `next` and `prev` are the link fields of the nodes, and `null` is the end mark.
pub mod Segments
pub mod Edits
