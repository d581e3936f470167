-- ===== src/Lib.antt =====
-- DCDB, a database engine in C: tables, B-tree-like indexes and containers over block files.
-- At its base stands lib/sort.c: doubly linked lists, and "shells", sorted lists with index nodes
-- above them. lib/block.c turns files into numbered blocks and blocks into lists, lib/idxblk.c
-- keeps a cache of index blocks in two such lists, lib/index.c is the index over that cache, and
-- the lib/cdb*.c files are the tables.
--
-- Files, and the code that they model:
--   Prelude, Prelude/*   shared names, Boolean tests, lists of addresses.
--   Links, Links/*       the lists of lib/sort.c with the types of include/sort.h. `insert_link` is
--                        insertLink, `insert_link_here` insertLinkHere, `remove_link` removeLink,
--                        `find_sorted_insert` findSortedInsert, `clear_list` clearList,
--                        `init_list` initList, `del_list` delList, and so on.
--                        A Link is an address; a `Store` maps addresses to the fields next, prev and
--                        data and records what was freed; a `ListHeader` is a value that operations
--                        return changed, so that several lists can share one store.
--   Shells, Shells/*     the shells of lib/sort.c: sorted lists under a chain of nodes with ten levels of
--                        skips. `add_shell_item` is addShellItem, `find_shell_item` findShellItem,
--                        `query_shell_item` queryShellItem, `remove_shell_item` removeShellItem,
--                        `restructure_shell_nodes` restructureShellNodes. A `Shell` is a value with the
--                        shellHeader's fields, its list, the store of the links and the nodes; addresses
--                        that malloc returns for nodes are a list in it, where 0 is NULL.
--   Blocks, Blocks/*     lib/block.c over the file functions of lib/sort.c. `get_file_block` is
--                        getFileBlock, `put_file_block` putFileBlock, `append_file_block`
--                        appendFileBlock, `block_to_list` blockToList, `list_to_block` listToBlock,
--                        and so on. A `File` is the bytes of the file, its place, and the size that
--                        the device lets it reach, at which writes are cut short; a `Heap` extends the
--                        store of the lists by the bytes of allocated buffers. blockToList calls
--                        insertLink of Links.
--   Cache, Cache/*       lib/idxblk.c with the types of include/index.h, over Links and Blocks.
--                        `get_index_block` is getIndexBlock, in the parts `find_back`, `hit`, `victim`,
--                        `flush`, `load`; `get_new_block` is getNewBlock, `flush_index_blocks`
--                        flushIndexBlocks. A `DbIndex` is the dbIndex as a value, with the blocks at
--                        their addresses.
--   Index, Index/*       lib/index.c: `search_exact_index_item` is searchExactIndexItem,
--                        `search_index_item` searchIndexItem, `first_index_item` firstIndexItem, and so
--                        on. An `Index` is a `DbIndex` with the other fields of the dbIndex, among them
--                        the shell `inx` of the keys of the blocks. Its theorems see an index as a
--                        sequence of `Leaf`s; Index/Keys is caseCompare on bytes. `add_index_item` is
--                        addIndexItem, in the parts `add_first`, `add_in_front`, `add_behind`.
--   Tokens, Tokens/*     lib/token.c. `step` is what the label of each state does in getToken, once a
--                        character has been read, `run` follows the jumps, `get_token` is getToken,
--                        `parse_file` ParseFile. A `ParseItem` is the parseItem, with the bytes that
--                        get_next_char may still read in place of the buffer and its pointer.
--   Tests, Tests/*       runs, and the theorems at concrete inputs.
--
-- A shell is calm if the last call made at most 540 comparisons, so that the next one does not
-- restructure it first.
--
-- Fuel: a walk over a list takes one more round than the list has links, and the theorems about
-- walks show that this is enough, so that they are total. The tokenizer's fuel is a number of
-- jumps between states; `enough` computes from the text how many any token takes. `number` is a size_t and wraps at 2^64.
--
-- Not modelled: the contents of `void *` data, which compare functions read; a compare function is
-- a function of two addresses, and the order of a list rests on the contract of a three-way
-- comparison (IsOrder), which Index/Keys proves of caseCompare; noCaseCompare rests on tolower of the locale. Pthread mutexes, debug output and the debugging allocator are left out.
-- What is read behind the end of a buffer, which C leaves undefined, is cut off.
-- The bisection in findSortedInsert is unreachable, since the code sets its argument to 1 first.
pub mod Prelude
pub mod Links
pub mod Shells
pub mod Tokens
pub mod Blocks
pub mod Cache
pub mod Index
mod Tests
