-- ===== src/Lib.antt =====
-- sql6: a small SQL database engine. A lexer and a parser turn SQL into statements, and a planner turns
-- those into plans, with the catalog's tables and views. Rows live in B+trees whose nodes are pages;
-- the catalog's descriptions are stored in such a tree; a write-ahead log makes page writes atomic;
-- caches and page locks stand before the storage; statements run in a transaction.
--
-- Parts and files (source paths from the repository's root):
--   Btree/Node, Btree/Node/Order    src/btree/node.rs: nodes, keys and their derived order.
--   Btree/Tree, Tree/Insert, Tree/Delete  src/btree/tree.rs over any storage; each method of
--     `BPlusTree` is the function of its name, with the pure edits of nodes split off. Tree/Leaf and
--     Tree/Room are about insertions into leaves, Tree/Descent about the way to a leaf in a tree of any
--     height, Tree/Split, Tree/Borrow and Tree/Merge about splits, loans and merges.
--   Pager/Codec                     src/pager/codec.rs: nodes as pages of 4096 bytes. Codec/Pieces,
--     Codec/RoundTrip and Codec/Oversize are about reading them back.
--   Pager/Wal, Wal/File, Wal/Frames src/pager/wal.rs: the log as a file of bytes and the maps in
--     memory. Wal/Log is about the file, Wal/Recover about `replay`, Wal/Durable about restarts and
--     crashes, Wal/ReadWrite about readers, Wal/Session about the other calls.
--   Pager/PageLock                  src/pager/page_lock.rs: the lock table and its guards;
--     PageLock/Steps has the runs of threads that take locks and drop guards; Pager/Locked is
--     `LockedStorage`.
--   Pager/Cache, Pager/Bloom        src/pager/cache.rs: `PageCache` and `BloomFilter`.
--   Pager/Storage                   src/pager/storage.rs: the trait as a record of operations,
--     `MemoryStorage` and `LruCacheStorage`; Storage/Coherent has the laws that clients rely on.
--   Table/Schema, Table/Row, Table/Serialize, Table/Rows  src/table: columns, rows, rows as bytes, and
--     the table over a B+tree (src/table/table.rs); Rows/Get is about a row that was inserted.
--   Catalog/Meta                    src/catalog/meta.rs: descriptions of tables and triggers.
--   Catalog/State                   src/catalog/catalog.rs: the catalog, its maps and its tree.
--     State/Named is about the maps under every call, State/Stored about the tree.
--   Parser/Token, Parser/Lexer      src/parser/lexer.rs: the keywords and the lexer on the rest of its
--     input. Lexer/Progress is about its end, Lexer/Spelling says how tokens are written, Lexer/Tables
--     and Lexer/RoundTrip are about reading them back.
--   Parser/Sql                      `parse` of src/parser/parser.rs; Sql/Debug is about texts that are no SQL.
--   Parser/Ast                      src/parser/ast.rs: statements and expressions.
--   Planner/Plan, Planner/Select    src/planner/plan.rs and src/planner/planner.rs: plans, and the planner
--     over the catalog. Select/Ending is about its recursion, Select/Steps and Select/Spine about what a
--     plan reads, joins and tests, Select/Views about views, with `exec_create_view` of
--     src/planner/executor.rs.
--   Planner/Constraints             src/planner/constraints.rs: constraints and the check of a row.
--   Planner/Patterns                LIKE and GLOB of src/planner/executor.rs; Patterns/Pieces says what it
--     means to match.
--   Planner/Transaction             src/planner/transaction.rs: the state of a transaction.
--   Fts/Tokenizer                   src/fts/tokenizer.rs: texts to tokens; Tokenizer/Slices is about
--     its loop and the places of the tokens.
--   Fts/Postings                    posting lists and their bytes, of src/fts/index.rs.
--   Common                          lists, bytes, maps and tests that the others share; Tests has
--     concrete runs.
--
-- How the code is modelled. A panic is `none`. Machine integers are natural numbers, with wrap-around
-- written out where the source has it. A string is the list of its UTF-8 bytes, a float its bit
-- pattern. A `HashMap` is an association list, whose order stands for the order of iteration, which
-- the source leaves open. The log's file is a list of bytes; calls of the operating system succeed,
-- except a read past the end; the closure that a checkpoint hands the pages to may fail.
-- `partition_point` is the place of the first key that fails the test; on keys out of order the standard
-- library leaves its answer open. A lock of a mutex makes a method one step. The descents of the B+tree
-- are recursive on fuel, one unit for each level, and its walks along the leaves take one unit for
-- each leaf, so the height of the tree and the number of its leaves are enough. The lexer's loop takes
-- one unit for each token, and one unit more than the text has characters is enough, as it is for the
-- tokenizer of the full-text search; the planner takes one for each level of statements inside one
-- another, and their depth is enough if no view leads back to itself.
--
-- Parameters. The methods of `char`, `str::to_uppercase` and the parser of floats are a record of the
-- lexer, and two of them arguments of the full-text tokenizer; `str::chars`, the parser of tokens, the
-- derived Debug of a SELECT, the derived equality of expressions and of values, and what the executor
-- makes of a CHECK expression are arguments of `parse`, the planner and the check of a row.
--
-- Not modelled: the parser of tokens (src/parser/parser.rs), the execution of plans but for patterns,
-- the transaction and CREATE VIEW (src/planner/executor.rs, src/planner/datetime.rs), the rows of sqlite_master, the
-- storages on files and directories (src/pager/file_btree_storage.rs, src/pager/dir_btree_storage.rs,
-- src/pager/dir_lsmtree_storage.rs), the inverted index and the table of full-text search
-- (src/fts/index.rs but for the bytes of its lists, src/fts/fts_table.rs), the vector index (src/vector),
-- and the shells and servers (src/interface, src/main.rs). They wait for their turn, but for the
-- vector index, whose distances are floats, and the shells and servers, which are input and output.
pub mod Common
pub mod Btree
pub mod Pager
pub mod Table
pub mod Catalog
pub mod Parser
pub mod Planner
pub mod Fts
pub mod Tests
