-- ===== src/Lib.antt =====
-- A verification library for holys, a search tool that keeps an n-gram index of the objects of a bucket
-- and runs a regular expression only on the candidates that the index names.
--
-- How the program works. The indexer (crates/index) cuts each document into grams (crates/core/src/grams.rs)
-- and writes for every gram the ascending list of the ids that have it, packed into posting blocks
-- (crates/index/src/delta_blocks.rs for the sparse strategy, crates/index/src/lib.rs for trigrams). A search
-- plans a gram query from the pattern (crates/query), resolves its grams in the term dictionary, fetches the
-- posting blocks and evaluates the query over them (crates/index/src/eval.rs). What comes out is verified by
-- the regular expression, so correctness of the index is that candidates are a superset.
--
-- Files.
--   Common         shared: Boolean tests, the result type, lists, bits, u32 words, ascending lists, sorting
--   BitPack        pack_fixed, unpack_fixed (crates/index/src/delta_blocks.rs), pack_ids, unpack_ids
--                  (crates/index/src/lib.rs): the accumulator loops
--   DeltaBlocks    encode_delta_blocks, decode_delta_blocks
--   Posting        posting_id_bits, stored_id_count, posting_block_len, encode_posting_block,
--                  decode_posting_block
--   Grams          pack_trigram_grams, the sparse gram iterator, the covering loop, grams_index, grams_query
--   Query          the query type of crates/query/src/lib.rs
--   Eval           Resolve: pack_posting, unpack_posting, resolve, prune_and; Collect: collect_query_grams,
--                  bind_queries; Select: blocks_needed, eval, intersect, union_many, expand_ids
--   Format         the tables of crates/index/src/format.rs; Validate: SegmentTables::validate
--   Candidate      crates/index/src/candidate.rs: build_block_bases, expand_candidate_block,
--                  group_candidate_blocks, merge_candidate_ranges, candidate_documents
--   Globs          crates/cli/src/globs.rs: build_glob_filter, admits
--   SparseTable    crates/index/src/sparse_table.rs. Varint: write_varint, read_varint; Entry: for_each_entry,
--                  and what insert writes; Writer: SparseTableWriter, and TermMap::visit of
--                  crates/index/src/terms.rs; Index: SparseTableIndex
--   Pack           crates/index/src/pack.rs. Spans: block_span, document_blocks; Reads: read_range; Batches:
--                  block_runs, run_batches, request_windows; Plan: plan_pack_ranges; Lines: locate_line
--   PostingsTable  crates/index/src/postings_table.rs. Writer: PostingsTableWriter; Index: PostingsTableIndex
--   Compact        crates/index/src/segment/compact.rs. Entry: write_live_entry, remap_posting_id; Victim:
--                  maybe_compact
--   Runs           here and in each part: the theorems at small inputs, and tests
--
-- Modelling. A byte, a u32, a u64 or a usize is a natural number, with the wrap-around written out
-- where the source can reach it; `x as u8` is `% 256`. A slice is a list, and a cursor or an iterator
-- over it the suffix that is left. An `anyhow` error is a constructor of the module's own error type;
-- a `?` is the bind of the result monad. A `for` or a `while` is structural recursion, or recursion on
-- fuel: encode_chunks on the number of ids (a chunk takes one at least), decode_blocks on the count (a
-- block takes one at least), drain on the number of filled bits, the gram iterator on the square of
-- the length, since a range is given by its two ends. write_varint has nine rounds, which a u64 needs
-- at most; entries_loop and the write_loop of PostingsTable have the bytes that are left, batches_loop
-- and windows_loop the elements, of which each round takes one at least. The blocks of a pack that are
-- loaded are a function from their ids to decoded bytes. A `BTreeMap` of blocks is a function to an
-- option where it is read, and the list of its insertions where it is written.
--
-- Not modelled. rapidhash, SHA-256, globset and merge_segments are parameters; a writer is taken to
-- write all that it is given. The bitmap path of pack_trigram_grams, which inputs of more than half a
-- million windows take, is left out, as are store I/O, the S3 client, the codecs and the rest of the
-- command line, which call third-party code; the planner of crates/query, the build, the trigram
-- dictionaries and the loading of packs are left out too, so that a query and a dictionary are what a
-- theorem is given.
pub mod Common
pub mod BitPack
pub mod DeltaBlocks
pub mod Posting
pub mod Grams
pub mod Query
pub mod Eval
pub mod Format
pub mod Candidate
pub mod Globs
pub mod SparseTable
pub mod PostingsTable
pub mod Pack
pub mod Compact
pub mod Runs
