-- ===== src/Lib.antt =====
-- leveldb-surf: LevelDB with a SuRF range filter in place of the Bloom filter.
--
-- The program. A table's keys go through FilterBlockBuilder into one filter, made by the filter
-- policy, at the end of the table file. Table opens a file with that filter, TableCache keeps
-- open tables, and asks the filter before a range read; Table::InternalGet asks it before a
-- point read. A Version lists the table files of each level; VersionSet::Builder makes a new one
-- from edits, and the compaction code chooses the files to merge. DBImpl queues the writes,
-- makes room for them and removes the files that no version needs; its background thread
-- compacts tables, and LogAndApply installs the outcome and records it in the descriptor file.
--
-- Files and code:
-- Base: lists over the native numbers, Boolean tests, three-way comparison, Status.
-- Filter.Policy, Filter.Builder, Filter.Reader: project/filter_policy.h,
--   project/filter_block.cc. FilterBlockBuilder::StartBlock, AddKey, GenerateFilter and Finish
--   are start_block, add_key, generate_filter and finish; FilterBlockReader is new_reader,
--   key_may_match, range_may_match. Filter.Answers holds their theorems, by way of the layout of
--   a finished block.
-- Filter.Surf: project/surf_filter.cc, with the two thread_local caches as explicit state;
--   key_answer, range_answer and uncached_policy are the specification of the queries, uncached.
-- Table: project/table.cc (open_table, read_meta, read_filter, internal_get, block_reader) and
--   the counters of project/options.h.
-- TableCache: project/table_cache.cc (find_table, new_iterator, get, evict).
-- Version.Files, Version.Inputs, Version.Builder, Version.Levels, Version.Get, Version.Stats,
--   Version.Compaction, Version.Outputs: project/version_set.cc, one definition for each
--   function, by its name.
-- Version.Manifest: VersionSet::LogAndApply, WriteSnapshot, Finalize; Version.Manifest.Recover:
--   Recover and ReuseManifest. The descriptor file is the list of the records in its log.
-- TwoLevel: project/two_level_iterator.cc, over the interface Iterator for the index and the
--   blocks.
-- Db.Work: DBImpl::DoCompactionWork with the files that it writes, and in Db.Work.Install the
--   edit that it installs; the other threads and the files answer through World. Db.Background:
--   MaybeScheduleCompaction to BackgroundCompaction, and in Db.Background.Live the steps of all
--   threads as a relation.
-- Db.Writes, Db.Room, Db.Obsolete: DBImpl::Write, BuildBatchGroup, MakeRoomForWrite and
--   RemoveObsoleteFiles of project/db_impl.cc.
-- Samples and the Tests modules: concrete instances, on which the theorems are applied.
--
-- State is a record that an operation takes and gives back. A failed assert, a read out of
-- bounds and a loop out of fuel are `none`, but these asserts are left out: those of MaybeAddFile
-- and of the debug build's check in SaveTo that files do not overlap, that of MakeRoomForWrite
-- that there is no previous log number, and those of LogAndApply on a given log number. The
-- loops of FindFile, GetOverlappingInputs and AddBoundaryInputs run on fuel: the number of files
-- and one more, or twice that number and one more; the theorems on them give the result with
-- that fuel, so it is enough; the skips of TwoLevelIterator need more than the number of index
-- entries. A `uint32_t` index wraps around as written. Sums of file sizes and the `size` of a
-- write group are taken without wrap-around.
--
-- Parameters, since their code is not in the repository: the SuRF library, util/coding.h, the
-- block and footer format, Cache, Env, WriteBatch, TableBuilder, Iterator, the coding of version
-- edits, doubles, the internal keys and their comparators. What is assumed of each is a record
-- beside it (IsSurf, IsCoding, IsCache, IsBatches, IsKeySpace, IsTableBuilder, IsListIter,
-- IsDoubles).
--
-- Not modelled: the recovery of the log, the reads and the snapshots of project/db_impl.cc,
-- reference counts, and project/db_bench.cc, which only measures. Locks are not modelled: what
-- other threads do while a lock is free is a function of each event in Db.Room, of the time in
-- Db.Work, the list of the writers that arrive in Db.Writes, and a step of its own in
-- Db.Background.
pub mod Base
pub mod Samples
pub mod Filter
pub mod Version
pub mod Table
pub mod TableCache
pub mod TwoLevel
pub mod Db
