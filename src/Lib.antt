-- ===== src/Lib.antt =====
-- A verification library for destor, a backup system with data deduplication. A backup runs through
-- phases, each a thread with a queue to the next: blocks of files are cut into chunks
-- (src/chunk_phase.c, src/chunking/), chunks are gathered into segments and looked up in the index
-- (src/dedup_phase.c, src/index/), fragmented chunks are marked for rewriting (src/rewrite_phase.c),
-- and new chunks go to containers on disk (src/filter_phase.c, src/storage/). A restore
-- reads a recipe and fetches the chunks from their containers (src/assembly_restore.c,
-- src/do_restore.c).
--
-- Which file models what:
-- - Base: names shared by all modules, lists and association lists over native numbers, integers, and
--   Base/HashTable, the interface of GLib's GHashTable with an association list that fills it.
-- - Chunk/Defs: struct chunk and its flags (src/destor.h). A fingerprint is the number that its 20
--   bytes spell; an identifier is an integer, TEMPORARY_ID being -1.
-- - LruCache: src/utils/lru_cache.c, over any type of elements. Invariant, Order and Kicks hold what
--   insertion keeps, what a lookup finds and moves, and what a kick frees.
-- - Serial: src/utils/serial.c. Bytes and Wire hold the wire format, RoundTrip the reading back.
-- - Container: the buffer of src/storage/containerstore.c: create_container, container_overflow,
--   add_chunk_to_container, get_chunk_in_container. Add holds the invariant, Contents the container as
--   a map from fingerprints to bytes.
-- - Pool: write_container, retrieve_container_by_id and retrieve_container_meta_by_id of the same
--   file. The pool file is a function from offsets to bytes. File, Meta, RoundTrip, Apart and Metadata
--   hold the file, the metadata, the round trip of a container, that other containers stay, and the
--   round trip of metadata alone.
-- - KvStore: src/index/kvstore_htable.c. Window and History relate the store to its updates, Delete
--   is about kvstore_htable_delete, Dump about the dump file, whose names are those of the source.
-- - Segment: src/index/segmenting_method.c, dedup_thread and send_segment of src/dedup_phase.c. The
--   static segment of each method is a state that is passed on. Stream, Bounds and Dedup hold the
--   theorems on order, on sizes and on what dedup_thread passes on.
-- - Chunking: fastcdc_chunk_data, ae_chunk_data and fixed_chunk_data, and chunk_thread of
--   src/chunk_phase.c, and Rabin with src/chunking/rabin_chunking.c. Bounds, RabinBounds and Ae hold
--   the sizes, File and Thread the loop of a file and of all.
-- - Rewrite: the buffer of src/rewrite_phase.c, the thread of src/cfl_rewrite.c, har_check of
--   src/har_rewrite.c and the monitor of src/restore_aware.c. Records and Buffer hold the
--   invariant of the container records, Stream what cfl_rewrite passes on, whose buffers OneContainer is about, RestoreAware the monitor;
--   Capping is the thread of src/cap_rewrite.c, Top what it chooses, and its Stream what it passes on;
--   Har is the monitor of src/har_rewrite.c, Sparse the file that it leaves for the next job.
-- - Queue: src/utils/queue.c on a heap of list items. Refine holds that the linked queue implements a
--   sequence, Walk that the loops over it end.
-- - SyncQueue: src/utils/sync_queue.c as steps of threads, from the lock of the mutex to its release or
--   to a wait on a condition. Safety holds the invariant of the reachable states.
-- - Index: src/index/index.c, fingerprint_cache.c and the loop of similarity_detection.c. Buffer holds
--   the index buffer as the chunks that are pending, Valid the cache between its calls, Marks a lookup,
--   Check the chunks that are looked up again before they are written.
-- - Sampling: src/index/sampling_method.c. Smallest and Candidates hold what the minimum methods
--   choose, Features the tables that are returned.
-- - Filter: src/filter_phase.c. Defs is what happens to a chunk, Recipe the recipe; Watch is about
--   the monitors, Store and Outcome hold where a chunk goes, Files the recipe of whole files.
-- - Restore: lru_restore_thread of src/do_restore.c. Stream compares it with a restore without a cache.
-- - Marker: src/cma.c. Reclaim holds which containers are given back.
-- - Assembly: src/assembly_restore.c. Fill, Issue and Stream follow a chunk, a call of assemble_area
--   and the whole recipe.
-- - Tests: small runs, and the theorems where their hypotheses hold.
--
-- How the code is rendered: an operation that changes state returns the new state; `none` is a
-- failed assert, a null pointer that is read or an access outside of a buffer; GList, GQueue and
-- GSequence are lists. Counters are natural numbers, with invariants that bound them; file offsets wrap
-- at 2 ^ 64, a sum of har_monitor_update that does not fit into int32_t is undefined, and containers
-- are compared by 32 bits as g_record_cmp_by_id does. The sizes in a rewrite buffer, which is of at most
-- destor.rewrite_algorithm[1] chunks, are taken to fit. The byte order of the host and
-- destor.simulation_level are arguments. The queue between two phases is the sequence of what was
-- pushed; the threads are deterministic functions of their input.
--
-- Loops that have fuel: chunk_file is given one more than the bytes still to come, since
-- each round cuts at least one; chunk_thread one for each file; drain one more than the chunks in the
-- area, since each call of assemble_area with chunks in the area issues at least one; trim one
-- more than the records in its sequence, since each round removes one; judge_all and cap_judge_all one more than the chunks in the buffer; the loops of queue_foreach,
-- queue_find and queue_empty one more than the elements of the queue.
--
-- Not modelled: init_har, context-based rewriting, the hash phase, the selection of similar segments
-- and the options set by init_index, the files of recipes, the other restore algorithms; input and
-- output, options and statistics; src/utils/sds.c, src/utils/bloom_filter.c and src/fsl/, which are
-- copies of other projects' libraries. The tables of fastcdc_init (MD5) and of the Rabin window, and
-- the window of ae_init (floating point), are arguments.
pub mod Base
pub mod Chunk
pub mod LruCache
pub mod Serial
pub mod Container
pub mod Pool
pub mod KvStore
pub mod Assembly
pub mod Segment
pub mod Chunking
pub mod Rewrite
pub mod Queue
pub mod SyncQueue
pub mod Index
pub mod Sampling
pub mod Filter
pub mod Restore
pub mod Marker
pub mod Tests
