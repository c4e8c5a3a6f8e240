-- ===== src/Lib.antt =====
-- A model of exchange-mcp: a mirror of an Exchange mailbox in Postgres, an archive that captures
-- old mail on disk, verifies the copies and only then deletes the mail upstream, and the small
-- services around it.
--
-- The parts and their files, by the paths of the repository:
-- - ewsmcp/cache/store.py: Store. Store/Rows.antt has the rows of messages, attachments and chunks
--   and the generic UPDATE, DELETE and SELECT; Mirror.antt the writers of the mirror;
--   Archive.antt the state of a row (live, captured, verified, deleted) and its guarded writes;
--   Chunks.antt the embedding backlog. Writes.antt collects every writer in one type, for the
--   properties of all sequences of writes (Survival.antt, Kept.antt, Consistent.antt).
-- - ewsmcp/archive: Archive. Policy.antt is policy.py, Files.antt and Blobs.antt are files.py,
--   Capture.antt capture.py, Verify.antt verify.py, Delete.antt and Delete/Run.antt delete.py,
--   Embed.antt embed.py, Gc.antt gc.py. Each has one function per method, with the guards and the
--   early returns of the source, and child modules for what is proved. Capture/Batch.antt has the
--   batch and the run of capture.py. Runner.antt and Passes.antt are runner.py; the workers are
--   an interface, a record of functions on a world.
-- - ewsmcp/uploads.py, downloads.py and confirm.py: Files/Uploads.antt, Files/Downloads.antt and
--   Files/Confirm.antt.
-- - ewsmcp/bridge/mapping.py, arrival.py and app.py: Bridge/Mapping.antt, Bridge/Arrival.antt and
--   Bridge/App.antt. The pages of app.py are those of the ledger of arrival.py.
-- - ewsmcp/cache/sync.py: Sync. Items.antt has the items and their rows, Folder.antt the delta of a
--   folder as a list of the writes of Store/Writes.antt, Hierarchy.antt the folders and the sync
--   states of store.py with the hierarchy lane, Engine.antt the other lanes and the loop.
-- - ewsmcp/ids.py: Ids, with the tables and their statements in Table.antt and the operations in
--   Aliaser.antt.
-- - ewsmcp/gateway/connection.py: Gateway/Connection.antt, with the tasks of the event loop as a
--   field and what they meet as events.
-- - ewsmcp/errors.py, tools/base.py and tools/writes.py: Tools. Errors.antt is errors.py;
--   Arguments.antt, Calls.antt and Dispatch.antt are base.py. A tool is a record of functions on a
--   world, and the dispatcher calls the confirm tokens of Files/Confirm.antt. Sends.antt has the
--   receipts and the send of writes.py.
-- - ewsmcp/embeddings.py, semantic.py and boilerplate.py, with the tail window of bodyclean.py:
--   Search. Chunking.antt has chunk_text, Gemini.antt the embedder with its retries, Index.antt the
--   indexing of a page and the parent in a thread, Fusion.antt rrf and the hybrid search,
--   Boilerplate.antt the detectors and the cut. Index.antt writes with replace_chunks of
--   Store/Chunks.antt. A score is an exact fraction.
-- - Prelude and Text have the helpers that all share; Tests has runs on concrete inputs.
--
-- A store, a directory, a ledger is a value that the functions pass on. What an exception stands
-- for is an input or a result: the replies of the gateway, what the disk does to a write, whether a
-- statement raises, and what other processes did to the store in between. A table's key is a list
-- searched from the front. Hashes, codecs, Unicode's tables, the endpoints of the embedder and of
-- the cleaner, and the index that the drainer of the backlog feeds are parameters;
-- Search/Index.antt models that index, page by page.
-- Times are whole seconds; the source has floats in places. Fuel stands in these loops: the batches
-- of the deleter, with the number of rows, since each batch takes one at least; the drainer of the
-- backlog, with its budget, since each pass takes one row at least of it; the chunks of a bulk fetch,
-- with the number of items; the slices of a text or of a batch, with its length; the eviction of
-- receipts, with their number; and a number is printed with more fuel than it has digits. The
-- attempts of the embedder are bounded by the source. The other loops run over the items of a list.
--
-- Not modelled: the client of exchangelib and its threads, HTTP and MCP transport, the other
-- handlers, the schemas and the formats of the tools, configuration, the connection pool and the
-- audit file (I/O or third-party); the calendar and tasks lane, the text cleaning but for its tail
-- window, the full-text and the vector query, similar_to_message, the reload of the references and
-- the log of the boilerplate harness, an error of the database in the middle of indexing, the chats
-- route of the bridge, and the names and content types in the
-- header of a download. An error of the database between the writes of the hierarchy lane is not
-- modelled.
pub mod Prelude
pub mod Search
pub mod Store
pub mod Text
pub mod Archive
pub mod Files
pub mod Bridge
pub mod Gateway
pub mod Ids
pub mod Sync
pub mod Tools
mod Tests
