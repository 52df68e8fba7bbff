-- ===== src/Lib.antt =====
-- Livtet is a library for a catalogue of books on several devices. Its devices exchange changes
-- over a peer protocol, and its types canonicalise what users and other programs enter.
--
-- Which file models which part, with paths from the repository's root:
--   * Sync (livtet-sync): Sync/Types the wire types, Sync/Entities the registry of
--     types/syncable_entity.rs and the ranks of engine.rs, Sync/Store the change log, the conflicts
--     and the statements of engine.rs on them, Sync/Apply apply.rs, Sync/Push, Sync/Receive and
--     Sync/Query the methods `push_changes`, `apply_changes`, `pull_changes`, `list_conflicts` and
--     `resolve_conflict` of `SyncEngine`. Sync/Json has JSON values, SQL values and `Env`.
--     Sync/Full is `pull_full`. Sync/Push is a push that the database refuses only where it applies a
--     change, and Sync/Push/Refusal adds every other place where a statement may be refused.
--   * SyncIroh (livtet-sync-iroh): SyncIroh/Wire the frames of wire.rs, SyncIroh/Messages its
--     requests and answers and the outcomes of server.rs.
--   * SyncServer (livtet-sync-server): SyncServer/WireState wire_state.rs and the rows of devices and
--     claims, SyncServer/RateLimit rate_limit.rs, SyncServer/Requests requests.rs,
--     SyncServer/Pairing pairing.rs, SyncServer/Pairs pairs.rs, and SyncServer/Wire wire.rs: Access
--     `authorize` and what a device may see, Files the files and covers, Claims `pair` and
--     `pair_status`, Offers `offer_decision` and `opds`, Dispatch `dispatch` and `answer`.
--     SyncServer/Pull is the pull pass of daemon.rs with the dialling of peer.rs: Pull one page and
--     its offers, Pull/Pass the loop over the pages and what is around it.
--     SyncServer/Decide is the reader's answer to an offer, `handle_offers_decide`,
--     and SyncServer/Devices what the daemon does to the paired devices outside a request.
--     SyncServer/Changes names what a call does to the claims, and SyncServer/Lifecycle runs calls
--     in any order.
--   * Types (livtet-types): Types/Isbn isbn.rs, and Types/Search the directory search: Dsl dsl.rs,
--     Kinds and Identifier the filters, Saved saved_search.rs, Placeholder and Calendar
--     placeholder.rs, Substitute and Compose composition.rs.
--   * Base: lists over native numbers, results, integers, texts and sorting.
--
-- How it corresponds to the code. A database is a record of tables; a statement is a function of
-- it, and a method in a transaction returns the new database or an error, which leaves the old one.
-- A method's loop is a function on the list, its early returns are the branches of one function per
-- change. `Env` holds what other crates do: serde_json, hex, ulid, `f64`, the schema of sea-orm and
-- SQLite running a statement on an entity table, which also gives the rows that the audit triggers
-- of the table would log. `now` is the clock. A text is the list of its code points. The message
-- that an error takes from another crate is left out, and so are the numbers in one. In the
-- searches, tantivy's parser, the text form of a ULID, the lookup of resources and the operations
-- of `time::OffsetDateTime` are parameters, as is the order in which a hash map of axes is
-- iterated; the clock is read once.
--
-- The server. A request is a function of the state, of `Host`, the code of other crates, and of a
-- `Moment`: the clocks, a fresh ULID, the files' metadata, the desktop's answer, and which statements
-- SQLite refuses. A refused statement leaves what the statements before it wrote. A call is one step,
-- so what two calls do to one claim between their awaits is not modelled. A device calls `pair`, the
-- reader calls `approve_claim` or `reject_claim`, and the device polls `pair_status`; the token that
-- it is told is what `authorize` finds in the table of devices on each later request, which the
-- engine of Sync then serves. Instants of the server are in milliseconds.
--
-- Bounds and fuel. Versions are integers without a bound, as no operation here adds to a version
-- but the triggers' next one; a limit of a page is not negative. The loop over the chunks of a
-- frame runs on fuel, one more than the frame's total, and the loop over a phrase on one more than
-- its length; neither uses it up. A pull pass runs on fuel for its pages: every page but the last
-- takes a hundred rows off the peer's log, so one more than its rows is enough. The eviction of
-- decisions runs on fuel for each entry, which is enough as each round removes one. A printed
-- number has twenty digits at most, enough for 64 bits.
--
-- Not modelled: the typed models of the entities, the daemon around the wire but for its pull pass,
-- the answers to offers and the paired devices, `offer_book`, the search index, the database schema
-- and its migrations, the bindings, the command line, and what only reads
-- files or the network.
pub mod Base
pub mod Types
pub mod Sync
pub mod SyncIroh
pub mod SyncServer
