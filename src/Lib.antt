-- ===== src/Lib.antt =====
-- A verification library for Doorboard, a door station: a Raspberry Pi at the door with a touch
-- screen and a bell, and services that talk to each other over HTTP and MQTT. Modelled are the
-- visitor session of apps/door-api, which is the program's state machine, its durable store with
-- the two outboxes towards door-media and door-sync, and the upload queue of apps/door-sync,
-- which decides when the only copy of a clip may be deleted; of apps/door-visiond the queue of
-- purges and the recognition of visitors; the link of packages/esp32-link to the controller at the
-- door; and of apps/control-plane-api the presence of the people who live there. Of apps/door-api
-- there are also the visitors' guestbook, polls and check-ins with their limit on writes.
--
-- How the parts interact: an input at the door calls a handler of `SessionMachine`; the handler
-- makes transitions of the table in packages/contracts; a transition hands out events and writes
-- the session's row and the events for the two outboxes in one transaction of `SessionStore`; a
-- timer of the new state calls `transition` again. door-sync takes recordings and events into
-- `UploadQueue`, and `SyncEngine` drains it into the archive, the control plane and door-media.
--
-- Contracts: `SessionState` and `LEGAL_SESSION_TRANSITIONS` of
--   packages/contracts/src/doorboard_contracts/events.py; Contracts.Graph is about the table.
-- Door.Outbox, Door.Store: apps/door-api/src/door_api/persistence.py. A table is the list of its rows
--   in rowid order. `media_outbox` and `sync_outbox` have the same statements, so both are values of
--   `Outbox`; `enqueue_locked` is `_enqueue_*_event_locked`, and the other operations keep their names
--   without `media` or `sync`.
-- Door.Session: apps/door-api/src/door_api/session.py. Types holds the fields of `SessionMachine` as
--   the record `Machine`; Transition is `transition` and `_persist`, cut into its stages; Timers is
--   `_schedule_timer_for_state`, `_start_timer` and `_cancel_timer`; Outcome, Recipients, Handlers and
--   Restore hold the functions of these names. Commands makes one type of everything that can happen
--   to a machine, the restart of the process included. The other children are about these.
-- Door.Social: apps/door-api/src/door_api/social. RateLimit is ratelimit.py, Store the tables of
--   store.py, Service the writes of service.py with sanitize.py, and Social.Acts makes one type of what
--   visitors and moderators do, with a record of what a predicate must be kept by.
-- Sync.Queue, Sync.Archive, Sync.Engine, Sync.Enqueue: apps/door-sync/src/door_sync/queue.py,
--   targets.py (`FilesystemNasTarget`) and engine.py. Sync.World is what a run acts on: the queue, the
--   log of the effects outside, and the number of effects and commits that the process has before it
--   is killed. An `Action` returns, raises or is killed; only what is raised can be caught.
-- Sync.Reconcile, Sync.Engine.Loop: `reconcile_from_media` and `run` of the same engine.py; a loop that
--   is stopped has made a list of turns. Sync.Target: `HttpNucTarget` of the same targets.py.
-- Sync.Fence: apps/door-sync/src/door_sync/fence.py, over texts as lists of code points.
-- Visiond.PurgeOutbox: apps/door-visiond/src/door_visiond/purge_outbox.py. Visiond.Cache and
--   Visiond.Pipeline: identity_cache.py and `PipelineCore` of pipeline.py beside it.
-- Esp32: packages/esp32-link/src/doorboard_esp32_link/esp32.py. Wire decodes a line, Dedupe is
--   `_is_duplicate_inbound`, Link the fields of `Esp32ProtocolTransport` with its queues, Link.Inbound
--   `_handle_line`, Link.Health the reports, Frames `_receive_bytes` and `_read_loop`, Send `send` with
--   what is read during its waits, Life.Happenings everything that happens to a link. Life has a
--   record of what a predicate must be kept by, so that an invariant is proved step by step once.
-- Control.Presence: apps/control-plane-api/src/control_plane_api/presence.py and presence_engine.py;
--   Presence.Sync has the resolution over the tables, the history and `sync_presence`.
-- Door.Tests, Sync.Tests, Visiond.Tests, Esp32.Tests, Control.Tests and
--   Door.Social.Tests hold test data and the theorems at
--   concrete inputs.
--
-- What stands for what: clocks, sources of ids, answers of the network and of the file system are
-- arguments, as functions from the number of draws so far, so nothing is assumed of them but what
-- a theorem names. Times are counted in milliseconds, and a duration in seconds is its count of
-- milliseconds. A UUID is only compared and ordered, so a number stands for it. A text of
-- recipients or of a path is the list of its code points, with the code points that Python's
-- `str.strip` counts as whitespace. The JSON of `meta_json` is kept as what `json.loads` makes of
-- it. SQLite is taken to commit a transaction or nothing. Logging has no model. There is no fuel:
-- every loop is over a list. The killed process is `left` running out, and a theorem about all
-- values of `left` is about every instant.
--
-- Not modelled: the HTTP and MQTT layers, the forwarders of the outboxes, the rest of visiond (its
-- matcher is an argument), door-media, the rest of the control plane, the wallboard's worker, the
-- integrations, the simulator, the user interface and the firmware; of the ESP32 link the byte
-- transports, sends at the same time as another, and `close`.
-- Negative whole numbers in its frames have no model. `stats`, statistics and snapshots only read.
pub mod Prelude
pub mod Contracts
pub mod Door
pub mod Sync
pub mod Visiond
pub mod Esp32
pub mod Control
