-- ===== src/Lib.antt =====
-- A verification library of the gang chat server: the parts of its Go code that keep state of their
-- own, as functions and step relations, and what is proved of them.
--
-- The server is HTTP handlers over a database, an event bus that pushes changes to live connections,
-- and a music box that plays a queue into each voice room. The parts meet as follows. The handlers
-- publish on the bus. The music box's manager selects the next row of a room's queue, its player
-- plays it, the rows to come are downloaded ahead, and a row whose transcode is still running is
-- read while its file grows. Chat is what the handlers make of a room's members, and Auth what they
-- make of the codes that they mail. The limiters and the id sequences stand by themselves.
--
-- - Base: tests on native numbers, lists, finite maps and sets, integers, stable sorting, and the
--   choice of a first row by an order.
-- - Auth.Challenges: the rows of the two tables of challenges, which have the same columns, and the
--   statements on them. Auth.EmailVerification: internal/auth/email_verification.go, a handler being
--   one transaction. Auth.PasswordReset: internal/auth/password_reset.go, where checking a code is a
--   read (`verify`) and a statement (`write`). Hashes, generated ids, codes and tokens, and whether the
--   mail was sent, are parameters.
-- - Chat.Members: the rows of internal/chat for one room's members, their roles, and the choice of the
--   next owner. Chat.Rooms: internal/chat/permissions.go, members_core.go and the handlers of
--   room_members.go that change who belongs to a room. `Room` is the rows of one room in the tables of
--   internal/db/schema.sql, Decide what a handler reads and decides, Apply and Transactions what it
--   writes, Handle the two together (a `Write` carries what was read before the transaction), Race the
--   interleavings of handlers. The table of
--   users, the trimming and measuring of texts, the clock and the chance of `random()` are parameters.
-- - EventBus: internal/eventbus/bus.go. `Bus` and `Subscription` are the structs, subscriptions being
--   ids into a heap; each method is the function of its name, and `Close` is `mark_closed` and
--   `unregister`. EventBus.Queue is the channel, EventBus.Index the two indexes, EventBus.Interleaving
--   the goroutines. A panic of a channel is `none`.
-- - IdGen: internal/idgen/idgen.go. `next_seq` is `nextSeq`; the tables that it reads are `Db`; the
--   casts of the database and the prints of numbers are parameters. The step past the last int64 wraps.
-- - RateLimit.FailedLogins: internal/auth/rate_limit.go. RateLimit.SlidingWindow:
--   internal/gdmusic/ratelimit.go, a `round` being one pass of the loop of `wait`.
-- - Releases: internal/releases/releases.go. `compare_versions` is `CompareVersions`, `delete_version` is
--   `Delete`; the splitting at dots, `Atoi` and `sort.Slice` are parameters.
-- - MusicBox.Types and MusicBox.Queue: internal/musicbox/types.go and the queries of
--   internal/musicbox/store.go. MusicBox.Advance: `nextItem` and the play cursor of
--   internal/musicbox/manager.go; the hash that ranks a shuffle is a parameter.
-- - MusicBox.Prefetch: `prefetchWindow` of internal/musicbox/media_cache.go.
-- - MusicBox.Stream: internal/musicbox/media_stream.go; MusicBox.Stream.Follow is `followReader.Read`,
--   MusicBox.Stream.Pages is `completeOggPages`.
-- - MusicBox.Player: internal/musicbox/player.go, the loop of `runFrom` and `playFile` cut at the
--   places where it waits: a `step` is what it does with what it gets there. The manager's callbacks
--   are parameters that act on a state of the manager's.
-- - MusicBox.Search: internal/musicbox/search_resilience.go; the fetch and the waits are parameters.
--
-- Bounds: the search for a uid has fuel for every int64 from its candidate on, one more than there
-- are; the window's loop runs once for each row, as the source's does. Times and durations are natural
-- numbers; the place of a row is an integer. A subscription's number is a uint64, and a subscribe is a
-- step only below its end.
--
-- Not modelled: the HTTP handlers of accounts and sessions, messages and administration, the lists and payloads of
-- rooms and the events that they publish, playlists, the media
-- leases and the clean-up of the shared cache, configuration and migrations, and the calls of LiveKit,
-- ffmpeg, mail, push and storage.
pub mod Auth
pub mod Base
pub mod Chat
pub mod EventBus
pub mod IdGen
pub mod MusicBox
pub mod RateLimit
pub mod Releases
