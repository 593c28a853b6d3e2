-- ===== src/Lib.antt =====
-- A-Meet: a verification library for the video-conferencing application: its meeting server, the
-- directory `server/src`, what its web client keeps of a meeting, in `client/src`, and its Discord bot,
-- in `bot/src`. Paths are from the root of the repository.
--
-- The server holds each meeting in memory, in several stores that do not know of each other, and
-- the handlers of one socket's events tie them together:
-- * `RateLimit` (server/src/socket/rate-limit.ts) guards events with token buckets per user and
--   address.
-- * `Presence` (server/src/socket/room-manager.ts) knows which sockets are in which meeting.
--   `Meeting` (server/src/socket/handlers.ts) has the events `join-room`, `leave-room`,
--   `chat-message` and `disconnect`, the grace window of a dropped connection, and the control of
--   the transcript.
-- * `Transcript` (server/src/socket/transcript-manager.ts) keeps the meeting's shared transcript,
--   which `Contributors` (server/src/transcription/meeting-transcription.ts) fills with what a
--   speech provider hears: `Deepgram` (server/src/transcription/deepgram-session.ts) is a
--   participant's session with it, and `Refiner` (server/src/transcription/groq-refiner.ts)
--   chooses between its text and a second provider's.
-- * `Sfu` (server/src/sfu/sfu-rooms.ts) is the store of the media server: rooms, peers, and the
--   transports, producers and consumers of each peer. The events of
--   server/src/socket/sfu-handlers.ts are its children: `Sfu.Join` (`sfu-get-rtp-capabilities`,
--   `disconnect`), `Sfu.Handles` (what the media handlers share, and the caps of
--   server/src/sfu/config.ts), `Sfu.Transports` (`sfu-create-transport`, `sfu-connect-transport`),
--   `Sfu.Producers` (`sfu-produce`, `sfu-get-producers`, pause, resume and close), `Sfu.Consumers`
--   (`sfu-consume`, `sfu-resume-consumer`) and `Sfu.Moderation` (raised hands, reactions, and the
--   host's commands).
-- * `Workers` (server/src/sfu/workers.ts) is the pool of media workers that routers are made on.
-- * `Webrtc` (server/src/socket/webrtc.ts) is the older relay between peers, which is still
--   registered.
-- * `RoomAdmin` (server/src/rooms/room-admin.ts) tells who administers a meeting; `Scheduled`
--   (controllers/room.controller.ts) creates, changes and cancels meetings over HTTP.
-- * `Lifecycle` (server/src/lifecycle.ts) is the shutdown: the order in which all of this is
--   closed.
-- The client is in `Client`:
-- * `Client.Recovery`, `Client.Remote` and `Client.Controls` are client/src/hooks/useMediasoup.ts:
--   the setup of the SFU session and its retries, the consumers and streams of the others (with
--   client/src/utils/pending-producers.ts), and the participant's microphone, camera and screen.
--   Their requests are those that the children of `Sfu` answer; `Client.Signal`
--   (client/src/services/mediasoup-signal.ts) is how one ends.
-- * `Client.Stage` (client/src/hooks/useRoomLayout.ts, client/src/hooks/useScreenShare.ts,
--   client/src/hooks/useHostModeration.ts) decides what stands in the middle of the page,
--   `Client.Reactions` (client/src/hooks/useReactions.ts) shows emoji, and `Client.Log`
--   (client/src/utils/transcript.ts) merges what comes of the transcript.
-- * `Client.Lobby` (client/src/hooks/useLobbyMedia.ts) is the preview before the meeting.
-- * `Client.Labels` (client/src/utils/format-time.ts, client/src/utils/peer-color.ts,
--   client/src/utils/room-entry.ts) has small decisions of the pages.
-- `Discord` (server/src/integrations/discord/link-token.ts, server/src/controllers/discord.controller.ts,
-- and the guards in server/src/middleware) has the tokens and the endpoints for accounts of Discord,
-- which `Bot` (bot/src/http/client.ts, bot/src/commands/handlers.ts, bot/src/interactions.ts) calls.
-- `Types` has what they share (server/src/types.ts), `Prelude` the lists, maps and texts of the
-- models. Names are those of the source in snake case: `addPeer` is `add_peer`.
--
-- How the code is modelled:
-- * A store is a record, a `Map` an association list in insertion order, and a `Set` a list of
--   keys. An operation takes the store and answers the new one with what it returns.
-- * A handler that waits (for the database, for mediasoup, for the speech provider) is cut there
--   into functions, `begin_...`, `after_...` and `finish_...`. Between two of them any part of
--   another handler may run; a name with `alone` is about the parts run at once.
-- * What a handler sends is a list of notices with their audience. Logging is left out.
-- * A peer carries a number, `ref`, by which two peer objects with equal contents are told apart,
--   since a handler may hold one that has left the store. A room object is known by its router.
-- * The answers of libraries are arguments: ids that mediasoup and nanoid give out, what Joi makes
--   of a payload, what the database finds, the bytes of a payload's JSON, the time in
--   milliseconds. Ids of users are texts.
-- * The rate limiter's tokens are counted in thousandths, so that a rate of whole tokens a second
--   adds whole numbers each millisecond; fractional rates and the rounding of floating-point numbers
--   are not modelled.
-- * The only loop with a bound is the creation of a room, five attempts, as in the source. No
--   function has fuel.
-- * The client's media tracks and transports are known by ids. A setup of the SFU session is a
--   stage, what it waits for, and the socket's connections are numbered, so that a transport tells
--   in which connection's session it was created.
--
-- Not modelled: process start and configuration, sign-in, the bot's registration of its commands, the
-- client's rendering, audio graph and browser interfaces; timers fire as steps of their own, at any
-- time, unless a theorem gives the time.
pub mod Prelude
pub mod Types
pub mod RoomAdmin
pub mod Workers
pub mod RateLimit
pub mod Sfu
pub mod Presence
pub mod Transcript
pub mod Meeting
pub mod Webrtc
pub mod Scheduled
pub mod Contributors
pub mod Deepgram
pub mod Refiner
pub mod Lifecycle
pub mod Client
pub mod Discord
pub mod Bot
