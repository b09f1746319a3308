-- ===== src/Lib.antt =====
-- Low-altitude IoT system: a model of the message path between the ground station's relay, the
-- aircraft and the slave vehicle, and of the agents' own state.
--
-- A command from the cloud is read and routed to the vehicle that it is meant for
-- (rdk_agent/command_router.py). The link to the aircraft (rdk_agent/aircraft_link.py) takes one
-- transaction at a time: a command or a mission becomes frames (shared_protocol/frame.py) whose
-- payload is checked (shared_protocol/messages.py). The sender keeps each frame until it is
-- acknowledged (shared_protocol/transport.py, RetrySender) and every datagram is sealed with a
-- counter and a MAC (shared_protocol/auth.py). On the other side the datagram is opened once, the
-- frame is accepted by a receiver that collects missions (ReceiverState) or by the aircraft's
-- durable inbox (aircraft_agent/inbox.py), which persists it before it is acknowledged.
--
-- Common: lists, association lists for dicts in the order of insertion, equality tests, bits and
--   big-endian bytes, Python's exceptions as results, decoded JSON values.
-- Auth: shared_protocol/auth.py, AuthenticatedDatagramCodec. `Session` is a peer's (highest,
--   bitmap) pair, `Codec` the object; `accept_counter`, `seal`, `open_datagram`, `snapshot`,
--   `open_codec` are its methods. Auth.Persistent: PersistentAuthSession, with the snapshot that its
--   store would load. Auth.Stream: AuthenticatedStreamDecoder; `cut` is a round of its loop.
-- Frame: shared_protocol/frame.py, the message types and the checked constructor; Frame.Codec, the
--   bytes of a frame; Frame.Stream, FrameDecoder, where `round` is a round of its loop.
-- Messages: shared_protocol/messages.py, `validate_payload` and its helpers.
-- Transport.Sender, Transport.Receiver: shared_protocol/transport.py.
-- Inbox: aircraft_agent/inbox.py, DurableInbox. Inbox.Store has the persisted state: `State`
--   is the dict `_state`, `disk` what the store would load.
-- Worker: aircraft_agent/command_worker.py, which executes the inbox's active job.
-- Mission: aircraft_agent/mission_worker.py, AircraftMissionWorker over a transaction of
--   aircraft_agent/mavlink_session.py. `World` is the session's clock, the messages that arrive on
--   the transaction's queue with their times, and what was sent; its clock moves only while the
--   worker waits for a message, so sending and computing take no time. Mission.Items has the items
--   of a durable record, Mission.Transfer the exchanges, Mission.Execute the whole. What is read
--   back may hold NaN and infinities.
-- Telemetry: aircraft_agent/telemetry.py, AircraftTelemetry.
-- Router: rdk_agent/command_router.py, `from_cloud` and its helpers; Router.Route has CommandRouter
--   and rdk_agent/network_mode.py. `Fleet` holds the states of the executors that a command may
--   reach.
-- Link: rdk_agent/aircraft_link.py, AircraftLink, the sending side of the aircraft's commands, over
--   Transport.Sender; Link.Send has `execute`, Link.Calls the calls on a link, Link.Closed what
--   its small steps have in common.
-- Optical: aircraft_agent/optical_gate.py, which holds commands back while the link is not locked.
-- Node: shared_protocol/node_messages.py, the JSON messages between the rover and the nodes.
-- Slave: slave_agent/command_queue.py, NodeCommandQueue, which turns node messages into frames of an
--   inbox: Slave.Mission the frames, Slave.Delivery the delivery records, Slave.Accept the whole,
--   Slave.History what becomes of a record under further calls.
--
-- A method that changes its object takes the object and gives it back, beside a `Result` where it
-- may raise. Every loop is structural recursion on a list or a count, but for these, which take
-- fuel: `run_queued` of the worker, where one round more than there are jobs is enough, as
-- Worker.Queued shows; the loops of the two stream decoders, where one round more than the buffer
-- has bytes is enough, as Auth.Stream.Feed and Frame.Stream.Loop show; the waits for a message,
-- which take a message off the queue in each round but the last; and the upload of a mission, whose
-- rounds are counted from its items, the requests allowed for each and the retries, and shown to be
-- enough in Mission.Ends whatever messages come.
--
-- Parameters are what is not here: HMAC-SHA256, SHA-256, `json.dumps` and `json.loads`, CRC-32,
-- `uuid.UUID`, `str` of a value, `strip`, `lower` and `upper` of a text, `int` and `float` of a text,
-- and the executors and vehicle operations. A store is the way in which its save ends: written,
-- raised with some error before the file was replaced, or raised with some error after that.
--
-- Times are whole ticks of the caller's clock, of 1e-7 seconds where they stand in a payload. A
-- finite float of a payload is a whole number of units of 1e-7, so rounding is not modelled. Nonces
-- are bytes where the code persists hex text; a key that the code formats out of two texts is the
-- pair; a command id is the text of its UUID.
--
-- A timestamp from the cloud in milliseconds is divided by 1000 to the tick.
--
-- Not modelled: threads, sockets, serial lines, MAVLink and MQTT connections; image processing and
-- control loops in floating point; the ground station in JavaScript, and scripts.
pub mod Auth
pub mod Common
pub mod Frame
pub mod Inbox
pub mod Link
pub mod Messages
pub mod Mission
pub mod Node
pub mod Optical
pub mod Router
pub mod Slave
pub mod Telemetry
pub mod Transport
pub mod Worker
