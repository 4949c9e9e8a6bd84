-- ===== src/Lib.antt =====
-- Verification library of mesquitte-client, an MQTT 3.1.1 client.
--
-- The program. A caller of the client gets a token for each operation and awaits it. The operation
-- takes a packet identifier (src/pkid.rs), under which its token (src/token/) waits, and hands its
-- packet to a channel. One task writes what comes through the channels and another reads the server's
-- packets and handles them (src/net.rs): an acknowledgement completes the token and releases the
-- identifier, a message goes to the handlers of the subscriptions that match its topic, which stand in
-- a trie (src/topic_trie.rs). The tasks share one state (src/state.rs). Over a WebSocket, both tasks
-- work on a byte stream made of binary messages (src/ws_stream.rs).
--
-- The files.
--   Base          helpers: Boolean tests, lists, association lists for HashMap, sorted ones for BTreeMap.
--   Codec         what is used of the crate mqtt_codec_kit, as a record that all else takes.
--   Subscription  src/topic_store.rs: `Subscription`; a handler is a number.
--   Token         src/token/: Inner (mod.rs, its macros), Kinds (the five *_token.rs), Heap (the shared
--                 cells, `Token`); Laws and Runs on the operations.
--   Pkid          src/pkid.rs: `PacketIds` with get_id, claim_id, get_token, free_id and clean_up; Probe,
--                 Issue, Runs and Cleanup on them.
--   Trie          src/topic_trie.rs: Nodes has `TrieNode` and insert, remove, match_topic and clear_node
--                 as insert_at, remove_at, match_tokens and clear_node; Paths sees a trie as a function
--                 from filters to subscriptions, Matching and Pruned are on the walk and the clean-up.
--   Topics        src/topic_trie.rs: `TopicManager` (Manager) and tokenize_topic (Tokens); Laws has the
--                 abstract view, a list of the subscriptions in force, Abstract the quotient of the
--                 managers by what stands at the filters, Listed the trie beside the table.
--   Options       src/options.rs: `ClientOptions`, its defaults and setters.
--   WsStream      src/ws_stream.rs: Types, Reading (poll_read, poll_fill_buf, consume), Writing
--                 (poll_write, poll_flush, poll_shutdown); Fuel, Bytes, Buffered and Writes on them.
--   Packets       the packets, `PacketAndToken` of src/token/mod.rs.
--   State         src/state.rs and src/message.rs; `World` is the state with the heap of tokens and the
--                 log of the handlers that were spawned.
--   Transport     src/transport.rs: which connection each transport ends with, and with which error;
--                 Dialling on the TCP transport.
--   Net           src/net.rs: Handlers (handle_*), Loops (read_from_server, write_to_server), KeepAlive;
--                 Publish, Acks, Subscribing, Unsubscribing, Reading, Writing and Pings on them, Sound
--                 and Handling on what every packet keeps.
--   Client        src/client.rs: Shared (`MqttClient`, new, what its operations share), Sending (publish,
--                 disconnect), Requests (subscribe, subscribe_multiple, unsubscribe), Greeting
--                 (build_connect_packet), Dialing (connect), Renewing (the renewal of the subscriptions)
--                 and Blocking (block, the end of a connection); Outcomes, Publishing, Waiting,
--                 Subscribing, Greetings, Connecting, Repeated, Renewed, Restored, Attempts, Retrying and
--                 Unsent on them.
--   System        src/client.rs with src/net.rs as one transition system: the caller's operations and the
--                 steps of the tasks in any order; Keeping, Sending, Requests, Operations and
--                 Reconnecting on what each step keeps, Reachable on every state from new on, Enduring
--                 and Blocking on block from there; Lasting, Limits, Making, Handling, Releasing and Registering
--                 on what a step does to tokens and identifiers, Registered, Alone, Unshared and Closing on
--                 the properties closed under that, Acknowledging and Ending on the operations in flight,
--                 Unsent on those without an identifier, Renewal on the renewal's table.
--   Interface     src/lib.rs: the trait `Client`, and sequences of calls of its methods; Calls has MqttClient's
--                 implementation, and takes such a sequence to a run of the system.
--   Race          src/client.rs: connect in its steps, interleaved with those of the task that it spawns, of
--                 the other tasks and of the caller; Fit, Agree and Status are on every state from new on,
--                 Stale on a task that sets the status before the call that spawned it does.
--   Samples       data for the examples, which stand in Tests.
--
-- How the code is read. A method that changes a state takes it and returns it. `Arc<Mutex<…>>` of a
-- token is a cell of a heap, and a token a reference to it, which its clones share. Identifiers are
-- natural numbers, and the addition on u16 in get_id wraps at 65536. A panic is `none`, or `panics`
-- where a step may also wait for ever. A handler runs under the locks that it takes, so it is one
-- step. What the network, the channels and the clock answer is an argument: a list of frames for
-- the read loop, of rounds for the write loop, of answers for the inner WebSocket. While an
-- operation of the client waits for the channel, the other tasks run: what they do to the shared
-- state is an argument too (`Wait`). The rounds of keep_alive and of block are lists, in which each
-- round has what the clock, the select and the other tasks do. A Duration is a number of
-- nanoseconds; keep_alive only compares and adds durations. The order of a HashMap is not modelled:
-- what is stated of maps does not depend on it.
--
-- `connect` ends, panics, or waits for ever; what the transport and the server do is its argument `Dial`:
-- an error, a panic, no end, or a connection, over which a first frame comes or none does. Every other wait
-- on the channel is taken to end.
--
-- Arithmetic is that of a build without overflow checks, on a machine of 64 bits: it wraps.
--
-- Bounds. The loop of get_id gets 65536 rounds, since it tries an identifier in each and comes back to
-- the first after 65535. The loops of poll_read and poll_fill_buf get two rounds, since one that asks
-- the inner stream leaves a state in which the next one answers.
--
-- Parameters. `Codec`: the packets' fields, return codes, the will and the checks of topics. `Cache`: the
-- cache of moka, in which an entry may be lost at any time and what is removed is gone. The sockets,
-- TLS, WebSocket and QUIC libraries are functions that answer for an address.
--
-- Not modelled. The examples; logging; the texts of foreign errors; the locks of single fields, save that
-- of the status, which the task of a connection holds until it has cleaned up; the steps of an operation up to its wait on the channel, which are one, so
-- that no clean-up comes between its test of the status and get_id; the capacity of the channel, other
-- than as a wait.
pub mod Base
pub mod Codec
pub mod Subscription
pub mod Token
pub mod Pkid
pub mod Trie
pub mod Topics
pub mod WsStream
pub mod Packets
pub mod State
pub mod Net
pub mod Client
pub mod System
pub mod Interface
pub mod Race
pub mod Options
pub mod Transport
pub mod Samples
pub mod Tests
