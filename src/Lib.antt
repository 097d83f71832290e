-- ===== src/Lib.antt =====
-- handfast: a KDE Connect daemon, its plugins and its clients.
--
-- A daemon keeps one control connection (TLS over TCP) with each device. The connection carries
-- packets, JSON objects on a line each; the device manager, an actor that handles one command at a
-- time, owns the devices, decides whom to trust, hands packets to the plugins, and starts a task
-- for each file that is received. Clients on the same machine talk to the daemon over a socket with
-- length-prefixed frames.
--
-- Base      shared names and lemmas: Boolean tests, lists, association lists for HashMap, 64-bit
--           integers, byte streams in chunks, and texts.
-- Json      serde_json::Value and the accessors that the program uses.
-- Protocol  crates/protocol/src: Types (lib.rs, the packet types and limits), Packet (packet.rs, the
--           packet, its ids and its payload announcement), Frame (packet.rs, read_frame, read_from
--           and encode_into). A reader is the list of chunks that fill_buf yields.
-- Ipc       crates/ipc/src/codec.rs: write_frame and FrameReader::next. A reader is a buffer and the
--           list of what the next reads return. Ipc/Proto is crates/ipc/src/proto.rs, the requests,
--           the responses, and the events as the clients get them. Client is client.rs, the calls that
--           share a connection and its reader, with the order of answers of server.rs: each step that a
--           task takes between two points at which another may run is a move, and a run is any list of
--           moves.
-- Transfer  crates/daemon/src/transfer.rs: Name (sanitize_file_name) and Engine (TransferEngine and
--           free_destination); Stream is receive_stream and Outgoing is stream_outgoing of
--           crates/daemon/src/device.rs. A save directory is a function from names, lists of code
--           points, to contents, and the record Io says what the file system refuses during a call.
-- Device    crates/daemon/src/device.rs: State (DeviceState, Manager, the outbound queue, the store's
--           rows), Trust (pairing: on_pair_packet, answer_incoming_pairing, begin_pairing, unpair,
--           persist_trust), Links (on_announce, on_connected, on_closed, load_persisted), Transfers
--           (the registry and spawn_receive), Sending (send_file, and the choice of the port in
--           payload.rs), Snapshot (the lists of devices and of
--           transfers that a client gets), Actor (on_packet, dispatch_to_plugins, run). Each
--           handler is a function from the manager to the manager; what it publishes, answers and
--           spawns is a list in the state. Invariant, Keeps, Pins, Consent, Accepted and Lasting, with
--           the files under Links and Actor, are proofs.
-- Plugins   crates/plugins/src: Meta (meta.rs), one file for the plugins of a kind, and Registry
--           (lib.rs and stubs.rs), which fills the interface PluginApi that the device manager uses.
-- Daemon    crates/daemon/src: Handler is handle_request of main.rs, with the ManagerHandle of device.rs;
--           Handshake is handshake.rs, with the line that connect_control of tls.rs writes; Discovery is
--           discovery.rs, the announcements; Advertised is build_self_identity of main.rs.
-- Tui       crates/tui/src: Model (model.rs, the rows that are read from replies), State, Focus, Draft,
--           Keys and Session (state.rs, the state with its reducer for events and keys).
-- Gui       crates/gui/src: Model (model.rs), App, Reducer, Update and Selection (app.rs, the state
--           with its reducer for messages and events), Toggles (the saved switches of plugins).
-- Supervise crates/core/src/supervise.rs: the delays between restarts, and Children, the children that
--           run across spawn, watch_loop and shutdown_all.
-- Examples  the theorems on devices and on the dispatch at a phone that asks to pair.
--
-- Bounds and fuel. Packet ids are the bit patterns of a 64-bit counter and wrap at 2 ^ 64, as do the
-- byte counts of the engine. receive_known recurses on fuel, the announced size plus one: every
-- round but the last stores at least one byte, so that the fuel does not run out. receive_unknown
-- recurses on the reads that the connection yields. All else is structural recursion.
--
-- Parameters. serde_json's serializer and parser at packets and identities, the file system, the
-- clock, and the probe of the local battery; the laws asked of them, at the packets at hand, are
-- named records (IsCompact, IsObject, IsFaithful, IsText, IsQuiet, IsReady, IsSmooth) that a
-- concrete instance fills. What the file system and the data port answer to one send is the record
-- SendEnv, what the reads and the connection do during a stream is StreamEnv, what TLS and the peer
-- do during a handshake is Peer, and what the manager, the clipboard and the session detection reply
-- to a request is World, with what the manager does to the store that it shares with the handler.
--
-- Not modelled: TLS, the sockets and the broadcast of announcements, SQLite and D-Bus, which are I/O
-- and libraries; copies to GVFS and KIO targets; the sockets and the peer credentials of the
-- local server; the views, the command line and the bridge of the terminal and graphical clients; the
-- Wayland protocols.
pub mod Base
pub mod Json
pub mod Protocol
pub mod Ipc
pub mod Transfer
pub mod Plugins
pub mod Device
pub mod Supervise
pub mod Daemon
pub mod Tui
pub mod Gui
pub mod Examples
