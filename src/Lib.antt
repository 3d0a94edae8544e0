-- ===== src/Lib.antt =====
-- kaillera-client, the parts of it that carry messages and recordings: what goes over the wire
-- to a Kaillera server and to a peer, what is read from a recording, and who gets which memory
-- card, and which files an update puts in the place of others.
--
-- The parts, and how they fit together in the program. `k_message` (kcore/k_message.h) numbers
-- the instructions (kcore/k_instruction.h) of a client, sends each bundle with the latest ones
-- repeated, and puts what arrives in order in a window of 16 slots, an `oslist`
-- (common/oslist.h). `p2p_message` (core/p2p_message.h) does the same between two peers with
-- 8-bit serials and messages of 256 bytes (core/p2p_instruction.h and .cpp). `krec_reader`
-- (common/krec_reader.h) reads a recording for the player, the seek bar and the markers that the
-- client itself writes. `k_framecache` (common/k_framecache.h) queues input bytes between the
-- network and the game. `n02_mcchoice` (common/n02_mcchoice.h and .cpp) keeps what the players
-- of a room announced in the chat and works out the memory card of each slot. The core
-- (kcore/kaillera_core.cpp) stands above `k_message`: it takes the server's messages, sends the
-- user's commands, and gives the game its frames; a room may replay a recording first
-- (kcore/kaillera_retryconnect.cpp), which the core serves in place of the server's frames. In
-- the peer-to-peer mode the core (core/p2p_core.cpp) stands above `p2p_message` and plays a
-- frame once the inputs of both sides are there. The recorder (kailleraclient.cpp) writes every
-- frame, chat line and drop of a match to a file. The updater (common/n02_update.cpp) takes the
-- list of a package's files from a server and exchanges the files of the program.
--
-- The files. Prelude passes library names on and holds the Boolean tests (Prelude/Tests), the
-- list lemmas (Prelude/Lists), bytes, C strings and little-endian numbers (Prelude/Bytes), and
-- chains of results that may be missing (Prelude/Options). Containers/Oslist is `oslist`, an
-- array and a length, with its laws on the elements in use in Containers/Oslist/Laws;
-- Containers/Slist is `slist`, and Containers/Slist/Laws about its `remove`. FrameCache is
-- `k_framecache`, and FrameCache/Queue sets it beside a queue of bytes. KMessage is `k_message`:
-- `ingest` is the part of `check_recv` that takes a datagram in (`resync`, `reserve` and
-- `fill_bundle` are its three blocks), `deliver` the part that hands a message out;
-- KMessage/Window and KMessage/Invariant are about the window, KMessage/Delivery about what
-- callers get, KMessage/Bundle about a bundle from its bytes to the window. KMessage/Track,
-- Arrive and Take are about a window that follows what another object sends, KMessage/Sender
-- about what that object keeps and sends, and KMessage/Link about the two and the network
-- between them, as a step relation. KInstruction is `k_instruction`, with the growth of its
-- buffer (Grow), numbers (Fields), strings (Strings) and whole messages (Wire). P2pInstruction
-- is `p2p_instruction`, with its bounds (Codec) and numbers in sequence (Fields); P2pMessage is
-- `p2p_message`, with what bounds its window (Bounds) and a new message in a datagram (Heard).
-- KrecReader is `krec_reader`, and its children are the markers (Markers), the header (Open),
-- single records (Progress), what stands ahead (Loads) and the scans (Scan). McChoice is
-- `n02_mcchoice`, with the table (Rows) and the chat lines and slots (Slots). Recorder is the
-- recording buffer of kailleraclient.cpp and what fills it, with the file as a list of events
-- (Content), its records as the reader takes them (Records), a recording read back (Replay) and
-- the record of a failed frame (Failed). RetryConnect is kcore/kaillera_retryconnect.cpp, with
-- the choice of a recording (Select) and the serving of its frames (Serve, Order). KailleraCore
-- is kcore/kaillera_core.cpp: the state and the commands; KailleraCore/General is
-- `kaillera_ProcessGeneralInstruction`, one function `on_...` for each case; KailleraCore/Step
-- is `kaillera_step` and `kaillera_retryconnect_pump`; KailleraCore/Game is
-- `kaillera_ProcessGameInstruction`; KailleraCore/Play is `kaillera_GameStartSequence` and
-- `kaillera_modify_play_values`. Status and Handled are about the dispatch, RetryMessages about
-- the messages of a replayed session, Bundles and Frames about the way of the input. P2pCore is
-- core/p2p_core.cpp while a game is played, from the input of a side (Rounds) over the wait for
-- the peer's (Await) and the merged frame (Merged) and the frames of a run of calls (Played) to
-- both sides together (Lockstep), and the wait for a peer (Silence); P2pCore/Start is the start
-- of a game, with the delay that both sides agree on (Sync, Delay). Updater is the package of
-- common/n02_update.cpp: its manifest (Manifest, with Paths and Accepted), the versions
-- (Version, with Order), the file system as an interface and the names in it (Files), and the
-- exchange of the files (Swap, with Rounds, Names, Whole, AllOrNothing and, for the moves that
-- take something back, Undone), and what CheckPackageUpdate does with them (Install, with
-- Fetched, Verified and Undone). Tests holds runs and concrete instances.
--
-- How the code is rendered. An object is a record and an operation a function from the object
-- before to the object after; a buffer that a caller passes is the list of bytes it holds. Fixed
-- widths are remainders of powers of two. What the operating system gives is an argument: the
-- datagram with its sender, the tick count, the content of a file (`KailleraCore.General.Env`
-- and `KailleraCore.Step.Poll` for the core). What the core tells the user interface is kept in
-- a list of calls. A result `none` of the core and the recorder is behaviour that the code
-- leaves undefined: a write past an array, a division by zero, a loop that never ends. What goes
-- out through `k_socket::send` is kept in a list. Bytes that the code leaves uninitialised are
-- arguments (`junk`, `scratch`), so that nothing can be said of them. A pointer into a buffer is
-- an index, and a C string its bytes.
--
-- Fuel. `KMessage.drop_holes` has the size of the cache, which each round makes smaller.
-- `KInstruction.grow` has 32 doublings, after which a 32-bit length has wrapped; `none` is a
-- loop that never ends. The scans of `KrecReader` have one round for each byte of the buffer and
-- two more, and each record takes at least a byte; `RetryConnect.serve` has the same. Their
-- theorems say that these are enough. `KailleraCore.Game.queue_slices` has a round for each byte
-- and one more. `KailleraCore.Step.drain` has a round for a datagram, one for each of the 16
-- slots of the window, and two more. `P2pCore.process_game_stuff` has the same for the 32 slots
-- of its window. `KailleraCore.Play.modify_play_values` calls itself after the wait for the
-- players, which takes one level. The loops that wait for the network take a list of polls, what
-- the socket and the clock give in each round, and have no result where it runs out.
--
-- Not modelled: allocation failures, debug text, the sockets and threads, the user interface,
-- the lobby of the peer-to-peer mode (the rest of core/p2p_core.cpp), the entry points of
-- kailleraclient.cpp, the player, and the parts that speak HTTP. Of the updater the requests to
-- the server, the hash function, the windows and the processes are left out. Of
-- kcore/kaillera_core.cpp the login exchange, the cleanup, which waits for another thread, and
-- the watching of a live game are left out.
pub mod Prelude
pub mod Containers
pub mod FrameCache
pub mod KInstruction
pub mod KMessage
pub mod KrecReader
pub mod P2pInstruction
pub mod P2pMessage
pub mod RetryConnect
pub mod KailleraCore
pub mod P2pCore
pub mod Recorder
pub mod McChoice
mod Tests
pub mod Updater
