-- ===== src/Lib.antt =====
-- Verification of torrent-peer, a BitTorrent client.
--
-- The program is src/: the metainfo parser reads a .torrent file into a TorrentFile; a session runs
-- the piece manager (which blocks to ask for, what to do with one that arrives), the ban manager
-- (who sent the bytes of a piece that failed its hash), the disk manager (where the bytes of a piece
-- stand in the files), the peer manager (connections and the wire format) and the tracker manager.
--
-- Parts, and the files that model them:
--   Bitfield.antt      src/core/bitfield.hpp
--   Torrent.antt       src/metainfo/torrent.hpp, and piece_size of torrent.cpp
--   Types.antt         src/core/types.hpp
--   Bencode.antt       src/metainfo/parser.hpp and parser.cpp; Bencode/Print is an independent
--                      description of the format by BEP 3, which the parser is compared with
--   Metainfo.antt      src/metainfo/torrent.cpp, with parse_torrent in Metainfo/Reading
--   Pieces.antt        src/runtime/managers/piece_manager.hpp and piece_manager.cpp
--   Bans.antt          src/runtime/managers/ban_manager.hpp and ban_manager.cpp
--   Disk.antt          src/runtime/managers/disk_manager.cpp, down to the slices of each file
--   Wire.antt          src/runtime/managers/peer_manager.cpp: framing, and the queue of a connection
--   Peers.antt         src/runtime/managers/peer_manager.hpp and the availability counts; Peers/Messages
--                      has handle_message, Peers/Sends the messages to peers, drops and bans,
--                      Peers/Dials candidates and handshakes, Peers/Events the rounds of handle_events
--   Tracker.antt       src/runtime/managers/tracker_manager.hpp and tracker_manager.cpp: types and packets;
--                      Tracker/Machine has the operations on one tracker, Tracker/Manager those on
--                      all of them, and Tracker/Protocol the protocol that they are held against
--   Session.antt       src/runtime/session.cpp: dispatch and what it calls, over the managers
--   Args.antt          src/cli/args.cpp: the values of --port and --peer
--   Prelude.antt       shared helpers: lists, maps, results, loops, numbers
-- Child modules hold the proofs. Definitions have the names of the functions they model; a method
-- that writes its object returns the new object. Exceptions are values of Result, with the message
-- of the source. Unsigned arithmetic of the source is written out modulo 2^32 or 2^64 where it can
-- wrap.
--
-- Bounds: the parser is recursive, and the model bounds the recursion by two calls for each byte and
-- two more; Bencode/Fuel is about that bound. The loop over the messages in a read buffer has a step
-- more than the buffer has bytes, of which each message takes four. on_piece and
-- dispatch of the session call each other through ban, at most once, since a ban gives drops only.
-- All other loops are structural.
--
-- Parameters: sha1 (OpenSSL) is an argument of the functions that use it, as is the number that the
-- generator of the piece manager draws. What the system answers to the tracker manager and the peer
-- manager (results of poll, recv, send, accept, connect and the lookup, clocks, transaction numbers)
-- is an argument of each tick or round, free but for what a theorem says of it; recv and send take no
-- more bytes than they are asked to.
--
-- Not modelled: sockets, polling, the system calls of the disk manager, the constructor and
-- the main loop of the session, logging, printing and the loop over the command line.
pub mod Prelude
pub mod Bitfield
pub mod Torrent
pub mod Types
pub mod Bencode
pub mod Metainfo
pub mod Pieces
pub mod Bans
pub mod Disk
pub mod Wire
pub mod Peers
pub mod Tracker
pub mod Session
pub mod Args
