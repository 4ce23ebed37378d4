-- ===== src/Lib.antt =====
-- a2kit reads the network traffic of a game: TCP segments become frames, and frames become events.
--
-- Parts, and the files that model them:
--   wire/opcode.go                 Wire/Opcode     opcodes, their text, the known ones
--   wire/frame.go, segment.go      Wire/Frame      frames, segments, flags and their names
--   wire/varint.go                 Wire/Varint     the varint that begins a frame
--   wire/scan.go                   Wire/Scan       a search over a buffer that grows
--   wire/envelope.go               Wire/Envelope   the length headers of a stream in envelopes
--   wire/framer.go                 Wire/Framer     one stream's bytes into frame bodies
--   wire/decoder.go, stream.go,    Wire/Decoder    segments into frames: reassembly, the lock on
--     stats.go                                     the game's connection, the table of streams
--   capture/capture.go             Capture/Reader  the reader over both formats, down to segments
--   capture/pcap.go, record.go     Capture/Classic and Capture/Record: classic files, read and written
--   capture/pcapng.go              Capture/Pcapng  pcapng files: blocks, interfaces, packets
--   capture/peel.go                Capture/Peel    from a packet down to its TCP segment
--   game/reader.go                 Game/Reader     a payload read front to back
--   game/parse.go, opcode.go       Game/Parse      the table of readers, and what parse answers
--   game/*.go                      Game/Events     the records of the events
--   a2kit.go, message.go           Messages        the messages of a recording, and their counts
--   conns.go                       Conns           the connections of a recording
--   analyze.go                     Analyze         what the message types of a recording are
--   trace.go                       Trace           a recording as a Chrome trace
-- Game/Std holds what the reader uses of Go's standard library. Common holds the shared numbers,
-- lists, words and tests, and a stable sort. The files named Tests hold runs on small inputs.
--
-- How the parts meet. The decoder puts a segment's bytes in order on its stream (place, hold,
-- release, skip) and hands them to the stream's framer (write, lose, end). The framer strips the
-- envelopes, cuts frames, unpacks bundles, and emits bodies. The decoder counts the emitted frames
-- toward a lock, and queues or keeps them. Parse looks a frame's opcode up and runs a reader on the
-- payload. A capture reader turns a file into the segments that Decode feeds to the decoder
-- (Wire/Decoder/Decode). Messages parses the frames that come out. Connections tallies the segments
-- that the decoder reads, and marks the connections by the messages; Analyze keeps the client's
-- packets, and sets the messages beside them. A trace writes each message on the track of its opcode,
-- and its event on the tracks of its entities.
--
-- State. A struct is a record with the source's field names in snake case, and a method is a
-- function from the record to the record after it. A byte, a word and a time in nanoseconds are
-- natural numbers; unsigned subtraction and addition keep their wrap-around (sub32, add32). A float
-- is its bit pattern and a text is its bytes. A call of emit becomes an element of a list that write
-- returns; the decoder goes through it after the write, which is the order of the source, since emit
-- never reads or changes the framer that calls it, but for whether it is trusted, which an emission
-- records. A stream that a function works on is taken out of the table and put back.
--
-- A file is the list of its bytes, and a source of segments the list of those it gives before its
-- end. A map is an association list or a list of its keys; pointers to connections are indices into
-- the list of all. A panic of between is `none`, and so is that of
-- stream where a full table has no stream that hunts, which no run comes to.
--
-- Parameters. netip.ParseAddr, `parse_addr`, is one where a redirect is read. The LZ4 decompressor, `uncompress`, takes a block and the room for its output, and
-- answers with the plaintext or none. `marshals` says whether encoding/json writes an event. Nothing is assumed of them.
--
-- Fuel. A loop of the framer runs on fuel, as many rounds as there are bytes, since each round takes
-- one at least; `none` means that the fuel ran out.
-- Bundles are unpacked on the levels left below the depth limit. The loops of the decoder run on the
-- number of pieces held, and a segment's own place needs two rounds more. The loops of the capture
-- readers run on the bytes that are left, since a block takes 12 of them at least and a packet one.
--
-- Not modelled: logging, the slabs that payloads share, the decoder's pointer to the last stream,
-- text for people, live capture, files and their errors, a source that fails, the command line, and,
-- so far, Types, the text of a trace, and the log format.
pub mod Analyze
pub mod Capture
pub mod Conns
pub mod Common
pub mod Game
pub mod Messages
pub mod Trace
pub mod Wire
