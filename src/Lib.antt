-- ===== src/Lib.antt =====
-- A verification library for the CoreSight trace decoder.
--
-- Parts of the program and where they are modelled:
-- * STM protocol. Stm/Nibbles models the nibble reader of stm_parser.go (readNibble, checkSyncNibble,
--   clearSyncCount, savePacketByte), Stm/Fields the ends of a packet method and the loops that gather
--   values and timestamps, Stm/Gray the two Gray code functions, Stm/Packets and Stm/Extended
--   the packet methods of stm_parser_packets.go, Stm/Dispatch the tables op1, op2 and op3,
--   Stm/Parser waitForSync and outputPacket, Stm/Block processData, Reset and Close, Stm/Packet
--   stm_packet.go, Stm/Decoder stm_decoder.go and stm_config.go. One name in snake_case is one Go
--   function (`stm_extract_ts` is stmExtractTS); a name that has no Go function is a part of one.
--   Stm/Progress is about the input that a packet method leaves, Stm/Block/Rounds and
--   Stm/Block/Descent about the rounds of the loop.
-- * ITM protocol. Itm/Packet models itm_packet.go and itm_config.go, Itm/Reads, Itm/Payload, Itm/Sync
--   and Itm/Block the functions of itm_parser.go from reading a byte to processData, Itm/Decoder
--   itm_decoder.go. Itm/Elements, Itm/Overflow and Itm/Unsynced are about the elements that it sends, as
--   Stm/Decoder/Elements and Stm/Decoder/Payloads are for STM. ByteStream is internalByteStream of protocol_io.go, on the byte reader.
-- * PTM protocol. Ptm/Packet models ptm_config.go and ptm_packet.go, Ptm/State, Ptm/Extract,
--   Ptm/Fields, Ptm/Methods and Ptm/Branch the context and the packet methods of ptm_parser.go.
--   Ptm/Merge and Ptm/Address are about compressed addresses.
-- * Output. Element models the elements of trace_element.go and types.go, Emitter the observers of
--   protocol_io.go, Errors the sentinel errors of protocol_errors.go.
-- * Memory. MemAcc models memacc_base.go, MemAcc/Accessors the three kinds of accessor of
--   memacc_buffer.go, memacc_readerat.go and memacc_callback.go, MemAcc/Mapper memacc_mapper.go.
-- * Trace input. Demux models the frame demultiplexer of demux_demuxer.go (Demux/State, Demux/Output,
--   Demux/Unpack, Demux/Write) and demux_frame_data.go (Demux/Sync, Demux/Extract). Demux/Tags says
--   what the bytes of a frame mean; Demux/Sent, Demux/Walks, Demux/Pairs, Demux/Frames and
--   Demux/WholeFrames prove that unpacking does that, Demux/Progress,
--   Demux/Consumed and Demux/Loop are about what a round consumes, Demux/Search and Demux/Waits about
--   the first synchronisation pattern.
--   ByteReader models byte_reader.go; ByteReader/Slices, ByteReader/Content, ByteReader/Steps
--   and ByteReader/Runs prove that it behaves as two sequences of bytes.
-- * Instructions. Idec/Info models the types of idec_arminst.go, protocol_types.go and types.go,
--   Idec/A32, Idec/T32, Idec/A64 and Idec/Barriers the tests of idec_arminst.go, Idec/Decode
--   idec_decoder.go. Idec/Fields, Idec/Masks and Idec/Targets read masks as fields; Idec/Branches,
--   Idec/Links and Idec/ItBlock are about what is decoded. CodeFollower models
--   etmv3_code_follower.go, on a memory and an instruction decoder that it is given; CodeFollower/Limit
--   and CodeFollower/Waypoints are about its loop.
-- * Return stack. ReturnStack models idec_ret_stack.go, which the ETMv4 and PTM decoders use.
--
-- How they interact: processData reads nibbles and calls the method that the header selects; a complete
-- packet goes to the packet observer and to processPacket, which sends elements to the element sink.
--
-- State is passed explicitly. The parse context and the decoder are records with the fields of the Go
-- structs. A method returns the context that it leaves, and its error if it has one. Methods
-- that `currFn` can hold are an enumeration, and `call_fn` calls them. Numbers are natural
-- numbers; uint8, uint32 and uint64 arithmetic wraps where the code's does. An observer is outside the
-- program: what it is called with is a log, in order.
--
-- Bounds: a loop over nibbles takes as many rounds as it asks for nibbles, and each round counts one;
-- the loop of grayToBin takes 64 rounds, since a uint64 is 0 after 64 shifts. waitForSync takes two
-- rounds for each byte of the block and two more. The loop of processData runs on fuel: four
-- rounds for each nibble that the block can give and four more, for a header or data, the packet,
-- and the wait for ASYNC; its result is `none` when the fuel runs out.
--
-- The loop of ITM's processData takes six rounds for each byte of the block and four more; Itm/Total
-- proves that they suffice, with Itm/Consumed, Itm/Payloads and Itm/Waits.
-- The loop of followAtomWaypoint runs on fuel: with a limit of instructions, a round for each and one
-- more; without a limit the code may not end.
-- The loop of the demultiplexer's Write takes a round for each byte of the input and three more.
--
-- Parameters: what a byte sink or the raw frame handler answers to a call; how much room Go's append
-- leaves; what an io.ReaderAt or a memory callback returns; the memory and the instruction decoder of
-- the code follower. Not modelled: text output; the reconfiguring of an accessor that is registered;
-- the wait for ASYNC, the loop and the decoder of PTM; the protocols ETMv3, ETMv4 and ETE; the pipeline
-- that connects the parts, which only passes data on; the snapshot reader and the commands, which read
-- files.
pub mod ByteReader
pub mod ByteStream
pub mod CodeFollower
pub mod Demux
pub mod Element
pub mod Emitter
pub mod Errors
pub mod Idec
pub mod Itm
pub mod MemAcc
pub mod Prelude
pub mod Ptm
pub mod ReturnStack
pub mod Stm
