-- ===== src/Lib.antt =====
-- DemuxFS: the core of a filesystem that shows a digital television transport stream.
--
-- The program reads packets of a transport stream from a backend, puts the payloads of each PID
-- together in a buffer, and hands each whole section or PES packet to the parser of its table.
-- - Byteops (src/byteops.h): the macros CONVERT_TO_16 to CONVERT_TO_64, over bytes as C converts a
--   signed char.
-- - Crc32 (src/crc32.c): crc32_init_table and crc32_check, with the static table as a state.
--   Crc32/Serial has the register bit by bit, Crc32/Table the step from bytes to bits, Crc32/Feed the
--   register over a message, and Crc32/Codeword what an accepted message is.
-- - Hash (src/hash.c): the open-addressing table. Its three loops are one function, `probe`, whose
--   rounds are bounded by the size of the table: the walk is back at its start by then, so
--   the case `stuck` is never reached (Hash/Probe).
-- - Buffer (src/buffer.c): the packet buffers. The allocator is a parameter, a record with the
--   documented behaviour of calloc, malloc and realloc; an access outside an allocation is `fault`.
-- - Ts (src/ts.h, src/ts.c): ts_parse_packet as a function on a store. The packet buffers are values in
--   a list, and packet_buffer holds their addresses, so that the program's aliasing of a buffer is
--   kept; the parsers are a parameter, which may change the tables of parsers and everything else but
--   the buffers. The loop over the sections of a packet is on fuel; two rounds are enough, and
--   a shortage of fuel would be a fault (Ts/Safety/Loop). To hand a parser more than a buffer has
--   is a fault too.
-- - Psi (src/tables/psi.c): psi_parse, which decodes the header that the PSI tables share.
-- - Tables (src/tables): a payload is read at offsets; a read behind it is a fault.
--   Tables/Descriptors (src/tables/descriptors/descriptors.c) has the loops over descriptors, with
--   the calls of their parsers in a list, and Tables/StreamType
--   (src/tables/descriptors/stream_type.c, component_tag.c) the tests on types and tags. Tables/Sdt
--   (src/tables/sdt.c) has the services of an SDT, Tables/Nit (src/tables/nit.c) the transport
--   streams of an NIT, Tables/Pat (src/tables/pat.c) the programs of a PAT, the parsers that are
--   registered for them and which table is kept; a new version of a known one is a fault there, as
--   the program frees the entry that both share and reads the key of the hash table from it, and
--   Tables/Pmt (src/tables/pmt.c) the streams of a program. Loops whose steps the payload decides
--   have rounds: 4096 for a length of twelve bits, 4097 for the count of descriptors, 2 ^ 16 for
--   the streams of a section, and one more than the bytes of the payload for the services. Used up,
--   they give `unfinished`, or `none` for the count, which no payload gives but one with a length
--   of 0xfe.
-- - Pes (src/tables/pes.c): the stream identifiers, and pes_parse_audio_video_payload, which skips the
--   header of a packet; its loop over stuffing bytes has one round for each byte of the payload.
--   Pes/Feed is what a payload gives to a FIFO, and Pes/Stream the parsers of audio and video packets;
--   the directory entries of their FIFOs are arguments.
-- - Fifo (src/fifo.c): the FIFO to a reading process. What open() and write() answer is a parameter, a
--   list of answers for write(), on which the loop is recursive.
-- - Filesrc (src/backends/filesrc.c): detection of the packet size, reading with repetition, decoding
--   of the header; Filesrc/Reading has the loop of ts_parser_thread (src/main.c) over it and
--   ts_parse_packet, on fuel, whose shortage is a fault, and how many rounds are enough.
-- - Cursor: what the parsers of the object carousel share: the bytes that are left to read and the
--   variable `j`. A read behind the bytes is a fault. Cursor/Laws reads back what is written there,
--   and Cursor/Forward has how far a parser moves.
-- - Biop (src/dsm-cc/biop.c, src/dsm-cc/biop.h): the parsers of messages (Biop/Message,
--   Biop/Directory), of profile bodies (Biop/Profile) and of module information (Biop/Info), and the
--   loop over the messages of a module (Biop/Walk), on fuel, as no number of rounds is enough for
--   every module. The modules named Encode have writers, which the program does not have, for the
--   round trips.
-- - Iop (src/dsm-cc/iop.c): object references, which hold profile bodies.
-- - Dsmcc (src/dsm-cc/dsmcc.c, src/dsm-cc/dii.c): message headers, and in Dsmcc/Modules the count of
--   the blocks of a module and how they are put together; a function gives the contents of a block.
--   Dsmcc/Compatibility has the compatibility descriptors, Dsmcc/Dii what a DII says of modules, and
--   Dsmcc/Ddb (src/dsm-cc/ddb.c) the block of a DDB; a function says which blocks are there already.
-- - Fsutils (src/fsutils.c): the lookups in the tree of directory entries, on a store of entries with
--   their addresses, so that parent pointers and lists of children may disagree. The recursion and
--   the loops over parents and links are on fuel; used up, it is a fault. Fsutils/Find has the trees
--   that a store holds, and how deep a search goes; Fsutils/Below has the entries that are reached
--   by their paths, whose depth bounds the walk up and the walk down. Fsutils/Create makes entries, and
--   the directories of the versions of a table; Fsutils/Store has the lookups in a store that is
--   written to, and Fsutils/Version what the link to the current version leads to.
-- - Tests: each theorem with hypotheses at a concrete input.
--
-- Numbers are natural numbers; where a C type wraps, the modulus is written out. Not modelled: the FUSE
-- glue (src/demuxfs.c); the SDTT, the EIT, the TOT, the AIT and the DSI; the parsers of single
-- descriptors and the creation of files for the fields of a table or a message; the DVB backend and
-- the snapshots, which are calls of other libraries; list.h, a copy of the Linux kernel's; mutexes,
-- and the printing of messages.
pub mod Prelude
pub mod Byteops
pub mod Cursor
pub mod Biop
pub mod Iop
pub mod Dsmcc
pub mod Fsutils
pub mod Fifo
pub mod Crc32
pub mod Hash
pub mod Pes
pub mod Ts
pub mod Psi
pub mod Tables
pub mod Filesrc
pub mod Buffer
mod Tests
