-- ===== src/Lib.antt =====
-- A verification library for the xdelta3 C library of this repository (xdelta3/), which encodes the
-- difference of two files as a VCDIFF stream (RFC 3284) and applies it.
--
-- Configuration. The definitions follow Package.swift: `usize_t` has 64 bits and `xoff_t` 32
-- (XD3_USE_LARGESIZET is 1, XD3_USE_LARGEFILE64 is 0), no secondary compressor, no assertions. The
-- integer codec and the word helpers take their width as an argument.
--
-- Parts, each with the code that it follows:
--   Prelude    shared names, Boolean tests, lists with native indices, masks and shifts as arithmetic,
--              the return codes of xdelta3/xdelta3.h.
--   Integer    xdelta3/xdelta3-internal.h: READ_INTEGER_TYPE, DECODE_INTEGER_TYPE, EMIT_INTEGER_TYPE,
--              xd3_sizeof_uint32_t, xd3_sizeof_uint64_t. A pointer with its end is the list between.
--   Output     xdelta3/xdelta3.c: the pages that the encoder writes to (xd3_alloc_output,
--              xd3_emit_byte, xd3_emit_bytes, xd3_sizeof_output, xd3_freelist_output).
--   Sink       the interface between those pages and the routines that write; Output.Sections fills
--              it, AddrCache uses it.
--   AddrCache  xdelta3/xdelta3.c: xd3_init_cache, xd3_update_cache, xd3_encode_address,
--              xd3_decode_address. xd3_alloc_cache is in Decoder.Header; what is in its new arrays is
--              not modelled, and xd3_init_cache writes all of them before a window.
--   CodeTable  xdelta3/xdelta3.c: xd3_build_code_table, xd3_choose_instruction.
--   Adler      xdelta3/xdelta3.c: adler32.
--   RunLength  xdelta3/xdelta3.c: xd3_comprun and NEXTRUN.
--   Source     xdelta3/xdelta3.h and xdelta3/xdelta3.c: the source file in blocks (xd3_blksize_div,
--              xd3_blksize_add, xd3_getblk). The client's `getblk` is an argument; what the code
--              relies on in it is `Serves` of Source.Fetch for the block that is found, and
--              `IsClient` of Source.Blocks for its bounds.
--   Window     xdelta3/xdelta3-decode.h: the decoding of one window's instructions
--              (xd3_decode_setup_buffers, xd3_decode_parse_halfinst, xd3_decode_instruction,
--              xd3_decode_output_halfinst, xd3_decode_emit), over the integers, the addresses, the code
--              table, the source and the checksum above. `out` is what has been written of the output buffer, of `space_out`
--              bytes; a read outside what is written is an outcome of its own, `unwritten`.
--   Decoder    xdelta3/xdelta3-decode.h: the state of a stream and xd3_decode_input with all its
--              states, in calls that may each have a part of the input. Decoder.Header and
--              Decoder.Lengths have the states of the two headers, Decoder.Sections those of the
--              sections (xd3_decode_section, xd3_decode_sections), Decoder.Body the window's end and
--              the switch. A state that falls through to the next is followed by it in `from_`
--              and its name. `done` goes on within the call, `stop` returns. The call that follows
--              XD3_INPUT is Decoder.Resume, Decoder.Entry and Decoder.Calls; what the header and the
--              sections leave alone is Decoder.Retaining, Decoder.Awaiting and Decoder.Keeping.
--   Encoder    xdelta3/xdelta3.c: what becomes of the string matcher's instructions. Encoder.Buffer
--              empties the buffer (xd3_iopt_flush_instructions), which Encoder.Slots fills
--              (xd3_iopt_get_slot, xd3_iopt_erase, xd3_emit_run, xd3_found_match); Encoder itself adds
--              what lies between and writes operands and codes (xd3_iopt_add_encoding,
--              xd3_iopt_finish_encoding, xd3_iopt_add_finalize, xd3_emit_single, xd3_emit_double)
--              over the addresses, the code table and the Sink above. Encoder.Header has xd3_emit_hdr.
--              A copy has `addr` in the
--              target or, where `xtra` is not 0, in the source; the theorems are about the former.
--              Encoder.Halves and Encoder.Instructions read the written bytes with the functions of Window.
--   Words      xdelta3/xdelta3.c: xd3_check_pow2, xd3_pow2_roundup, xd3_xoff_roundup,
--              xd3_round_blksize.
--
-- How the code is read. A function that updates what its arguments point to returns the new values
-- beside its status; a status is `ok` or one of the return codes, and the text in `stream->msg` is
-- not kept. An array is a list, and a write outside it changes nothing; that no such write is made
-- is part of the invariants. A read of the address cache outside its arrays is `outside`, which is no
-- return code, and becomes `unwritten` in xd3_decode_emit; AddrCache.Reads and Window.Reads are about
-- it. The allocator is the application's: what it answers, memory with
-- contents of its own or NULL, is a list in the state.
--
-- Flags and pointers of a stream are Booleans, a pointer that is not NULL. After XD3_INPUT the next
-- call has more bytes behind those that are left, and after ENOMEM or an error from within a window
-- the stream is not used again. The allocator's sizes are not compared with any memory.
--
-- Fuel. xd3_emit_bytes has a round for each byte and one more, which is shown to be enough; the
-- buffer of EMIT_INTEGER_TYPE has its ten bytes, and that it is never left is shown; the loops of
-- Words have a round for each bit of the word, and where that is not enough the loop does not end.
-- The outer loop of adler32 has a round for each byte; a half of an instruction has two turns more
-- than it has bytes, and the loop of xd3_decode_emit two rounds more than its section has bytes, and
-- `spent` would be the outcome where these are not enough.
-- The loop of xd3_iopt_erase has a round for each instruction of the buffer, which is shown to be
-- enough.
--
-- Bounds. The invariant of a window supposes that the copy window and the output, and a source block
-- and the output, are together shorter than 2^64 bytes. The code checks the first of the target's
-- length only, and not of the output buffer, which may be longer. A copy window, an output buffer and
-- a source block each shorter than 2^63 bytes are enough. A target that is encoded is shorter than 2^32
-- bytes, since `xd3_rinst` has its addresses as `xoff_t`, and within the window that decodes it.
--
-- Where no slot of the instruction buffer is free behind a flush, which the code asserts not to be, the
-- model of xd3_iopt_get_slot stops with XD3_INTERNAL. The slots that the allocator answers with are an
-- argument, and so is what stands on the stack where an added instruction is made.
--
-- Not modelled: the parts listed in the manifest as such, among them the encoder's states but ENC_INSTR,
-- the string matcher, the secondary compressors, and the command line. No theorem
-- is about the encoding of copies from the source.
pub mod Prelude
pub mod Encoder
pub mod Integer
pub mod Sink
pub mod Output
pub mod AddrCache
pub mod CodeTable
pub mod Words
pub mod RunLength
pub mod Adler
pub mod Source
pub mod Decoder
pub mod Window
