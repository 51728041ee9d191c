-- ===== src/Decoder/Body.antt =====
-- xdelta3/xdelta3-decode.h: xd3_decode_input behind its header, and the whole of it. The client's
-- `getblk` is a parameter.
use swift_xdelta.Prelude.{
  ◌+◌, ◌%◌, not, Option, length, if◌then◌else◌, Rvalue, invalid_input, output, winfinish,
}
use swift_xdelta.Integer.{xoff_mod}
use swift_xdelta.Source.{Getblk, blksize_div}
use swift_xdelta.Window.{Window, Turn, moved, suspended, failed, unwritten, spent}
use swift_xdelta.Window.Emit.{decode_emit}
use swift_xdelta.Decoder.{
  State, Stream, Outcome, done, stop, M, modify, fail_if, return_, when, ◌>>◌,
}
use swift_xdelta.Decoder.Header.{has_bit}
use swift_xdelta.Decoder.Lengths.{decode_header}
use swift_xdelta.Decoder.Sections.{finish_window, decode_sections, window_of, with_window}

-- The block and the offset in it at which the copy window starts.
unfoldable pub locate_source : M (Unit {0})
locate_source = do
  fail_if (λ s. not s.has_src) invalid_input
  modify λ s.
      let (blocks, blkoff) = blksize_div s.cpyoff s.src in
      record s { src = record s.src { cpyoff_blocks = blocks; cpyoff_blkoff = blkoff } }

unfoldable pub before_emit : M (Unit {0})
unfolding locate_source
before_emit = when (λ s. has_bit s.win_ind 1) locate_source

-- A call that has come to its end: what it returns, and the stream it leaves.
abbrev pub returned : Outcome (Unit {0}) → Turn (Rvalue × Stream)
returned (done a s) = moved (output, s)
returned (stop e s) = moved (e, s)

-- A finished window adds to the total, and its state is the one behind it.
unfoldable pub emitted : Stream → Turn Window → Turn (Rvalue × Stream)
unfolding with_window finish_window
emitted s (moved w) = returned (
    (modify (λ t. record t { total_out = (t.total_out + length t.out) % xoff_mod })
        >> finish_window)
      (with_window w s))
emitted s (suspended e w) = moved (e, with_window w s)
emitted s (failed e) = failed e
emitted s unwritten = unwritten
emitted s spent = spent

unfoldable pub emit_window : Option Getblk → Outcome (Unit {0}) → Turn (Rvalue × Stream)
unfolding emitted
emit_window client (done a s) = emitted s (decode_emit client (window_of s))
emit_window client (stop e s) = moved (e, s)

-- `case DEC_EMIT`, `case DEC_DATA` and those with it
unfoldable pub from_emit : Option Getblk → Stream → Turn (Rvalue × Stream)
unfolding emit_window before_emit
from_emit client s = emit_window client (before_emit s)

unfoldable pub from_sections : Option Getblk → Stream → Turn (Rvalue × Stream)
unfolding emit_window before_emit decode_sections
from_sections client s = emit_window client ((decode_sections >> before_emit) s)

-- The last window is kept for a copy from it: its buffer, or the two swapped.
unfoldable pub keep_window : M (Unit {0})
keep_window = modify λ s.
    if s.has_lastwin
    then record s {
      has_lastwin = s.has_next_out;
      lastspace = s.space_out;
      has_next_out = s.has_lastwin;
      space_out = s.lastspace;
    }
    else record s { has_lastwin = s.has_next_out; lastspace = s.space_out }

unfoldable pub finish_case : M (Unit {0})
unfolding keep_window
finish_case = do
  when (λ s. has_bit s.win_ind 2) keep_window
  modify λ s. record s {
    lastlen = s.tgtlen;
    laststart = s.winstart;
    window_count = (s.window_count + 1) % xoff_mod;
    state = State.winind;
  }
  return_ winfinish

unfoldable pub input_case : Option Getblk → State → Stream → Turn (Rvalue × Stream)
unfolding from_sections from_emit finish_case
input_case client State.sect_data s = from_sections client s
input_case client State.sect_inst s = from_sections client s
input_case client State.sect_addr s = from_sections client s
input_case client State.emit s = from_emit client s
input_case client State.finish s = returned (finish_case s)
input_case client State.aborted s = moved (invalid_input, s)
input_case client header s = returned (decode_header (return_ invalid_input) s)

-- xd3_decode_input
unfoldable pub decode_input : Option Getblk → Stream → Turn (Rvalue × Stream)
unfolding input_case
decode_input client s = if s.encoding then moved (invalid_input, s) else input_case client s.state s
