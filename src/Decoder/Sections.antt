-- ===== src/Decoder/Sections.antt =====
-- xdelta3/xdelta3-decode.h: the three sections of a window (xd3_decode_allocate, xd3_decode_section,
-- xd3_decode_sections, xd3_decode_finish_window). No secondary compressor is configured.
use swift_xdelta.Prelude.{
  ℕ, ◌+◌, ◌-◌, ◌%◌, min, Bool, true, false, not, ◌&&◌, List, ◌++◌, length, take, drop, ltb, ◌==◌,
  if◌then◌else◌, internal, invalid_input, enomem, output, input, Result, ok, err,
}
use swift_xdelta.Integer.{xoff_mod}
use swift_xdelta.AddrCache.{usize_mod}
use swift_xdelta.Output.{alloc_size}
use swift_xdelta.Words.{round_blksize}
use swift_xdelta.Window.{Window}
use swift_xdelta.Window.Setup.{setup_buffers}
use swift_xdelta.Decoder.{
  State, Stream, Desect, Outcome, M, ◌>>=◌, ◌>>◌, modify, fail_if, return_, when, goto, alloc,
}
use swift_xdelta.Decoder.Header.{has_bit}

-- Where the stream has one of its sections.
pub record Slot : Type 0 where
  pub get : Stream → Desect
  pub put : Desect → Stream → Stream

abbrev pub data_slot : Slot
data_slot = record { get = λ s. s.data_sect; put = λ d s. record s { data_sect = d } }

abbrev pub inst_slot : Slot
inst_slot = record { get = λ s. s.inst_sect; put = λ d s. record s { inst_sect = d } }

abbrev pub addr_slot : Slot
addr_slot = record { get = λ s. s.addr_sect; put = λ d s. record s { addr_sect = d } }

abbrev pub on : Slot → (Desect → Desect) → M (Unit {0})
on x f = modify (λ s. x.put (f (x.get s)) s)

unfoldable pub new_copy : Slot → M (Unit {0})
new_copy x = do
  on x λ d. record d { alloc1 = round_blksize d.size alloc_size }
  a ← alloc
  fail_if (λ s. not a) enomem
  on x λ d. record d { has_copied = true }

-- xd3_decode_allocate
unfoldable pub allocate : Slot → M (Unit {0})
unfolding new_copy
allocate x = do
  when (λ s. (x.get s).has_copied && ltb (x.get s).alloc1 (x.get s).size)
      (on x λ d. record d { has_copied = false })
  when (λ s. not (x.get s).has_copied) (new_copy x)

-- DECODE_INPUT
abbrev pub decode_input_bytes : ℕ → Stream → Stream
decode_input_bytes n s = record s {
  inp = record { next_in = drop n s.inp.next_in; total_in = (s.inp.total_in + n) % xoff_mod };
}

-- `n` bytes of the input are the section's, which then is `buf`.
unfoldable pub consume : Slot → ℕ → List ℕ → Stream → Stream
consume x n buf s =
    let d = x.get s in
    decode_input_bytes n (record (x.put (record d { buf = buf; pos = (d.pos + n) % usize_mod }) s) {
      winbytes = (s.winbytes + n) % usize_mod;
    })

unfoldable pub take_direct : Slot → M (Unit {0})
unfolding consume
take_direct x = modify λ s. consume x (x.get s).size (take (x.get s).size s.inp.next_in) s

-- As much as is needed and there, behind what has been copied before.
unfoldable pub sect_take : Slot → Stream → ℕ
sect_take x s = min ((x.get s).size - (x.get s).pos) (length s.inp.next_in)

unfoldable pub take_copy : Slot → M (Unit {0})
unfolding allocate consume sect_take
take_copy x = do
  when (λ s. (x.get s).pos == 0) (allocate x)
  modify λ s.
      consume x (sect_take x s)
        (take (x.get s).pos (x.get s).buf ++ take (sect_take x s) s.inp.next_in) s

unfoldable pub take_input : Slot → Bool → M (Unit {0})
unfolding take_direct take_copy
take_input x copy s = if not copy && ((x.get s).pos == 0) then take_direct x s else take_copy x s

abbrev pub is_short : Slot → Stream → Bool
is_short x s = ltb (x.get s).pos (x.get s).size

abbrev pub no_input : Stream → Bool
no_input s = length s.inp.next_in == 0

-- xd3_decode_section
unfoldable pub decode_section : Slot → State → Bool → M (Unit {0})
unfolding take_input
decode_section x nstate copy = do
  when (is_short x) (fail_if no_input input >> take_input x copy)
  fail_if (is_short x) input
  goto nstate
  on x λ d. record d { buf = take d.size d.buf; pos = 0 }

-- xd3_decode_finish_window
unfoldable pub finish_window : M (Unit {0})
finish_window = do
  modify λ s. record s {
    winbytes = 0;
    state = State.finish;
    data_sect = record s.data_sect { pos = 0 };
    inst_sect = record s.inst_sect { pos = 0 };
    addr_sect = record s.addr_sect { pos = 0 };
  }
  return_ output

unfoldable pub from_addr : Bool → M (Unit {0})
unfolding decode_section
from_addr copy = decode_section addr_slot State.emit copy

unfoldable pub from_inst : Bool → M (Unit {0})
unfolding decode_section from_addr
from_inst copy = do decode_section inst_slot State.sect_addr copy; from_addr copy

unfoldable pub from_data : Bool → M (Unit {0})
unfolding decode_section from_inst
from_data copy = do decode_section data_slot State.sect_inst copy; from_inst copy

unfoldable pub sections_case : Bool → State → M (Unit {0})
unfolding from_data from_inst from_addr
sections_case copy State.sect_data = from_data copy
sections_case copy State.sect_inst = from_inst copy
sections_case copy State.sect_addr = from_addr copy
sections_case copy other = return_ invalid_input

-- What is needed of the input, and what of it has not come yet.
abbrev pub need : Stream → ℕ
need s = ((s.inst_sect.size + s.addr_sect.size) % usize_mod + s.data_sect.size) % usize_mod

abbrev pub more : Stream → ℕ
more s = (need s + usize_mod - s.winbytes) % usize_mod

-- XD3_SKIP_WINDOW
unfoldable pub skip_body : ℕ → ℕ → M (Unit {0})
unfolding finish_window
skip_body want n = do
  modify λ s. record (decode_input_bytes n s) { winbytes = (s.winbytes + n) % usize_mod }
  fail_if (λ s. not (n == want)) input
  finish_window

-- The window's part of the stream, for xd3_decode_setup_buffers and xd3_decode_emit.
abbrev pub window_of : Stream → Window
window_of s = record {
  inst_sect = s.inst_sect.buf;
  data_sect = s.data_sect.buf;
  addr_sect = s.addr_sect.buf;
  acache = s.acache;
  position = s.position;
  maxpos = s.maxpos;
  cpylen = s.cpylen;
  tgtlen = s.tgtlen;
  current1 = s.current1;
  current2 = s.current2;
  out = s.out;
  space_out = s.space_out;
  copies_target = has_bit s.win_ind 2;
  checks_adler32 = has_bit s.win_ind 4 && not s.adler32_nover;
  adler32 = s.adler32;
  src = s.src;
}

unfoldable pub with_window : Window → Stream → Stream
with_window w s = record s {
  inst_sect = record s.inst_sect { buf = w.inst_sect };
  data_sect = record s.data_sect { buf = w.data_sect };
  addr_sect = record s.addr_sect { buf = w.addr_sect };
  acache = w.acache;
  position = w.position;
  cpylen = w.cpylen;
  current1 = w.current1;
  current2 = w.current2;
  out = w.out;
  space_out = w.space_out;
  src = w.src;
}

unfoldable pub small_buffer : Stream → Bool
small_buffer s = not (has_bit s.win_ind 2) && ltb s.space_out s.tgtlen

unfoldable pub set_up : Stream → Result Window → Outcome (Unit {0})
unfolding with_window
set_up s (ok w) = Outcome.done tt (with_window w s)
set_up s (err e) = Outcome.stop e s

-- xd3_decode_setup_buffers, with the allocator's answer where a larger buffer is needed
unfoldable pub larger_buffer : M (Unit {0})
unfolding set_up
larger_buffer = do
  a ← alloc
  λ s. set_up s (setup_buffers a (window_of s))
  modify λ s. record s { has_next_out = true }

unfoldable pub setup_out : M (Unit {0})
unfolding larger_buffer set_up small_buffer
setup_out s =
    if small_buffer s then larger_buffer s else set_up s (setup_buffers true (window_of s))

unfoldable pub read_sections : ℕ → ℕ → M (Unit {0})
unfolding skip_body finish_window setup_out sections_case
read_sections want n = do
  when (λ s. s.skip_window) (skip_body want n)
  λ s. sections_case (not (n == want)) s.state s
  when (λ s. s.skip_emit) finish_window
  setup_out

-- xd3_decode_sections
unfoldable pub decode_sections : M (Unit {0})
unfolding finish_window read_sections
decode_sections = do
  when (λ s. s.just_hdr) finish_window
  fail_if (λ s. ltb (usize_mod - 1 - s.inst_sect.size) s.addr_sect.size) internal
  fail_if
      (λ s.
        ltb (usize_mod - 1 - (s.inst_sect.size + s.addr_sect.size) % usize_mod) s.data_sect.size)
      internal
  λ s. read_sections (more s) (min (more s) (length s.inp.next_in)) s
