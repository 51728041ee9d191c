-- ===== src/Decoder/Runs.antt =====
-- Runs of the decoder's state machine, and its theorems at concrete inputs.
use swift_xdelta.Prelude.{
  invalid_input, ℕ, ◌≡◌, refl, true, false, Option, none, some, List, [], ◌∷◌, ◌++◌, Rvalue,
  gotheader, output,
}
use swift_xdelta.Integer.{decode_integer, decode_loop, sizeof_integer}
use swift_xdelta.Prelude.{replicate}
use swift_xdelta.AddrCache.{init_cache}
use swift_xdelta.Window.{Hinst, Turn, moved}
use swift_xdelta.Decoder.{
  State, Desect, Stream, return_, next_byte, byte, gather, gathered, bytes, integer_read,
  from_decoded, size, offset, answer, alloc,
}
use swift_xdelta.Decoder.Header.{
  step_vchead, step_hdrind, step_secondid, step_tablen, step_near, step_same, step_tabdat,
  step_applen, step_appdat, step_winind, secondary, table_length, near_modes, same_modes,
  alloc_array, alloc_cache, appheader_size, appheader_buffer, appheader_ready, appheader_bytes,
  init_window,
}
use swift_xdelta.Decoder.Lengths.{
  decode_header, header_case, step_cpylen, step_cpyoff, step_enclen, step_tgtlen, step_delind,
  step_datalen, step_instlen, step_addrlen, step_cksum, from_vchead, from_hdrind, from_secondid,
  from_tablen, from_near, from_same, from_tabdat, from_applen, from_appdat, from_winind,
  from_cpylen, from_cpyoff, from_enclen, from_tgtlen, from_delind, from_datalen, from_instlen,
  from_addrlen, copy_length, copy_offset, window_cksum, sizeof_size, enclen_check, header_done,
}
use swift_xdelta.Decoder.Resume.{feed}
use swift_xdelta.Decoder.Entry.{is_header, WaitsOf}
use swift_xdelta.Decoder.Taking.{TakenOf}
use swift_xdelta.Decoder.Taken.{decode_header-TakenOf}
use swift_xdelta.Decoder.Calls.{concat, more_calls, more_calls-concat, decode_header-Waits}
use swift_xdelta.Decoder.Body.{
  locate_source, before_emit, emitted, emit_window, from_emit, from_sections, keep_window,
  finish_case, input_case, decode_input,
}
use swift_xdelta.Window.{
  instruction_of, add_bytes, run_byte, parse_copy, sized_as, decode_instruction, output_halfinst,
  parse_both, parse_half, parse_halfinst, parse_size, parse_addr, advance,
}
use swift_xdelta.Window.Emit.{
  emit_loop, output_both, next_pair, check_window, checked, half_again, decode_emit, output_half,
  after_half1, half_loop, after_half2,
}
use swift_xdelta.Window.Setup.{setup_buffers, new_buffer}
use swift_xdelta.Words.{round_blksize}
use swift_xdelta.CodeTable.{rfc3284_code_table}
use swift_xdelta.CodeTable.Entries.{entry}
use swift_xdelta.Decoder.{M}
use swift_xdelta.Decoder.Sections.{
  finish_window, new_copy, allocate, consume, take_direct, sect_take, take_copy, take_input,
  decode_section, from_addr, from_inst, from_data, sections_case, skip_body, with_window,
  small_buffer, set_up, larger_buffer, setup_out, read_sections, decode_sections,
}

abbrev sect : Desect
sect = record { size = 0; pos = 0; buf = []; has_copied = false; alloc1 = 0 }

abbrev idle : Hinst
idle = record { type = 0; size = 0; addr = 0 }

-- A stream before its first call, with the allocator ready to give memory.
abbrev fresh : List ℕ → Stream
fresh bytes = record {
  inp = record { next_in = bytes; total_in = 0 };
  state = State.vchead;
  part32 = 0;
  part64 = 0;
  magic = [];
  hdr_ind = 0;
  secondid = 0;
  codetblsz = 0;
  acache = record { s_near = 0; s_same = 0; next_slot = 0; near_array = []; same_array = [] };
  appheadsz = 0;
  has_appheader = false;
  appheader = [];
  hdrsize = 0;
  answers = true ∷ true ∷ true ∷ true ∷ true ∷ true ∷ true ∷ [];
  win_ind = 0;
  current_window = 0;
  window_count = 0;
  winstart = 0;
  cpylen = 0;
  cpyoff = 0;
  position = 0;
  enclen = 0;
  tgtlen = 0;
  maxpos = 0;
  del_ind = 0;
  data_sect = sect;
  inst_sect = sect;
  addr_sect = sect;
  cksum = [];
  adler32 = 0;
  winbytes = 0;
  just_hdr = false;
  skip_window = false;
  skip_emit = false;
  adler32_nover = false;
  encoding = false;
  current1 = idle;
  current2 = idle;
  out = [];
  has_next_out = false;
  space_out = 0;
  total_out = 0;
  has_lastwin = false;
  lastspace = 0;
  lastlen = 0;
  laststart = 0;
  has_src = false;
  src = record {
    blksize = 2;
    curblkno = 0;
    onblk = 0;
    curblk = none;
    shiftby = 1;
    maskby = 1;
    cpyoff_blocks = 0;
    cpyoff_blkoff = 0;
    getblkno = 0;
    max_blkno = 0;
    onlastblk = 0;
    eof_known = false;
  };
}

-- The header of a delta, with an application header of two bytes, and the lengths of its window.
abbrev header_bytes : List ℕ
header_bytes = 0xd6 ∷ 0xc3 ∷ 0xc4 ∷ 0 ∷ 4 ∷ 2 ∷ 65 ∷ 66 ∷ 0 ∷ 9 ∷ 3 ∷ 0 ∷ 3 ∷ 1 ∷ 0 ∷ []

-- An addition of three bytes.
abbrev body_bytes : List ℕ
body_bytes = 97 ∷ 98 ∷ 99 ∷ 4 ∷ []

-- What a call returns, with the target's bytes.
abbrev seen : Turn (Rvalue × Stream) → Option (Rvalue × List ℕ)
seen (moved (e, s)) = some (e, s.out)
seen other = none

abbrev next : Turn (Rvalue × Stream) → List ℕ → Turn (Rvalue × Stream)
next (moved (e, s)) bytes = decode_input none (feed bytes s)
next other bytes = other

header_run : seen (decode_input none (fresh header_bytes)) ≡ some (gotheader, [])
unfolding decode_input input_case step_vchead step_hdrind step_secondid step_tablen step_near
    step_same step_tabdat step_applen step_appdat step_winind secondary table_length near_modes
    same_modes alloc_array alloc_cache appheader_size appheader_buffer appheader_ready
    appheader_bytes init_window decode_header header_case step_cpylen step_cpyoff step_enclen
    step_tgtlen step_delind step_datalen step_instlen step_addrlen step_cksum from_vchead
    from_hdrind from_secondid from_tablen from_near from_same from_tabdat from_applen from_appdat
    from_winind from_cpylen from_cpyoff from_enclen from_tgtlen from_delind from_datalen
    from_instlen from_addrlen copy_length copy_offset window_cksum sizeof_size enclen_check
    header_done next_byte byte gather gathered bytes integer_read from_decoded size offset answer
    alloc decode_integer decode_loop sizeof_integer init_cache
header_run = refl

-- The delta in one piece: the header, then the target, then the end of the window.
whole_run :
    seen (next (decode_input none (fresh (header_bytes ++ body_bytes))) [])
    ≡ some (output, 97 ∷ 98 ∷ 99 ∷ [])
unfolding decode_input input_case step_vchead step_hdrind step_secondid step_tablen step_near
    step_same step_tabdat step_applen step_appdat step_winind secondary table_length near_modes
    same_modes alloc_array alloc_cache appheader_size appheader_buffer appheader_ready
    appheader_bytes init_window decode_header header_case step_cpylen step_cpyoff step_enclen
    step_tgtlen step_delind step_datalen step_instlen step_addrlen step_cksum from_vchead
    from_hdrind from_secondid from_tablen from_near from_same from_tabdat from_applen from_appdat
    from_winind from_cpylen from_cpyoff from_enclen from_tgtlen from_delind from_datalen
    from_instlen from_addrlen copy_length copy_offset window_cksum sizeof_size enclen_check
    header_done finish_window new_copy allocate consume take_direct sect_take take_copy take_input
    decode_section from_addr from_inst from_data sections_case skip_body with_window small_buffer
    set_up larger_buffer setup_out read_sections decode_sections locate_source before_emit emitted
    emit_window from_emit from_sections keep_window finish_case next_byte byte gather gathered bytes
    integer_read from_decoded size offset answer alloc decode_integer decode_loop sizeof_integer
    init_cache setup_buffers new_buffer round_blksize decode_emit output_half decode_instruction
    parse_both parse_half parse_halfinst parse_size parse_addr advance instruction_of add_bytes
    sized_as parse_copy run_byte emit_loop output_both next_pair check_window checked half_again
    entry output_halfinst rfc3284_code_table after_half1 half_loop after_half2
whole_run = refl

abbrev pieces : List (List ℕ)
pieces =
    (0xd6 ∷ 0xc3 ∷ [])
    ∷ []
    ∷ (0xc4 ∷ 0 ∷ 4 ∷ 2 ∷ 65 ∷ [])
    ∷ (66 ∷ 0 ∷ 9 ∷ 3 ∷ 0 ∷ 3 ∷ 1 ∷ 0 ∷ 97 ∷ [])
    ∷ []

abbrev no_sections : M (Unit {0})
no_sections = return_ invalid_input

more_calls-concat_example :
    more_calls no_sections pieces (decode_header no_sections (fresh []))
    ≡ decode_header no_sections (feed (concat pieces) (fresh []))
unfolding is_header
more_calls-concat_example = more_calls-concat no_sections pieces (fresh []) refl

decode_header-Waits_example : WaitsOf (decode_header no_sections (fresh (0xd6 ∷ 0xc3 ∷ [])))
unfolding is_header
decode_header-Waits_example = decode_header-Waits no_sections (fresh (0xd6 ∷ 0xc3 ∷ [])) refl

-- Behind the header: a window of three bytes, whose sections are still to come.
abbrev body_stream : Stream
body_stream = record (fresh (97 ∷ 98 ∷ [])) {
  state = State.sect_data;
  tgtlen = 3;
  maxpos = 3;
  data_sect = record sect { size = 3 };
  inst_sect = record sect { size = 1 };
  acache = init_cache (record {
    s_near = 4;
    s_same = 3;
    next_slot = 9;
    near_array = replicate 4 7;
    same_array = replicate 768 7;
  });
}

decode_header-TakenOf_example :
    TakenOf (fresh header_bytes).inp (decode_header no_sections (fresh header_bytes))
unfolding is_header
decode_header-TakenOf_example = decode_header-TakenOf no_sections (fresh header_bytes) refl
