-- ===== src/Encoder/Runs.antt =====
-- Runs of the encoder's instructions, and its theorems at concrete inputs.
use swift_xdelta.Prelude.{
  sym, some, length, ErrAll, enomem, ℕ, zero, suc, ◌+◌, ◌<◌, ◌≡◌, refl, arith, inl, true, false,
  none, List, [], ◌∷◌, get_elem?, replicate, ok,
}
use swift_xdelta.Integer.{encode_integer, sizeof_integer}
use swift_xdelta.Output.{Section}
use swift_xdelta.Output.Pages.{IsSection, contents}
use swift_xdelta.Output.Sections.{
  Outputs, AreValid, page_sink, page_sink-FailsWith, section_of, emit,
}
use swift_xdelta.Sink.{Sect, hdr, emit_size}
use swift_xdelta.AddrCache.{
  Cache, init_cache, update_cache, choose_mode, search_near, encode_address,
}
use swift_xdelta.AddrCache.State.{init_cache-IsCleared}
use swift_xdelta.CodeTable.{
  Rinst, rfc3284_code_table, choose_code1, choose_code2, choose_instruction,
}
use swift_xdelta.CodeTable.Entries.{entry}
use swift_xdelta.Source.{Source}
use swift_xdelta.Window.{Hinst, Window}
use swift_xdelta.Encoder.{
  Encoder, enc_instr, put, put_size, emit_single, emit_double, copy_addr, put_copy, put_run,
  put_add, put_operands, free_nonadd, queue, queue_single, queue_double, finish_encoding, iopt_add,
  add_encoding, flush_iout, add_finalize,
}
use swift_xdelta.Encoder.Buffer.{
  compact, compact_used, verdict, by_third, overlapping, shorten, flush_loop, flush_instructions,
  encode_instr,
}
use swift_xdelta.Encoder.Matches.{IsMatch, Repeats}
use swift_xdelta.Encoder.Operands.{no_source}
use swift_xdelta.Encoder.Compact.{AllBehind}
use swift_xdelta.Encoder.Parts.{Compacted, compact_used-Compacted}
use swift_xdelta.Encoder.Cuts.{AreOrdered, IsMatch-first}
use swift_xdelta.Encoder.Counts.{length-compact_used}
use swift_xdelta.Encoder.Slots.{iopt_erase, erase_loop, back, without_back, found_match}
use swift_xdelta.Encoder.Push.{
  EndsBefore, Erased, iopt_erase-Erased, Pushed, found_match-iopt_erase,
}
use swift_xdelta.Encoder.Header.{
  Heading, emit_hdr, put_file_header, put_appheader, put_each, put_source_window, used_source,
  put_lengths, put_cksum, enc_len, lengths_of,
}
use swift_xdelta.Encoder.Declared.{HeadOf, emit_hdr-HeadOf}
use swift_xdelta.Encoder.Errors.{encode_instr-ErrAll}
use swift_xdelta.Encoder.RoundTrip.{Asks, IsStart, Decodes, sent, decode_emit-encode_instr}

abbrev empty_section : Section
empty_section = record { full = []; tail = record { base = replicate 16 0; next = 0; avail = 16 } }

abbrev outputs : Outputs
outputs = record {
  pool = record { free_list = []; answers = [] };
  hdr_out = empty_section;
  data_out = empty_section;
  inst_out = empty_section;
  addr_out = empty_section;
}

IsSection-outputs : (s : Sect) → IsSection (section_of outputs s)
IsSection-outputs hdr = omega arith
IsSection-outputs _ = omega arith

outputs-AreValid : AreValid outputs
outputs-AreValid = record { pool = tt; all = IsSection-outputs }

abbrev blank : Cache
blank = record {
  s_near = 4;
  s_same = 3;
  next_slot = 0;
  near_array = replicate 4 7;
  same_array = replicate 768 7;
}

abbrev blank_inst : Rinst
blank_inst = record { type = 0; xtra = 0; code1 = 0; code2 = 0; pos = 0; size = 0; addr = 0 }

-- The bytes from 3 on are copied from the start; the second match overlaps the first.
abbrev target : List ℕ
target = 1 ∷ 2 ∷ 3 ∷ 1 ∷ 2 ∷ 3 ∷ 1 ∷ 2 ∷ 9 ∷ []

abbrev first : Rinst
first = record blank_inst { type = 3; pos = 3; size = 4; addr = 0 }

abbrev second : Rinst
second = record blank_inst { type = 3; pos = 4; size = 4; addr = 1 }

abbrev encoder : Encoder page_sink
encoder = record {
  out = outputs;
  acache = init_cache blank;
  next_in = target;
  unencoded_offset = 0;
  iout = none;
  iopt_used = first ∷ second ∷ [];
  iopt_free = [];
  iopt_size = 2;
  iopt_unlimited = true;
  i_slots_used = 2;
  enc_state = enc_instr;
  taroff = 0;
  src = none;
  srcbase = 0;
  srclen = 0;
  srcwin_decided = false;
  srcwin_decided_early = false;
  srcwin_cksum_pos = 0;
  match_minaddr = 0;
  match_maxaddr = 0;
  stats = record {
    n_scpy = 0;
    n_tcpy = 0;
    n_add = 0;
    n_run = 0;
    l_scpy = 0;
    l_tcpy = 0;
    l_add = 0;
    l_run = 0;
  };
}

abbrev no_blocks : Source
no_blocks = record {
  blksize = 2;
  curblkno = 0;
  onblk = 0;
  curblk = none;
  shiftby = 1;
  maskby = 1;
  cpyoff_blocks = 0;
  cpyoff_blkoff = 0;
  getblkno = 0;
  max_blkno = 0;
  onlastblk = 0;
  eof_known = false;
}

abbrev idle : Hinst
idle = record { type = 0; size = 0; addr = 0 }

abbrev window : Window
window = record {
  inst_sect = [];
  data_sect = [];
  addr_sect = [];
  acache = init_cache blank;
  position = 0;
  maxpos = 9;
  cpylen = 0;
  tgtlen = 9;
  current1 = idle;
  current2 = idle;
  out = [];
  space_out = 9;
  copies_target = false;
  checks_adler32 = false;
  adler32 = 0;
  src = no_blocks;
}

abbrev after : Outputs
after = (encode_instr blank_inst encoder).1.out

-- Of the two matches the first is taken, with a code of its own and of the bytes before it.
encodes :
    ((encode_instr blank_inst encoder).0 ≡ ok tt)
    × (contents after.inst_out ≡ 169 ∷ 3 ∷ [])
    × (contents after.data_out ≡ 1 ∷ 2 ∷ 3 ∷ 2 ∷ 9 ∷ [])
    × (contents after.addr_out ≡ 0 ∷ [])
unfolding encode_instr flush_instructions compact compact_used verdict by_third overlapping shorten
    flush_loop put put_size emit_single emit_double copy_addr put_copy put_run put_add put_operands
    free_nonadd queue queue_single queue_double finish_encoding iopt_add add_encoding flush_iout
    add_finalize encode_integer emit_size emit init_cache update_cache choose_mode search_near
    encode_address rfc3284_code_table choose_code1 choose_code2 choose_instruction entry
encodes = (refl, refl, refl, refl)

first-IsMatch : IsMatch target first
unfolding Repeats
first-IsMatch = record {
  some_size = omega arith;
  inside = omega arith;
  kind = inl (refl, omega arith, refl, repeats);
}
  where
    repeats : (j : ℕ) → j < 4 → get_elem? target (0 + j) ≡ get_elem? target (3 + j)
    repeats zero lt = refl
    repeats (suc zero) lt = refl
    repeats (suc (suc zero)) lt = refl
    repeats (suc (suc (suc zero))) lt = refl
    repeats (suc (suc (suc (suc j)))) lt = absurd (omega arith)

second-IsMatch : IsMatch target second
unfolding Repeats
second-IsMatch = record {
  some_size = omega arith;
  inside = omega arith;
  kind = inl (refl, omega arith, refl, repeats);
}
  where
    repeats : (j : ℕ) → j < 4 → get_elem? target (1 + j) ≡ get_elem? target (4 + j)
    repeats zero lt = refl
    repeats (suc zero) lt = refl
    repeats (suc (suc zero)) lt = refl
    repeats (suc (suc (suc zero))) lt = refl
    repeats (suc (suc (suc (suc j)))) lt = absurd (omega arith)

both-AreOrdered : AreOrdered target (first ∷ second ∷ [])
both-AreOrdered = (first-IsMatch, omega arith, omega arith, second-IsMatch)

window-Asks : Asks target window
window-Asks = record {
  for = record { inside = omega arith; word = omega arith; room = omega arith };
  tgtlen = refl;
  cksum = λ on. cc;
  idle1 = refl;
  idle2 = refl;
}

encoder-IsStart : IsStart page_sink none window target encoder
unfolding init_cache
encoder-IsStart = record {
  ready = record {
    valid = outputs-AreValid;
    cache =
        (init_cache-IsCleared blank (omega arith) (omega arith)
          (record { near_len = refl; same_len = refl })).cache;
    near = refl;
    same = refl;
    settled = no_source false;
    input = refl;
    offset = refl;
  };
  no_iout = refl;
  offset = refl;
  no_inst = refl;
  no_adds = refl;
  no_addr = refl;
}

decode_emit-encode_instr_example : Decodes none (sent page_sink window encoder.acache after) target
decode_emit-encode_instr_example =
    decode_emit-encode_instr page_sink none window target encoder blank_inst window-Asks
      encoder-IsStart (omega arith) both-AreOrdered encodes.0

compact_used-Compacted_example :
    Compacted target 0 (first ∷ second ∷ []) (compact_used true (first ∷ second ∷ []) []).0
unfolding AllBehind
compact_used-Compacted_example =
    compact_used-Compacted target 0 (first ∷ second ∷ []) [] (omega arith) both-AreOrdered
      (omega arith)

encode_instr-ErrAll_example : ErrAll (λ code. code ≡ enomem) (encode_instr blank_inst encoder).0
encode_instr-ErrAll_example =
    encode_instr-ErrAll page_sink (λ code. code ≡ enomem) none window target encoder blank_inst
      page_sink-FailsWith window-Asks encoder-IsStart (omega arith) both-AreOrdered

-- A shorter match, and the longer one that covers it.
abbrev short : Rinst
short = record blank_inst { type = 3; pos = 4; size = 3; addr = 1 }

abbrev long : Rinst
long = record blank_inst { type = 3; pos = 3; size = 5; addr = 0 }

abbrev one_used : Encoder page_sink
one_used = record encoder { iopt_used = short ∷ [] }

short-IsMatch : IsMatch target short
short-IsMatch = IsMatch-first target second 3 second-IsMatch (omega arith) (omega arith)

long-IsMatch : IsMatch target long
unfolding Repeats
long-IsMatch = record {
  some_size = omega arith;
  inside = omega arith;
  kind = inl (refl, omega arith, refl, repeats);
}
  where
    repeats : (j : ℕ) → j < 5 → get_elem? target (0 + j) ≡ get_elem? target (3 + j)
    repeats zero lt = refl
    repeats (suc zero) lt = refl
    repeats (suc (suc zero)) lt = refl
    repeats (suc (suc (suc zero))) lt = refl
    repeats (suc (suc (suc (suc zero)))) lt = refl
    repeats (suc (suc (suc (suc (suc j))))) lt = absurd (omega arith)

short-EndsBefore : EndsBefore 8 (short ∷ [])
unfolding EndsBefore back
short-EndsBefore = omega arith

covered_is_free : (iopt_erase one_used 3).iopt_free ≡ short ∷ []
unfolding iopt_erase erase_loop back without_back
covered_is_free = refl

iopt_erase-Erased_example : Erased target 3 8 one_used (iopt_erase one_used 3)
iopt_erase-Erased_example = iopt_erase-Erased target 3 8 one_used short-IsMatch short-EndsBefore

found_match-iopt_erase_example :
    Erased target 3 8 one_used (iopt_erase one_used 3)
    × Pushed target
        (iopt_erase one_used 3)
        long
        (found_match blank_inst none (iopt_erase one_used 3) 3 5 0 0)
found_match-iopt_erase_example =
    found_match-iopt_erase target blank_inst none one_used short [] 3 5 0 0 short-IsMatch
      short-EndsBefore covered_is_free long-IsMatch

length-compact_used_example :
    length (compact_used false (first ∷ second ∷ []) []).0
      + length (compact_used false (first ∷ second ∷ []) []).1
    ≡ 2
length-compact_used_example = length-compact_used false (first ∷ second ∷ []) []

abbrev heading : Heading
heading = record {
  current_window = 0;
  enc_appheader = some (65 ∷ 66 ∷ []);
  flag_adler32 = false;
  flag_adler32_recode = false;
  recode_adler32 = 0;
}

heading_small :
    (app : List ℕ) → heading.enc_appheader ≡ some app → length app < 18446744073709551616
heading_small app e = let same : 65 ∷ 66 ∷ [] ≡ app = cc in rw (sym same) (omega arith)

heads :
    ((emit_hdr encoder heading).0 ≡ ok tt)
    × (contents (emit_hdr encoder heading).1.out.hdr_out
        ≡ 0xd6 ∷ 0xc3 ∷ 0xc4 ∷ 0 ∷ 4 ∷ 2 ∷ 65 ∷ 66 ∷ 0 ∷ 5 ∷ 9 ∷ 0 ∷ 0 ∷ 0 ∷ 0 ∷ [])
unfolding emit_hdr put_file_header put_appheader put_each put put_size put_source_window used_source
    put_lengths put_cksum enc_len lengths_of emit_size emit encode_integer sizeof_integer
heads = (refl, refl)

emit_hdr-HeadOf_example : HeadOf page_sink encoder heading (emit_hdr encoder heading).1.out
emit_hdr-HeadOf_example =
    emit_hdr-HeadOf page_sink encoder heading outputs-AreValid (omega arith) (omega arith)
      (omega arith) (omega arith) heading_small heads.0
