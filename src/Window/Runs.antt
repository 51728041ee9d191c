-- ===== src/Window/Runs.antt =====
-- Runs of the window decoder, and its theorems at concrete inputs.
use swift_xdelta.Prelude.{
  replicate, length-replicate, ℕ, ◌+◌, ◌≡◌, refl, arith, Option, none, some, List, [], ◌∷◌, false,
  OkAll, ok,
}
use swift_xdelta.AddrCache.{init_cache, decode_address, resolve, update_cache}
use swift_xdelta.AddrCache.Reads.{init_cache-IsReadable}
use swift_xdelta.Source.{Source, Getblk, getblk, blksize_add}
use swift_xdelta.Source.Blocks.{IsSource, IsClient}
use swift_xdelta.Window.{
  Hinst, Window, Turn, moved, overlap_copy, decode_instruction, output_halfinst, parse_both,
  parse_half, parse_halfinst, parse_size, parse_addr, advance, copy_source, copy_target,
}
use swift_xdelta.CodeTable.Entries.{entry}
use swift_xdelta.CodeTable.{rfc3284_code_table}
use swift_xdelta.Integer.{read_integer, read_loop}
use swift_xdelta.Window.Emit.{decode_emit, output_half, after_half1, half_loop, after_half2}
use swift_xdelta.Window.Steps.{IsRoomy, StepOf}
use swift_xdelta.Window.Overlap.{Copied, overlap_copy-Copied}
use swift_xdelta.Window.Turns.{output_halfinst-StepOf}
use swift_xdelta.Window.Pairs.{Instruction, decode_instruction-Instruction}
use swift_xdelta.Window.Setup.{IsFresh, setup_buffers, setup_buffers-IsWindow}
use swift_xdelta.Prelude.{◌≤◌, true}
use swift_xdelta.Window.Safety.{IsWindow, IsDecoding}
use swift_xdelta.Window.Whole.{EndsWell, decode_emit-EndsWell}

abbrev idle : Hinst
idle = record { type = 0; size = 0; addr = 0 }

-- A source of blocks of two bytes, none of which is in memory.
abbrev source : Source
source = record {
  blksize = 2;
  curblkno = 0;
  onblk = 0;
  curblk = none;
  shiftby = 1;
  maskby = 1;
  cpyoff_blocks = 0;
  cpyoff_blkoff = 1;
  getblkno = 0;
  max_blkno = 0;
  onlastblk = 0;
  eof_known = false;
}

-- A client that has full blocks of the bytes 10, 11, 12 and so on.
abbrev client : Getblk
client s b = (
  ok tt,
  record s { curblkno = b; onblk = s.blksize; curblk = some (replicate s.blksize (10 + b)) },
)

-- A copy of three bytes from the source, an addition of one byte, and a copy of six that starts
-- three bytes before its own output.
abbrev window : Window
window = record {
  inst_sect = 19 ∷ 4 ∷ 2 ∷ 22 ∷ [];
  data_sect = 7 ∷ [];
  addr_sect = 0 ∷ 6 ∷ [];
  acache = init_cache (record {
    s_near = 4;
    s_same = 3;
    next_slot = 9;
    near_array = replicate 4 7;
    same_array = replicate 768 7;
  });
  position = 5;
  maxpos = 16;
  cpylen = 5;
  tgtlen = 11;
  current1 = idle;
  current2 = idle;
  out = [];
  space_out = 16;
  copies_target = false;
  checks_adler32 = false;
  adler32 = 0;
  src = source;
}

-- The bytes of the target, where the window is finished.
out_of : Turn Window → Option (List ℕ)
out_of (moved w) = some w.out
out_of other = none

-- The four bytes of the source from its second on, the addition, and the copy that overtakes itself.
emit_run :
    out_of (decode_emit (some client) window)
    ≡ some (10 ∷ 11 ∷ 11 ∷ 12 ∷ 7 ∷ 11 ∷ 11 ∷ 12 ∷ 7 ∷ 11 ∷ 11 ∷ [])
unfolding out_of decode_emit output_half decode_instruction parse_both parse_half parse_halfinst
    parse_size parse_addr advance entry decode_address read_integer read_loop resolve update_cache
    copy_source copy_target overlap_copy output_halfinst getblk blksize_add init_cache
    rfc3284_code_table after_half1 half_loop after_half2
emit_run = refl

IsSource-source : IsSource source
IsSource-source = record { size = refl; mask = refl; held = tt }

IsClient-client : IsClient (some client)
IsClient-client s b h =
    let len = length-replicate {A = ℕ} s.blksize (10 + b) in
    (
      record { size = h.size; mask = h.mask; held = (omega (arith, len), omega arith) },
      refl,
      (replicate s.blksize (10 + b), refl, omega (arith, len), omega arith),
    )

IsRoomy-window : IsRoomy window
IsRoomy-window = record {
  room = omega arith;
  fits = omega arith;
  blocks = omega arith;
  source = IsSource-source;
}

IsWindow-window : IsWindow window
IsWindow-window = record {
  roomy = IsRoomy-window;
  half1 = λ c. absurd (omega arith);
  half2 = λ c. absurd (omega arith);
  position = refl;
}

IsDecoding-window : IsDecoding window
IsDecoding-window = record {
  window = IsWindow-window;
  cache = init_cache-IsReadable _ refl refl (record { near_len = refl; same_len = refl });
}

decode_emit-EndsWell_example : EndsWell window (decode_emit (some client) window)
decode_emit-EndsWell_example =
    decode_emit-EndsWell (some client) window IsClient-client IsDecoding-window

overlap_copy-Copied_example : Copied 6 1 (2 ∷ 11 ∷ 2 ∷ 12 ∷ 7 ∷ [])
overlap_copy-Copied_example = overlap_copy-Copied 6 1 (2 ∷ 11 ∷ 2 ∷ 12 ∷ 7 ∷ []) (omega arith)

decode_instruction-Instruction_example : OkAll (Instruction window) (decode_instruction window)
decode_instruction-Instruction_example = decode_instruction-Instruction window (omega arith)

-- A copy of four bytes from the source, of which each block has two.
abbrev source_copy : Hinst
source_copy = record { type = 3; size = 4; addr = 0 }

output_halfinst-StepOf_example : StepOf window source_copy (output_halfinst none window source_copy)
output_halfinst-StepOf_example =
    output_halfinst-StepOf none window source_copy tt IsRoomy-window
      (λ c. (omega arith, λ lt. omega arith)) (λ e. absurd (omega arith))

-- The window before it has a buffer of its own.
abbrev unbuffered : Window
unbuffered = record window { space_out = 0 }

IsFresh-unbuffered : IsFresh unbuffered
IsFresh-unbuffered = record {
  source = IsSource-source;
  nothing = refl;
  idle = (refl, refl);
  position = refl;
  target = omega arith;
  copy = omega arith;
  block = omega arith;
  buffer = omega arith;
}

setup_buffers-IsWindow_example :
    OkAll
      (λ v. IsWindow v × (v.tgtlen ≤ v.space_out) × (v.tgtlen ≡ 11))
      (setup_buffers true unbuffered)
setup_buffers-IsWindow_example = setup_buffers-IsWindow true unbuffered IsFresh-unbuffered
