-- ===== src/Window.antt =====
-- xdelta3/xdelta3-decode.h: the decoding of a window's instructions (xd3_decode_parse_halfinst,
-- xd3_decode_instruction, xd3_decode_output_halfinst, xd3_decode_emit). A `usize_t` has 64 bits.
mod Runs
pub mod Reads
pub mod Emit
pub mod Overlap
pub mod Steps
pub mod Turns
pub mod Parse
pub mod Pairs
pub mod Halves
pub mod Safety
pub mod Whole
pub mod Setup
use swift_xdelta.Prelude.{
  ℕ, zero, suc, ◌+◌, ◌-◌, ◌%◌, ◌^◌, Bool, true, false, not, ◌&&◌, ◌||◌, Option, none, some, List,
  [], ◌∷◌, ◌++◌, length, take, drop, replicate, get_elem?,
}
use swift_xdelta.Prelude.{ltb, leb, ◌==◌, if◌then◌else◌, Rvalue, Result, ok, err, ◌>>=◌}
use swift_xdelta.Prelude.{invalid_input, internal, unimplemented, toofarback}
use swift_xdelta.Integer.{uint64, read_integer}
use swift_xdelta.AddrCache.{usize_mod, Cache, decode_address}
use swift_xdelta.CodeTable.{xd3_noop, xd3_add, xd3_run, xd3_cpy, Dinst}
use swift_xdelta.CodeTable.Entries.{entry}
use swift_xdelta.Source.{Source, Getblk, blksize_add, getblk}

-- `xd3_hinst`
pub record Hinst : Type 0 where
  pub type : ℕ
  pub size : ℕ
  pub addr : ℕ

-- `xd3_stream`, what the window's loop uses of it. Each section is what stands from its `buf` up to
-- its `buf_max`; `out` is the `avail_out` bytes written from `next_out`.
pub record Window : Type 0 where
  pub inst_sect : List ℕ
  pub data_sect : List ℕ
  pub addr_sect : List ℕ
  pub acache : Cache
  pub position : ℕ
  pub maxpos : ℕ
  pub cpylen : ℕ
  pub tgtlen : ℕ
  pub current1 : Hinst
  pub current2 : Hinst
  pub out : List ℕ
  pub space_out : ℕ
  pub copies_target : Bool
  pub checks_adler32 : Bool
  pub adler32 : ℕ
  pub src : Source

-- How a step ends. A call that the source block's client interrupted goes on from its state; after
-- any other error the stream is not used again. `unwritten` is a read of memory that nothing has
-- written, and `spent` the end of the model's fuel.
pub data Turn {ℓ} (A : Type ℓ) : Type ℓ where
  moved : A → Turn A
  suspended : Rvalue → A → Turn A
  failed : Rvalue → Turn A
  unwritten spent : Turn A

-- The size, where the instruction's entry has none.
unfoldable pub sized_as : Window → Hinst → Result (ℕ × List ℕ) → Result (Window × Hinst)
sized_as w i (err e) = err invalid_input
sized_as w i (ok (size, rest)) = ok (record w { inst_sect = rest }, record i { size = size })

unfoldable pub parse_size : Window → Hinst → Result (Window × Hinst)
unfolding sized_as
parse_size w i = if i.size == 0 then sized_as w i (read_integer uint64 w.inst_sect) else ok (w, i)

-- The address of a copy, which has to be behind the bytes it may read.
unfoldable pub check_copy : Window × Hinst → Result (Window × Hinst)
check_copy (w, i) =
    if leb w.position i.addr
    then err invalid_input
    else if ltb i.addr w.cpylen && ltb w.cpylen ((i.addr + i.size) % usize_mod)
    then err invalid_input
    else ok (w, i)

unfoldable pub parse_copy : Window → Hinst → Result (Window × Hinst)
unfolding check_copy
parse_copy w i = do
  r ← decode_address w.acache w.position (i.type - xd3_cpy) w.addr_sect
  check_copy (record w { addr_sect = r.rest; acache = r.cache }, record i { addr = r.val })

unfoldable pub parse_addr : Window × Hinst → Result (Window × Hinst)
unfolding parse_copy
parse_addr (w, i) = if leb xd3_cpy i.type then parse_copy w i else ok (w, i)

unfoldable pub advance : Window × Hinst → Result (Window × Hinst)
advance (w, i) =
    let position = (w.position + i.size) % usize_mod in
    if ltb w.maxpos position then err invalid_input else ok (record w { position = position }, i)

unfoldable pub parse_halfinst : Window → Hinst → Result (Window × Hinst)
parse_halfinst w i = parse_size w i >>= parse_addr >>= advance

unfoldable pub parse_half : Window → Hinst → Result (Window × Hinst)
parse_half w i = if i.type == xd3_noop then ok (w, i) else parse_halfinst w i

-- The addresses of the two halves are what the last instruction left there.
unfoldable pub parse_both : Window → Dinst → Result Window
parse_both w d = do
  (w1, i1) ← parse_half w (record w.current1 { type = d.type1; size = d.size1 })
  (w2, i2) ← parse_half w1 (record w1.current2 { type = d.type2; size = d.size2 })
  ok (record w2 { current1 = i1; current2 = i2 })

unfoldable pub instruction_of : Window → List ℕ → Result Window
instruction_of w [] = err invalid_input
instruction_of w (code ∷ rest) = parse_both (record w { inst_sect = rest }) (entry code)

unfoldable pub decode_instruction : Window → Result Window
unfolding instruction_of
decode_instruction w = instruction_of w w.inst_sect

-- `inst->type = XD3_NOOP`; the size is cleared by the copies only.
abbrev noop : Hinst → Hinst
noop i = record i { type = xd3_noop }

abbrev empty : Hinst → Hinst
empty i = record i { type = xd3_noop; size = 0 }

unfoldable pub run_byte : Window → Hinst → List ℕ → Turn (Window × Hinst)
run_byte w i [] = failed invalid_input
run_byte w i (b ∷ rest) =
    moved (record w { data_sect = rest; out = w.out ++ replicate i.size b }, noop i)

unfoldable pub add_bytes : Window → Hinst → Turn (Window × Hinst)
add_bytes w i =
    if ltb (length w.data_sect) i.size
    then failed invalid_input
    else moved (
      record w { data_sect = drop i.size w.data_sect; out = w.out ++ take i.size w.data_sect },
      noop i,
    )

-- A copy byte by byte, which may read what it has just written.
unfoldable pub then_copy : (List ℕ → Option (List ℕ)) → List ℕ → Option ℕ → Option (List ℕ)
then_copy more out none = none
then_copy more out (some b) = more (out ++ b ∷ [])

unfoldable pub overlap_copy : ℕ → ℕ → List ℕ → Option (List ℕ)
unfolding then_copy
overlap_copy zero from out = some out
overlap_copy (suc n) from out = then_copy (overlap_copy n (from + 1)) out (get_elem? out from)

unfoldable pub wrote : Window → Hinst → Option (List ℕ) → Turn (Window × Hinst)
wrote w i none = unwritten
wrote w i (some out) = moved (record w { out = out }, i)

unfoldable pub copy_target : Window → Hinst → Turn (Window × Hinst)
unfolding wrote
copy_target w i = wrote w (empty i) (overlap_copy i.size (i.addr - w.cpylen) w.out)

-- `memcpy` of bytes of the current block.
unfoldable pub block_bytes : Option (List ℕ) → ℕ → ℕ → Option (List ℕ)
block_bytes none from n = none
block_bytes (some bs) from n =
    if leb (from + n) (length bs) then some (take n (drop from bs)) else none

unfoldable pub wrote_block : Window → Hinst → Option (List ℕ) → Turn (Window × Hinst)
wrote_block w i none = unwritten
wrote_block w i (some bs) = moved (record w { out = w.out ++ bs }, i)

-- The part of a source copy that the current block has.
unfoldable pub copy_block : Window → Hinst → Source → ℕ → Turn (Window × Hinst)
unfolding wrote_block block_bytes
copy_block w i s blkoff =
    if not (s.onblk == s.blksize) && ltb s.onblk ((blkoff + i.size) % usize_mod)
    then failed invalid_input
    else if leb ((blkoff + i.size) % usize_mod) s.blksize
    then wrote_block w (empty i) (block_bytes s.curblk blkoff i.size)
    else (let take = s.blksize - blkoff in
        wrote_block w (record i { size = i.size - take; addr = (i.addr + take) % usize_mod })
          (block_bytes s.curblk blkoff take))

unfoldable pub with_block : Window → Hinst → ℕ → Result (Unit {0}) × Source → Turn (Window × Hinst)
unfolding copy_block
with_block w i blkoff (err toofarback, s) = suspended internal (record w { src = s }, i)
with_block w i blkoff (err e, s) = suspended e (record w { src = s }, i)
with_block w i blkoff (ok u, s) = copy_block (record w { src = s }) i s blkoff

unfoldable pub copy_source : Option Getblk → Window → Hinst → Turn (Window × Hinst)
unfolding with_block
copy_source client w i =
    let (block, blkoff) = blksize_add w.src.cpyoff_blocks w.src.cpyoff_blkoff w.src i.addr in
    with_block w i blkoff (getblk client w.src block)

unfoldable pub copy_half : Option Getblk → Window → Hinst → Turn (Window × Hinst)
copy_half client w i =
    if ltb i.addr w.cpylen
    then (if w.copies_target then failed unimplemented else copy_source client w i)
    else copy_target w i

unfoldable pub output_halfinst : Option Getblk → Window → Hinst → Turn (Window × Hinst)
unfolding run_byte add_bytes copy_half
output_halfinst client w i =
    if ltb (usize_mod - 1 - length w.out) i.size || ltb w.space_out (length w.out + i.size)
    then failed invalid_input
    else if i.type == xd3_run
    then run_byte w i w.data_sect
    else if i.type == xd3_add
    then add_bytes w i
    else copy_half client w i
