-- ===== src/Source.antt =====
-- xdelta3/xdelta3.h and xdelta3/xdelta3.c: the source file in blocks (xd3_source, xd3_blksize_div,
-- xd3_blksize_add, xd3_getblk). A `usize_t` has 64 bits and an `xoff_t` 32. The client's
-- `getblk` is a parameter.
mod Runs
pub mod Blocks
pub mod Fetch
pub mod Flat
use swift_xdelta.Prelude.{
  ℕ, ◌+◌, ◌/◌, ◌%◌, ◌^◌, bit_and, Bool, true, false, ◌&&◌, not, Option, none, some,
}
use swift_xdelta.Prelude.{List, ltb, ◌==◌, if◌then◌else◌, Result, ok, err, getsrcblk}
use swift_xdelta.AddrCache.{usize_mod}
use swift_xdelta.Integer.{xoff_mod}

-- `xd3_source`, the fields that the decoder uses. A null `curblk` is `none`.
pub record Source : Type 0 where
  pub blksize : ℕ
  pub curblkno : ℕ
  pub onblk : ℕ
  pub curblk : Option (List ℕ)
  pub shiftby : ℕ
  pub maskby : ℕ
  pub cpyoff_blocks : ℕ
  pub cpyoff_blkoff : ℕ
  pub getblkno : ℕ
  pub max_blkno : ℕ
  pub onlastblk : ℕ
  pub eof_known : Bool

-- The client's callback fills in the current block, or returns a code.
abbrev pub Getblk : Type 0
Getblk = Source → ℕ → Result (Unit {0}) × Source

unfoldable pub blksize_div : ℕ → Source → ℕ × ℕ
blksize_div offset s = (offset / 2 ^ s.shiftby, bit_and offset s.maskby)

unfoldable pub blksize_add : ℕ → ℕ → Source → ℕ → ℕ × ℕ
blksize_add blkno blkoff s add =
    let off = (blkoff + add) % usize_mod in
    let blkdiff = off / 2 ^ s.shiftby in
    if blkdiff == 0 then (blkno, off) else ((blkno + blkdiff) % xoff_mod, bit_and off s.maskby)

-- What xd3_getblk records of a block that is there.
past_frontier : Source → ℕ → Source
past_frontier s blkno =
    if ltb s.max_blkno blkno
    then record s {
      max_blkno = blkno;
      eof_known = if s.onblk == s.blksize then s.eof_known else true;
    }
    else s

last_block : Source → ℕ → Source
last_block s blkno = if blkno == s.max_blkno then record s { onlastblk = s.onblk } else s

note_block : Source → ℕ → Source
unfolding past_frontier last_block
note_block s blkno = last_block (past_frontier s blkno) blkno

noted : ℕ → Result (Unit {0}) × Source → Result (Unit {0}) × Source
unfolding note_block
noted blkno (err e, s) = (err e, s)
noted blkno (ok u, s) = (ok tt, note_block s blkno)

ask_client : Option Getblk → Source → ℕ → Result (Unit {0}) × Source
unfolding noted
ask_client none s blkno = (err getsrcblk, s)
ask_client (some client) s blkno = noted blkno (client s blkno)

unfoldable pub is_some : Option (List ℕ) → Bool
is_some none = false
is_some (some bs) = true

unfoldable pub getblk : Option Getblk → Source → ℕ → Result (Unit {0}) × Source
unfolding ask_client note_block is_some
getblk client s blkno =
    if is_some s.curblk && (blkno == s.curblkno)
    then (ok tt, note_block s blkno)
    else ask_client client (record s { getblkno = blkno }) blkno
