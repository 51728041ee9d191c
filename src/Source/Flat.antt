-- ===== src/Source/Flat.antt =====
-- Block numbers and offsets stand for flat offsets into the source.
use swift_xdelta.Prelude.{ℕ, ◌+◌, ◌*◌, ◌/◌, ◌%◌, ◌^◌, ◌<◌, ◌≡◌, arith, ◌==◌, Bool-cases, inl, inr}
use swift_xdelta.Prelude.Bits.{bit_and_low}
use swift_xdelta.AddrCache.{usize_mod}
use swift_xdelta.Integer.{xoff_mod}
use swift_xdelta.Source.{Source, blksize_add, blksize_div}
use swift_xdelta.Source.Blocks.{IsSource}
use native.Mathlib.Nat.{div-add-mod, mul-add}

-- The offset in the source that a block number and an offset in the block stand for.
abbrev pub flat : Source → ℕ × ℕ → ℕ
flat s (blkno, blkoff) = s.blksize * blkno + blkoff

-- xd3_blksize_div splits an offset without loss.
pub blksize_div-flat :
    (offset : ℕ) (s : Source) → IsSource s → flat s (blksize_div offset s) ≡ offset
unfolding blksize_div
blksize_div-flat offset s h =
    rw (h.size, h.mask, bit_and_low s.shiftby offset) (div-add-mod offset (2 ^ s.shiftby))

-- xd3_blksize_add moves on by `add` bytes, as long as the sums fit the machine's words.
pub blksize_add-flat :
    (blkno blkoff : ℕ) (s : Source) (add : ℕ)
    → IsSource s
    → blkoff + add < usize_mod
    → blkno + (blkoff + add) / 2 ^ s.shiftby < xoff_mod
    → flat s (blksize_add blkno blkoff s add) ≡ flat s (blkno, blkoff) + add
unfolding blksize_add
blksize_add-flat blkno blkoff s add h fits small =
    let no_wrap : (blkoff + add) % usize_mod ≡ blkoff + add = omega arith in
    rw no_wrap (elim (Bool-cases ((blkoff + add) / 2 ^ s.shiftby == 0)) [
      | inl low ↦ rw low (omega arith)
      | inr high ↦
          let q = (blkoff + add) / 2 ^ s.shiftby in
          let r = (blkoff + add) % 2 ^ s.shiftby in
          let no_wrap' : (blkno + q) % xoff_mod ≡ blkno + q = omega (arith, small) in
          rw (high, no_wrap', h.mask, bit_and_low s.shiftby (blkoff + add), h.size)
            (omega
              (arith, div-add-mod (blkoff + add) (2 ^ s.shiftby), mul-add (2 ^ s.shiftby) blkno q))
    ])
