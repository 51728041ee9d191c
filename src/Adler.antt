-- ===== src/Adler.antt =====
-- xdelta3/xdelta3.c: adler32, the checksum of a target window.
mod Runs
pub mod Sums
use swift_xdelta.Prelude.{ℕ, zero, suc, ◌+◌, ◌*◌, ◌/◌, ◌%◌, ◌^◌, bit_and, bit_or, List, [], ◌∷◌}
use swift_xdelta.Prelude.{length, take, drop, min}

-- A32_BASE and A32_NMAX
abbrev pub a32_base : ℕ
a32_base = 65521

abbrev pub a32_nmax : ℕ
a32_nmax = 5552

-- The two `uint32_t` sums, over the bytes of one block. The source takes sixteen bytes a round
-- while it can, and the rest one by one.
pub block_sums : ℕ × ℕ → List ℕ → ℕ × ℕ
block_sums s [] = s
block_sums (s1, s2) (b ∷ bs) = block_sums ((s1 + b) % 2 ^ 32, (s2 + (s1 + b) % 2 ^ 32) % 2 ^ 32) bs

pub reduced : ℕ × ℕ → ℕ × ℕ
reduced (s1, s2) = (s1 % a32_base, s2 % a32_base)

-- The outer loop. Every round takes a byte at least, so that the length is enough fuel.
pub blocks_loop : ℕ → ℕ × ℕ → List ℕ → ℕ × ℕ
unfolding reduced
blocks_loop zero s buf = s
blocks_loop (suc fuel) s [] = s
blocks_loop (suc fuel) s (b ∷ bs) =
    let k = min (length (b ∷ bs)) a32_nmax in
    blocks_loop fuel (reduced (block_sums s (take k (b ∷ bs)))) (drop k (b ∷ bs))

pub joined : ℕ × ℕ → ℕ
joined (s1, s2) = bit_or (s2 * 2 ^ 16 % 2 ^ 32) s1

unfoldable pub adler32 : ℕ → List ℕ → ℕ
unfolding joined blocks_loop block_sums
adler32 adler buf =
    joined (blocks_loop (length buf) (bit_and adler 0xffff, bit_and (adler / 2 ^ 16) 0xffff) buf)
