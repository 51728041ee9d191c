-- ===== src/Words/Runs.antt =====
-- Runs of the word helpers, and their theorems at concrete inputs.
use swift_xdelta.Prelude.{
  ℕ, ◌+◌, ◌%◌, ◌^◌, ◌≤◌, ◌<◌, ◌≡◌, refl, arith, none, some, ok, err, internal,
}
use swift_xdelta.Words.{check_pow2, roundup, roundup_loop, round_blksize}
use swift_xdelta.Words.Pow2.{LeastPow2, roundup-LeastPow2, roundup_diverges, round_blksize-multiple}

check_eight : check_pow2 32 8 ≡ some (ok tt, 3)
unfolding check_pow2
check_eight = refl

check_ten : check_pow2 32 10 ≡ some (err internal, 32)
unfolding check_pow2
check_ten = refl

roundup_hundred : roundup 64 100 ≡ some 128
unfolding roundup
roundup_hundred = refl

roundup-LeastPow2_example : (n : ℕ) × (roundup 64 100 ≡ some (2 ^ n)) × LeastPow2 100 n
roundup-LeastPow2_example = roundup-LeastPow2 64 100 (omega arith) (omega arith)

roundup_diverges_example : roundup_loop 64 1000 (2 ^ 63 + 1) 1 ≡ none
roundup_diverges_example = roundup_diverges 64 1000 (2 ^ 63 + 1) (omega arith) (omega arith)

round_blksize-multiple_example :
    (20000 ≤ round_blksize 20000 (2 ^ 14))
    × (round_blksize 20000 (2 ^ 14) < 20000 + 2 ^ 14)
    × (round_blksize 20000 (2 ^ 14) % 2 ^ 14 ≡ 0)
round_blksize-multiple_example = round_blksize-multiple 20000 14 (omega arith) (omega arith)
