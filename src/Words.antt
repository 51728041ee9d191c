-- ===== src/Words.antt =====
-- xdelta3/xdelta3.c: helpers on machine words: xd3_check_pow2 and xd3_xoff_roundup on `xoff_t`
-- (32 bits in the package's configuration), xd3_pow2_roundup and xd3_round_blksize on `usize_t`
-- (64 bits). A width is a number of bits.
mod Runs
pub mod Pow2
use swift_xdelta.Prelude.{ℕ, zero, suc, ◌+◌, ◌-◌, ◌*◌, ◌%◌, ◌^◌, Option, none, some, bit_and}
use swift_xdelta.Prelude.{ltb, ◌==◌, if◌then◌else◌, Result, ok, err, internal}

-- `for (; x != 0; x <<= 1, *logof += 1)`: the status and `*logof`. The fuel counts rounds; `none`
-- means that it ran out.
check_pow2_loop : ℕ → ℕ → ℕ → ℕ → ℕ → Option (Result (Unit {0}) × ℕ)
check_pow2_loop bits zero value x logof = none
check_pow2_loop bits (suc fuel) value x logof =
    let more = check_pow2_loop bits fuel value (x * 2 % 2 ^ bits) (logof + 1) in
    if x == 0 then some (err internal, logof) else if x == value then some (ok tt, logof) else more

-- The bit leaves the word after `bits` shifts.
unfoldable pub check_pow2 : ℕ → ℕ → Option (Result (Unit {0}) × ℕ)
unfolding check_pow2_loop
check_pow2 bits value = check_pow2_loop bits (bits + 1) value 1 0

-- `while (x > i) { i <<= 1U; }`; `none` means that the fuel ran out.
unfoldable pub roundup_loop : ℕ → ℕ → ℕ → ℕ → Option ℕ
roundup_loop bits zero x i = none
roundup_loop bits (suc fuel) x i =
    let more = roundup_loop bits fuel x (i * 2 % 2 ^ bits) in if ltb i x then more else some i

-- xd3_pow2_roundup and xd3_xoff_roundup, with a test for each bit of the word.
unfoldable pub roundup : ℕ → ℕ → Option ℕ
unfolding roundup_loop
roundup bits x = roundup_loop bits bits x 1

-- USIZE_T_MAXBLKSZ
abbrev pub max_blksz : ℕ
max_blksz = 0x8000000000000000

unfoldable pub round_blksize : ℕ → ℕ → ℕ
round_blksize sz blksz =
    let mod_ = bit_and sz (blksz - 1) in
    if mod_ == 0 then sz else if ltb max_blksz sz then max_blksz else (sz + (blksz - mod_)) % 2 ^ 64
