-- ===== src/Integer.antt =====
-- xdelta3/xdelta3-internal.h: the variable-length integers of VCDIFF, seven bits a byte, most
-- significant group first, with the top bit set on every byte but the last. The macros
-- READ_INTEGER_TYPE, DECODE_INTEGER_TYPE and EMIT_INTEGER_TYPE are one function each over the
-- width of their integer; xd3_read_uint32_t and the others are their instances.
mod Runs
pub mod Bounds
pub mod RoundTrip
pub mod Incremental
use swift_xdelta.Prelude.{ℕ, zero, suc, ◌+◌, ◌*◌, ◌/◌, ◌%◌, ◌^◌, bit_and, bit_or}
use swift_xdelta.Prelude.{Bool, Option, none, some, List, [], ◌∷◌}
use swift_xdelta.Prelude.{ltb, ◌==◌, if◌then◌else◌, Result, ok, err, input, invalid_input}
use mathlib.Core.Option

pub data Width : Type 0 where
  uint32 uint64 : Width

abbrev pub modulus : Width → ℕ
modulus uint32 = 2 ^ 32
modulus uint64 = 2 ^ 64

-- UINT32_OFLOW_MASK and UINT64_OFLOW_MASK
abbrev pub oflow_mask : Width → ℕ
oflow_mask uint32 = 0xfe000000
oflow_mask uint64 = 0xfe00000000000000

-- `(val << 7) | (next & 127)`
unfoldable pub shift_in : Width → ℕ → ℕ → ℕ
shift_in w val next = bit_or (val * 2 ^ 7 % modulus w) (bit_and next 127)

-- The list is what stands from `inp` up to `maxp`. Only a success moves `*inpp`.
unfoldable pub read_loop : Width → List ℕ → ℕ → Result (ℕ × List ℕ)
unfolding shift_in
read_loop w [] val = err invalid_input
read_loop w (next ∷ inp) val =
    let more = read_loop w inp (shift_in w val next) in
    if bit_and val (oflow_mask w) == 0
    then (if bit_and next 128 == 0 then ok (shift_in w val next, inp) else more)
    else err invalid_input

unfoldable pub read_integer : Width → List ℕ → Result (ℕ × List ℕ)
read_integer w inp = read_loop w inp 0

-- What the decoder keeps of its input: `next_in` up to `avail_in`, and the `xoff_t` count of bytes
-- taken (32 bits in the package's configuration).
pub record Input : Type 0 where
  pub next_in : List ℕ
  pub total_in : ℕ

abbrev pub xoff_mod : ℕ
xoff_mod = 2 ^ 32

-- `PART` outlives a call that returns XD3_INPUT: the next one goes on from it.
pub record Decoded : Type 0 where
  pub result : Result ℕ
  pub left : Input
  pub part : ℕ

unfoldable pub decode_loop : Width → List ℕ → ℕ → ℕ → Decoded
unfolding shift_in
decode_loop w [] total part = record {
  result = err input;
  left = record { next_in = []; total_in = total };
  part = part;
}
decode_loop w (next ∷ inp) total part =
    let taken : Input = record { next_in = inp; total_in = (total + 1) % xoff_mod } in
    let part' = shift_in w part next in
    let more = decode_loop w inp ((total + 1) % xoff_mod) part' in
    if bit_and part (oflow_mask w) == 0
    then (if bit_and next 128 == 0
        then record { result = ok part'; left = taken; part = 0 }
        else more)
    else record { result = err invalid_input; left = taken; part = part }

unfoldable pub decode_integer : Width → Input → ℕ → Decoded
decode_integer w i part = decode_loop w i.next_in i.total_in part

-- `buf[--bufi] = (num & 127) | 128`, as long as `num >>= 7` is not 0. The list is `buf + bufi`, the
-- number counts the free bytes below it; `none` is a write in front of `buf`.
pub fill_buf : ℕ → ℕ → List ℕ → Option (List ℕ)
fill_buf zero num buf = none
fill_buf (suc bufi) num buf =
    let buf' = bit_or (bit_and num 127) 128 ∷ buf in
    let more = fill_buf bufi (num / 2 ^ 7) buf' in if num / 2 ^ 7 == 0 then some buf' else more

-- `buf[9] &= 127`: the last byte.
pub clear_last : List ℕ → List ℕ
clear_last [] = []
clear_last (b ∷ []) = bit_and b 127 ∷ []
clear_last (b ∷ c ∷ bs) = b ∷ clear_last (c ∷ bs)

-- The bytes that EMIT_INTEGER_TYPE hands to xd3_emit_bytes.
unfoldable pub encode_integer : ℕ → Option (List ℕ)
unfolding fill_buf clear_last
encode_integer num = Option.map clear_last (fill_buf 10 num [])

unfoldable pub sizeof_integer : Width → ℕ → ℕ
sizeof_integer uint32 num =
    if ltb num (2 ^ 7)
    then 1
    else if ltb num (2 ^ 14)
    then 2
    else if ltb num (2 ^ 21)
    then 3
    else if ltb num (2 ^ 28)
    then 4
    else 5
sizeof_integer uint64 num =
    if ltb num (2 ^ 7)
    then 1
    else if ltb num (2 ^ 14)
    then 2
    else if ltb num (2 ^ 21)
    then 3
    else if ltb num (2 ^ 28)
    then 4
    else if ltb num (2 ^ 35)
    then 5
    else if ltb num (2 ^ 42)
    then 6
    else if ltb num (2 ^ 49)
    then 7
    else if ltb num (2 ^ 56)
    then 8
    else if ltb num (2 ^ 63)
    then 9
    else 10
