-- ===== src/Integer/Runs.antt =====
-- Runs of the integer codec, and its theorems at concrete inputs.
use swift_xdelta.Prelude.{
  ℕ, ◌≡◌, refl, arith, some, List, [], ◌∷◌, ◌++◌, length, ok, err, input, invalid_input,
}
use swift_xdelta.Integer.{
  uint32, uint64, Input, read_integer, read_loop, decode_integer, decode_loop, encode_integer,
  sizeof_integer,
}
use swift_xdelta.Integer.Bounds.{Read, read_integer-Read}
use swift_xdelta.Integer.RoundTrip.{read-encode}
use swift_xdelta.Integer.Incremental.{
  more_input, resume, as_read, decode_integer-append, read-decode,
}

encode_300 : encode_integer 300 ≡ some (0x82 ∷ 0x2c ∷ [])
unfolding encode_integer
encode_300 = refl

read_300 : read_integer uint64 (0x82 ∷ 0x2c ∷ 9 ∷ []) ≡ ok (300, 9 ∷ [])
unfolding read_integer read_loop
read_300 = refl

-- Leading zero groups are taken too.
read_padded : read_integer uint32 (0x80 ∷ 0x82 ∷ 0x2c ∷ []) ≡ ok (300, [])
unfolding read_integer read_loop
read_padded = refl

read_too_wide :
    read_integer uint32 (0xff ∷ 0xff ∷ 0xff ∷ 0xff ∷ 0xff ∷ 0x7f ∷ []) ≡ err invalid_input
unfolding read_integer read_loop
read_too_wide = refl

abbrev half_read : Input
half_read = record { next_in = 0x82 ∷ []; total_in = 7 }

decode_half :
    decode_integer uint64 half_read 0
    ≡ record { result = err input; left = record { next_in = []; total_in = 8 }; part = 2 }
unfolding decode_integer decode_loop
decode_half = refl

read-encode_example :
    (bs : List ℕ) × (encode_integer 300 ≡ some bs)
    × (length bs ≡ sizeof_integer uint32 300)
    × (read_integer uint32 (bs ++ (9 ∷ [])) ≡ ok (300, 9 ∷ []))
read-encode_example = read-encode uint32 300 (9 ∷ []) (omega arith)

read_integer-Read_example : Read uint64 (0x82 ∷ 0x2c ∷ 9 ∷ []) 0 300 (9 ∷ [])
read_integer-Read_example = read_integer-Read uint64 (0x82 ∷ 0x2c ∷ 9 ∷ []) 300 (9 ∷ []) read_300

decode_integer-append_example :
    decode_integer uint64 (more_input half_read (0x2c ∷ 5 ∷ [])) 0
    ≡ resume uint64 (decode_integer uint64 half_read 0) (0x2c ∷ 5 ∷ [])
decode_integer-append_example = decode_integer-append uint64 half_read 0 (0x2c ∷ 5 ∷ [])

read-decode_example :
    read_integer uint32 (0x82 ∷ 0x2c ∷ [])
    ≡ as_read (decode_integer uint32 (record half_read { next_in = 0x82 ∷ 0x2c ∷ [] }) 0)
read-decode_example = read-decode uint32 (record half_read { next_in = 0x82 ∷ 0x2c ∷ [] })
