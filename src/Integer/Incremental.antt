-- ===== src/Integer/Incremental.antt =====
-- The resumable decoder: what DECODE_INTEGER_TYPE does with input that comes in pieces, and that it
-- agrees with the reader of READ_INTEGER_TYPE.
use swift_xdelta.Prelude.{ℕ, ◌+◌, ◌%◌, ◌≡◌, refl, arith, List, [], ◌∷◌, ◌++◌}
use swift_xdelta.Prelude.{Result, ok, err, input, invalid_input}
use swift_xdelta.Integer.{
  Width, Input, Decoded, xoff_mod, shift_in, decode_loop, decode_integer, read_loop, read_integer,
}

abbrev pub more_input : Input → List ℕ → Input
more_input i xs = record i { next_in = i.next_in ++ xs }

-- The call after XD3_INPUT, with new input; any other outcome stands, with the input behind it.
abbrev pub resume : Width → Decoded → List ℕ → Decoded
resume w d ys = elim d.result [
  | err input ↦ decode_integer w (more_input d.left ys) d.part
  | _ ↦ record d { left = more_input d.left ys }
]

decode_loop-append :
    (w : Width) (xs ys : List ℕ) (total part : ℕ)
    → decode_loop w (xs ++ ys) total part ≡ resume w (decode_loop w xs total part) ys
unfolding decode_loop decode_integer
decode_loop-append w [] ys total part = refl
decode_loop-append w (x ∷ xs) ys total part =
    ground (arith, decode_loop-append w xs ys ((total + 1) % xoff_mod) (shift_in w part x))

-- However the input is cut, the decoder ends as if it had come in one piece: with the same value or
-- error, the same count of bytes taken, the same input left and the same part kept.
pub decode_integer-append :
    (w : Width) (i : Input) (part : ℕ) (ys : List ℕ)
    → decode_integer w (more_input i ys) part ≡ resume w (decode_integer w i part) ys
unfolding decode_integer
decode_integer-append w i part ys = decode_loop-append w i.next_in ys i.total_in part

-- What the reader makes of the decoder's input.
abbrev pub as_read : Decoded → Result (ℕ × List ℕ)
as_read d = elim d.result [ ok v ↦ ok (v, d.left.next_in) | err e ↦ err invalid_input ]

read_loop-decode_loop :
    (w : Width) (xs : List ℕ) (total part : ℕ)
    → read_loop w xs part ≡ as_read (decode_loop w xs total part)
unfolding decode_loop read_loop
read_loop-decode_loop w [] total part = refl
read_loop-decode_loop w (x ∷ xs) total part =
    ground (arith, read_loop-decode_loop w xs ((total + 1) % xoff_mod) (shift_in w part x))

-- On the same input, from no part, the decoder and the reader return the same value and leave the
-- same bytes; where the decoder reports an error or asks for more, the reader reports an error.
pub read-decode :
    (w : Width) (i : Input) → read_integer w i.next_in ≡ as_read (decode_integer w i 0)
unfolding decode_integer read_integer
read-decode w i = read_loop-decode_loop w i.next_in i.total_in 0

decode_loop_taken :
    (w : Width) (xs : List ℕ) (total part : ℕ)
    → (decode_loop w xs total part).result ≡ err input
    → (decode_loop w xs total part).left.next_in ≡ []
unfolding decode_loop
decode_loop_taken w [] total part e = refl
decode_loop_taken w (x ∷ xs) total part e =
    ground (arith, decode_loop_taken w xs ((total + 1) % xoff_mod) (shift_in w part x))

-- The decoder asks for input only when it has taken all there is.
pub decode_integer_taken :
    (w : Width) (i : Input) (part : ℕ)
    → (decode_integer w i part).result ≡ err input
    → (decode_integer w i part).left.next_in ≡ []
unfolding decode_integer
decode_integer_taken w i part = decode_loop_taken w i.next_in i.total_in part
