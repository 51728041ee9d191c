-- ===== src/Integer/Bounds.antt =====
-- One round of the integer codec as arithmetic, and the bounds on what it reads.
use swift_xdelta.Prelude.{ℕ, ◌+◌, ◌*◌, ◌/◌, ◌%◌, ◌^◌, ◌≤◌, ◌<◌, ◌≡◌, ap, ◌∙◌, bit_and}
use swift_xdelta.Prelude.{arith, ◌≢◌, List, [], ◌∷◌, ◌++◌}
use swift_xdelta.Prelude.{ok}
use native.Mathlib.Decide.{ℕ_discrete}
use swift_xdelta.Prelude.Bits.{bit_and_127, bit_and_shift, bit_or_sum, bit_and_1}
use swift_xdelta.Integer.{
  Width, uint32, uint64, modulus, oflow_mask, shift_in, read_loop, read_integer,
}

-- `next & 128` on a byte
pub bit_and_128 : (b : ℕ) → bit_and b 128 ≡ b / 128 % 2 * 128
bit_and_128 b = rw (bit_and_shift 7 b 1, bit_and_1) (omega arith)

-- Below this the mask is clear and seven more bits fit.
abbrev pub roof : Width → ℕ
roof uint32 = 2 ^ 25
roof uint64 = 2 ^ 57

pub oflow_clear : (w : Width) (val : ℕ) → val < roof w → bit_and val (oflow_mask w) ≡ 0
oflow_clear uint32 val h = rw (bit_and_shift 25 val 127, bit_and_127) (omega arith)
oflow_clear uint64 val h = rw (bit_and_shift 57 val 127, bit_and_127) (omega arith)

pub lt_roof :
    (w : Width) (val : ℕ) → val < modulus w → bit_and val (oflow_mask w) ≡ 0 → val < roof w
lt_roof uint32 val h e = omega (arith, bit_and_shift 25 val 127, bit_and_127 (val / 2 ^ 25))
lt_roof uint64 val h e = omega (arith, bit_and_shift 57 val 127, bit_and_127 (val / 2 ^ 57))

low_septet : (next : ℕ) → bit_and next 127 < 2 ^ 7
low_septet next = omega (arith, bit_and_127 next)

pub shift_in_sum :
    (w : Width) (val next : ℕ) → val < roof w → shift_in w val next ≡ val * 128 + next % 128
unfolding shift_in
shift_in_sum uint32 val next h =
    let e : val * 128 % 2 ^ 32 ≡ val * 2 ^ 7 = omega arith in
    rw (e, bit_or_sum 7 val (bit_and next 127) (low_septet next)) (omega (arith, bit_and_127 next))
shift_in_sum uint64 val next h =
    let e : val * 128 % 2 ^ 64 ≡ val * 2 ^ 7 = omega arith in
    rw (e, bit_or_sum 7 val (bit_and next 127) (low_septet next)) (omega (arith, bit_and_127 next))

pub shift_in-lt : (w : Width) (val next : ℕ) → val < roof w → shift_in w val next < modulus w
shift_in-lt uint32 val next h = omega (arith, shift_in_sum uint32 val next h)
shift_in-lt uint64 val next h = omega (arith, shift_in_sum uint64 val next h)

-- One round of the reader, on a byte with the top bit set and on a last byte.
pub read_loop_more :
    (w : Width) (next : ℕ) (inp : List ℕ) (val : ℕ)
    → val < roof w
    → bit_and next 128 ≢ 0
    → read_loop w (next ∷ inp) val ≡ read_loop w inp (val * 128 + next % 128)
unfolding read_loop
read_loop_more w next inp val h top = ground (arith, oflow_clear w val h, shift_in_sum w val next h)

pub read_loop_last :
    (w : Width) (next : ℕ) (inp : List ℕ) (val : ℕ)
    → val < roof w
    → bit_and next 128 ≡ 0
    → read_loop w (next ∷ inp) val ≡ ok (val * 128 + next % 128, inp)
unfolding read_loop
read_loop_last w next inp val h top = ground (arith, oflow_clear w val h, shift_in_sum w val next h)

-- What the bytes that were taken say: groups of seven bits, most significant first.
abbrev pub septets : ℕ → List ℕ → ℕ
septets val [] = val
septets val (b ∷ bs) = septets (val * 128 + b % 128) bs

-- Every byte but the last has its top bit set.
abbrev pub IsNumeral : List ℕ → Type 0
IsNumeral [] = ⊥
IsNumeral (b ∷ []) = bit_and b 128 ≡ 0
IsNumeral (b ∷ c ∷ bs) = (bit_and b 128 ≢ 0) × IsNumeral (c ∷ bs)

septets_ge : (val : ℕ) (bs : List ℕ) → val ≤ septets val bs
septets_ge val [] = omega arith
septets_ge val (b ∷ bs) = omega (arith, septets_ge (val * 128 + b % 128) bs)

fits_roof :
    (w : Width) (val : ℕ) (bs : List ℕ) (b : ℕ) → septets val (b ∷ bs) < modulus w → val < roof w
fits_roof uint32 val bs b h = omega (arith, septets_ge (val * 128 + b % 128) bs)
fits_roof uint64 val bs b h = omega (arith, septets_ge (val * 128 + b % 128) bs)

-- The reader takes a numeral that fits, whatever follows it.
pub read_loop_complete :
    (w : Width) (bs rest : List ℕ) (val : ℕ)
    → IsNumeral bs
    → septets val bs < modulus w
    → read_loop w (bs ++ rest) val ≡ ok (septets val bs, rest)
read_loop_complete w [] rest val h fits = absurd h
read_loop_complete w (b ∷ []) rest val h fits =
    read_loop_last w b rest val (fits_roof w val [] b fits) h
read_loop_complete w (b ∷ c ∷ bs) rest val (top, h) fits =
    read_loop_more w b (c ∷ bs ++ rest) val (fits_roof w val (c ∷ bs) b fits) top
    ∙ read_loop_complete w (c ∷ bs) rest (val * 128 + b % 128) h fits

-- What a successful read has done: it took a numeral, which fits, and returned its value.
pub record Read (w : Width) (inp : List ℕ) (val v : ℕ) (rest : List ℕ) : Type 0 where
  pub taken : List ℕ
  pub front : inp ≡ taken ++ rest
  pub numeral : IsNumeral taken
  pub value : v ≡ septets val taken
  pub fits : v < modulus w

cons-IsNumeral : (b : ℕ) (bs : List ℕ) → bit_and b 128 ≢ 0 → IsNumeral bs → IsNumeral (b ∷ bs)
cons-IsNumeral b [] top h = absurd h
cons-IsNumeral b (c ∷ bs) top h = (top, h)

Read-cons :
    (w : Width) (b : ℕ) (inp : List ℕ) (val v : ℕ) (rest : List ℕ)
    → bit_and b 128 ≢ 0
    → Read w inp (val * 128 + b % 128) v rest
    → Read w (b ∷ inp) val v rest
Read-cons w b inp val v rest top r = record {
  taken = b ∷ r.taken;
  front = ap (λ t. b ∷ t) r.front;
  numeral = cons-IsNumeral b r.taken top r.numeral;
  value = r.value;
  fits = r.fits;
}

pub read_loop-roof :
    (w : Width) (b : ℕ) (inp : List ℕ) (val : ℕ) {v : ℕ} {rest : List ℕ}
    → val < modulus w
    → read_loop w (b ∷ inp) val ≡ ok (v, rest)
    → val < roof w
unfolding read_loop
read_loop-roof w b inp val h e = lt_roof w val h (ground arith)

septet_fits : (w : Width) (val b : ℕ) → val < roof w → val * 128 + b % 128 < modulus w
septet_fits uint32 val b h = omega arith
septet_fits uint64 val b h = omega arith

Read-last :
    (w : Width) (b : ℕ) (inp : List ℕ) (val v : ℕ) (rest : List ℕ)
    → val < roof w
    → bit_and b 128 ≡ 0
    → read_loop w (b ∷ inp) val ≡ ok (v, rest)
    → Read w (b ∷ inp) val v rest
Read-last w b inp val v rest low top e = record {
  taken = b ∷ [];
  front = cc (read_loop_last w b inp val low top);
  numeral = top;
  value = value;
  fits = rw value (septet_fits w val b low);
}
  where
    value : v ≡ val * 128 + b % 128
    value = cc (read_loop_last w b inp val low top)

pub read_loop_sound :
    (w : Width) (inp : List ℕ) (val v : ℕ) (rest : List ℕ)
    → val < modulus w
    → read_loop w inp val ≡ ok (v, rest)
    → Read w inp val v rest
read_loop_sound w [] val v rest h e = unfold read_loop in cc
read_loop_sound w (b ∷ inp) val v rest h e =
    let low = read_loop-roof w b inp val h e in
    elim (ℕ_discrete (bit_and b 128) 0) [
      | yes top ↦ Read-last w b inp val v rest low top e
      | no top ↦ Read-cons w b inp val v rest top (
          read_loop_sound w inp (val * 128 + b % 128) v rest (septet_fits w val b low)
            (rw (read_loop_more w b inp val low top) at e))
    ]

-- A successful read took bytes of which just the last has its top bit clear, returned the number that
-- their groups of seven bits make, which fits the width, and left what follows them.
pub read_integer-Read :
    (w : Width) (inp : List ℕ) (v : ℕ) (rest : List ℕ)
    → read_integer w inp ≡ ok (v, rest)
    → Read w inp 0 v rest
unfolding read_integer
read_integer-Read uint32 inp v rest e = read_loop_sound uint32 inp 0 v rest (omega arith) e
read_integer-Read uint64 inp v rest e = read_loop_sound uint64 inp 0 v rest (omega arith) e
