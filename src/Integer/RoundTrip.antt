-- ===== src/Integer/RoundTrip.antt =====
-- What EMIT_INTEGER_TYPE writes: it never leaves its buffer of ten bytes, writes as many bytes as
-- xd3_sizeof_size says, and the readers give the number back.
use swift_xdelta.Prelude.{ℕ, zero, suc, ◌+◌, ◌*◌, ◌/◌, ◌%◌, ◌^◌, ◌<◌, ◌≡◌, ◌≢◌, refl, ap, ◌∙◌}
use swift_xdelta.Prelude.{
  arith, bit_and, bit_or, some, All, List, [], ◌∷◌, ◌++◌, length, ◌==◌, if◌then◌else◌,
}
use swift_xdelta.Prelude.{ok}
use swift_xdelta.Prelude.Bits.{bit_and_127, bit_or_sum_left}
use swift_xdelta.Integer.{
  Width, uint32, uint64, modulus, fill_buf, clear_last, encode_integer, sizeof_integer,
  read_integer,
}
use swift_xdelta.Integer.Bounds.{bit_and_128, septets, IsNumeral, read_loop_complete}
use native.Mathlib.Nat.{pow-suc}
use native.Mathlib.Decide.{ℕ_discrete}

-- the byte `(num & 127) | 128`
abbrev marked : ℕ → ℕ
marked n = bit_or (bit_and n 127) 128

marked_sum : (n : ℕ) → marked n ≡ n % 128 + 128
marked_sum n =
    bit_or_sum_left 7 1 (bit_and n 127) (omega (arith, bit_and_127 n))
    ∙ omega (arith, bit_and_127 n)

groups : ℕ → ℕ → ℕ
groups zero n = 0
groups (suc f) n = let more = groups f (n / 2 ^ 7) in if n / 2 ^ 7 == 0 then 1 else suc more

groups_pos : (f n : ℕ) → 0 < groups (suc f) n
unfolding groups
groups_pos f n = ground arith

groups_sizeof : (n : ℕ) → n < 2 ^ 64 → groups 10 n ≡ sizeof_integer uint64 n
unfolding sizeof_integer groups
groups_sizeof n h = ground arith

groups_sizeof32 : (n : ℕ) → n < 2 ^ 32 → groups 10 n ≡ sizeof_integer uint32 n
unfolding sizeof_integer groups
groups_sizeof32 n h = ground arith

-- Every byte has its top bit set.
abbrev IsMarked : List ℕ → Type 0
IsMarked = All (λ b. bit_and b 128 ≢ 0)

-- What a buffer gains when `n` is written in front of it.
record Written (n : ℕ) (buf bs : List ℕ) (len : ℕ) : Type 0 where
  marks : IsMarked bs
  value : septets 0 bs ≡ septets n buf
  size : length bs ≡ length buf + len

marked_top : (n : ℕ) → bit_and (marked n) 128 ≢ 0
marked_top n = omega (arith, bit_and_128 (marked n), marked_sum n)

marked_value : (n : ℕ) (buf : List ℕ) → septets (n / 2 ^ 7) (marked n ∷ buf) ≡ septets n buf
marked_value n buf = ap (λ t. septets t buf) (omega (arith, marked_sum n))

-- One round, on the last group and on one that more follow.
fill_buf_last :
    (f n : ℕ) (buf : List ℕ)
    → n / 2 ^ 7 ≡ 0
    → (fill_buf (suc f) n buf ≡ some (marked n ∷ buf)) × (groups (suc f) n ≡ 1)
unfolding fill_buf groups
fill_buf_last f n buf e = (ground arith, ground arith)

fill_buf_more :
    (f n : ℕ) (buf : List ℕ)
    → n / 2 ^ 7 ≢ 0
    → (fill_buf (suc f) n buf ≡ fill_buf f (n / 2 ^ 7) (marked n ∷ buf))
      × (groups (suc f) n ≡ suc (groups f (n / 2 ^ 7)))
unfolding fill_buf groups
fill_buf_more f n buf ne = (ground arith, ground arith)

Fills : ℕ → ℕ → List ℕ → Type 0
Fills f n buf = (bs : List ℕ) × (fill_buf f n buf ≡ some bs) × Written n buf bs (groups f n)

Fills-last : (f n : ℕ) (buf : List ℕ) → IsMarked buf → n / 2 ^ 7 ≡ 0 → Fills (suc f) n buf
unfolding Fills
Fills-last f n buf num e =
    let (step, one) = fill_buf_last f n buf e in
    (
      marked n ∷ buf,
      step,
      record {
        marks = (marked_top n, num);
        value = rw e at (marked_value n buf);
        size = omega (arith, one);
      },
    )

Fills-more :
    (f n : ℕ) (buf : List ℕ)
    → n / 2 ^ 7 ≢ 0
    → Fills f (n / 2 ^ 7) (marked n ∷ buf)
    → Fills (suc f) n buf
unfolding Fills
Fills-more f n buf ne (bs, done, w) =
    let (step, more) = fill_buf_more f n buf ne in
    (
      bs,
      step ∙ done,
      record {
        marks = w.marks;
        value = w.value ∙ marked_value n buf;
        size = omega (arith, w.size, more);
      },
    )

-- With `f` free bytes for a number of `f` groups the loop ends inside the buffer.
fill_buf-Fills : (f n : ℕ) (buf : List ℕ) → n < 128 ^ suc f → IsMarked buf → Fills (suc f) n buf
fill_buf-Fills zero n buf h num = Fills-last zero n buf num (omega arith)
fill_buf-Fills (suc f) n buf h num = elim (ℕ_discrete (n / 2 ^ 7) 0) [
  | yes e ↦ Fills-last (suc f) n buf num e
  | no ne ↦ Fills-more (suc f) n buf ne (
      fill_buf-Fills f (n / 2 ^ 7) (marked n ∷ buf) (omega (arith, pow-suc 128 (suc f)))
        (marked_top n, num))
]

-- Clearing the last mark leaves a numeral of the same value.
clear_last-IsNumeral : (b : ℕ) (bs : List ℕ) → IsMarked (b ∷ bs) → IsNumeral (clear_last (b ∷ bs))
unfolding clear_last
clear_last-IsNumeral b [] (top, h) = omega (arith, bit_and_128 (bit_and b 127), bit_and_127 b)
clear_last-IsNumeral b (c ∷ []) (top, h) = (top, clear_last-IsNumeral c [] h)
clear_last-IsNumeral b (c ∷ d ∷ bs) (top, h) = (top, clear_last-IsNumeral c (d ∷ bs) h)

septets-clear_last : (val : ℕ) (bs : List ℕ) → septets val (clear_last bs) ≡ septets val bs
unfolding clear_last
septets-clear_last val [] = refl
septets-clear_last val (b ∷ []) = omega (arith, bit_and_127 b)
septets-clear_last val (b ∷ c ∷ bs) = septets-clear_last (val * 128 + b % 128) (c ∷ bs)

length-clear_last : (bs : List ℕ) → length (clear_last bs) ≡ length bs
unfolding clear_last
length-clear_last [] = refl
length-clear_last (b ∷ []) = refl
length-clear_last (b ∷ c ∷ bs) = ap suc (length-clear_last (c ∷ bs))

-- The encoding of a number: a numeral for it, as long as `sizeof_integer` says.
pub record Encodes (num : ℕ) (bs : List ℕ) : Type 0 where
  pub numeral : IsNumeral bs
  pub value : septets 0 bs ≡ num
  pub size64 : length bs ≡ sizeof_integer uint64 num
  pub size32 : num < 2 ^ 32 → length bs ≡ sizeof_integer uint32 num

Encodes-clear_last :
    (num : ℕ) (bs : List ℕ)
    → num < 2 ^ 64
    → Written num [] bs (groups 10 num)
    → Encodes num (clear_last bs)
Encodes-clear_last num [] h w = absurd (omega (arith, w.size, groups_pos 9 num))
Encodes-clear_last num (b ∷ bs) h w = record {
  numeral = clear_last-IsNumeral b bs w.marks;
  value = septets-clear_last 0 (b ∷ bs) ∙ w.value;
  size64 = length-clear_last (b ∷ bs) ∙ w.size ∙ omega (arith, groups_sizeof num h);
  size32 = λ h32. length-clear_last (b ∷ bs) ∙ w.size ∙ omega (arith, groups_sizeof32 num h32);
}

pub encode_integer-Encodes :
    (num : ℕ) → num < 2 ^ 64 → (bs : List ℕ) × (encode_integer num ≡ some bs) × Encodes num bs
unfolding encode_integer Fills
encode_integer-Encodes num h =
    let (bs, done, w) = fill_buf-Fills 9 num [] (omega arith) tt in
    (clear_last bs, rw done, Encodes-clear_last num bs h w)

fits : (w : Width) (num : ℕ) → num < modulus w → num < 2 ^ 64
fits uint32 num h = omega arith
fits uint64 num h = h

size :
    (w : Width) (num : ℕ) {bs : List ℕ}
    → num < modulus w
    → Encodes num bs
    → length bs ≡ sizeof_integer w num
size uint32 num h e = e.size32 h
size uint64 num h e = e.size64

-- A number that fits the width is written within the buffer, in `sizeof_integer` bytes, and the
-- reader takes exactly those bytes off whatever follows and returns the number.
pub read-encode :
    (w : Width) (num : ℕ) (rest : List ℕ)
    → num < modulus w
    → (bs : List ℕ) × (encode_integer num ≡ some bs)
      × (length bs ≡ sizeof_integer w num)
      × (read_integer w (bs ++ rest) ≡ ok (num, rest))
unfolding read_integer
read-encode w num rest h =
    let (bs, done, e) = encode_integer-Encodes num (fits w num h) in
    (
      bs,
      done,
      size w num h e,
      read_loop_complete w bs rest 0 e.numeral (rw e.value h) ∙ ap (λ v. ok (v, rest)) e.value,
    )
