-- ===== src/Adler/Sums.antt =====
-- adler32 against the sums of RFC 1950, which are reduced at every byte.
use swift_xdelta.Prelude.{
  ℕ, zero, suc, ◌+◌, ◌*◌, ◌/◌, ◌%◌, ◌^◌, ◌≤◌, ◌<◌, ◌≡◌, refl, sym, ap, ◌∙◌, arith, min, bit_and,
}
use swift_xdelta.Prelude.{
  List, [], ◌∷◌, ◌++◌, All, length, take, drop, length-take, length-drop, take-append-drop,
}
use swift_xdelta.Prelude.Bits.{bit_and_low, bit_or_sum}
use swift_xdelta.Adler.{a32_base, a32_nmax, block_sums, reduced, blocks_loop, joined, adler32}

-- The two sums of RFC 1950, section 8.2.
abbrev pub rfc_sums : ℕ × ℕ → List ℕ → ℕ × ℕ
rfc_sums s [] = s
rfc_sums (s1, s2) (b ∷ bs) =
    rfc_sums ((s1 + b) % a32_base, (s2 + (s1 + b) % a32_base) % a32_base) bs

abbrev pub packed : ℕ × ℕ → ℕ
packed (s1, s2) = s2 * 2 ^ 16 + s1

abbrev pub AreBytes : List ℕ → Type 0
AreBytes = All (λ b. b < 256)

pair_eq : {a b c d : ℕ} → a ≡ c → b ≡ d → ◌≡◌ {A = ℕ × ℕ} (a, b) (c, d)
pair_eq e f = rw (e, f) refl

-- The largest second sum after `m` bytes.
most : ℕ → ℕ → ℕ → ℕ
most zero s1 s2 = s2
most (suc m) s1 s2 = most m (s1 + 255) (s2 + (s1 + 255))

most_mono : (m s1 s2 t1 t2 : ℕ) → s1 ≤ t1 → s2 ≤ t2 → most m s1 s2 ≤ most m t1 t2
unfolding most
most_mono zero s1 s2 t1 t2 h k = k
most_mono (suc m) s1 s2 t1 t2 h k =
    most_mono m (s1 + 255) (s2 + (s1 + 255)) (t1 + 255) (t2 + (t1 + 255)) (omega arith)
      (omega arith)

most_grows : (m s1 s2 : ℕ) → s2 ≤ most m s1 s2
unfolding most
most_grows zero s1 s2 = omega arith
most_grows (suc m) s1 s2 = omega (arith, most_grows m (s1 + 255) (s2 + (s1 + 255)))

most_longer : (m k s1 s2 : ℕ) → m ≤ k → most m s1 s2 ≤ most k s1 s2
unfolding most
most_longer zero k s1 s2 h = most_grows k s1 s2
most_longer (suc m) zero s1 s2 h = absurd (omega arith)
most_longer (suc m) (suc k) s1 s2 h = most_longer m k (s1 + 255) (s2 + (s1 + 255)) (omega arith)

-- A block is short enough for 32 bits.
nmax_fits : most a32_nmax 65520 65520 < 2 ^ 32
unfolding most
nmax_fits = omega arith

block_sums-rfc_sums :
    (s1 s2 : ℕ) (bs : List ℕ)
    → AreBytes bs
    → most (length bs) s1 s2 < 2 ^ 32
    → reduced (block_sums (s1, s2) bs) ≡ rfc_sums (s1 % a32_base, s2 % a32_base) bs
unfolding reduced block_sums
block_sums-rfc_sums s1 s2 [] h fits = refl
block_sums-rfc_sums s1 s2 (b ∷ bs) (hb, h) fits =
    let grows = most_grows (length bs) (s1 + 255) (s2 + (s1 + 255)) in
    let over : most (length bs) (s1 + 255) (s2 + (s1 + 255)) < 2 ^ 32 = unfold most in fits in
    let e1 : (s1 + b) % 2 ^ 32 ≡ s1 + b = omega arith in
    let e2 : (s2 + (s1 + b)) % 2 ^ 32 ≡ s2 + (s1 + b) = omega arith in
    rw (e1, e2)
      (block_sums-rfc_sums (s1 + b) (s2 + (s1 + b)) bs h (
          omega (
            arith,
            most_mono (length bs) (s1 + b) (s2 + (s1 + b)) (s1 + 255) (s2 + (s1 + 255))
                (omega arith) (omega arith),
          ))
        ∙ ap (λ t. rfc_sums t bs) (pair_eq (omega arith) (omega arith)))

rfc_sums-append : (xs ys : List ℕ) (s : ℕ × ℕ) → rfc_sums s (xs ++ ys) ≡ rfc_sums (rfc_sums s xs) ys
rfc_sums-append [] ys s = refl
rfc_sums-append (x ∷ xs) ys (s1, s2) = rfc_sums-append xs ys _

abbrev AreReduced : ℕ × ℕ → Type 0
AreReduced s = (s.0 < a32_base) × (s.1 < a32_base)

rfc_sums-AreReduced : (bs : List ℕ) (s : ℕ × ℕ) → AreReduced s → AreReduced (rfc_sums s bs)
rfc_sums-AreReduced [] s h = h
rfc_sums-AreReduced (b ∷ bs) (s1, s2) h = rfc_sums-AreReduced bs _ (omega arith, omega arith)

AreBytes-take : (n : ℕ) (bs : List ℕ) → AreBytes bs → AreBytes (take n bs)
AreBytes-take zero bs h = tt
AreBytes-take (suc n) [] h = tt
AreBytes-take (suc n) (b ∷ bs) (hb, h) = (hb, AreBytes-take n bs h)

AreBytes-drop : (n : ℕ) (bs : List ℕ) → AreBytes bs → AreBytes (drop n bs)
AreBytes-drop zero bs h = h
AreBytes-drop (suc n) [] h = tt
AreBytes-drop (suc n) (b ∷ bs) (hb, h) = AreBytes-drop n bs h

-- One round of the outer loop.
round-rfc_sums :
    (s1 s2 : ℕ) (bs : List ℕ)
    → s1 < a32_base
    → s2 < a32_base
    → AreBytes bs
    → length bs ≤ a32_nmax
    → reduced (block_sums (s1, s2) bs) ≡ rfc_sums (s1, s2) bs
round-rfc_sums s1 s2 bs h1 h2 h short =
    block_sums-rfc_sums s1 s2 bs h (
      omega (
        arith,
        most_mono (length bs) s1 s2 65520 65520 (omega arith) (omega arith),
        most_longer (length bs) a32_nmax 65520 65520 short,
        nmax_fits,
      ))
    ∙ ap (λ t. rfc_sums t bs) (pair_eq (omega arith) (omega arith))

blocks_loop-rfc_sums :
    (fuel s1 s2 : ℕ) (bs : List ℕ)
    → s1 < a32_base
    → s2 < a32_base
    → AreBytes bs
    → length bs ≤ fuel
    → blocks_loop fuel (s1, s2) bs ≡ rfc_sums (s1, s2) bs
unfolding blocks_loop
blocks_loop-rfc_sums zero s1 s2 [] h1 h2 h short = refl
blocks_loop-rfc_sums zero s1 s2 (b ∷ bs) h1 h2 h short = absurd (omega arith)
blocks_loop-rfc_sums (suc fuel) s1 s2 [] h1 h2 h short = refl
blocks_loop-rfc_sums (suc fuel) s1 s2 (b ∷ bs) h1 h2 h short =
    let all = b ∷ bs in
    let k = min (length all) a32_nmax in
    let done = rfc_sums (s1, s2) (take k all) in
    let small = rfc_sums-AreReduced (take k all) (s1, s2) ((h1, h2)) in
    rw
      (round-rfc_sums s1 s2 (take k all) h1 h2 (AreBytes-take k all h)
        (omega (arith, length-take k all (omega arith))))
      (blocks_loop-rfc_sums fuel done.0 done.1 (drop k all) small.0 small.1 (AreBytes-drop k all h)
          (omega (arith, length-drop k all))
        ∙ sym (rfc_sums-append (take k all) (drop k all) (s1, s2))
        ∙ ap (rfc_sums (s1, s2)) (take-append-drop k all))

joined-packed : (s : ℕ × ℕ) → AreReduced s → joined s ≡ packed s
unfolding joined
joined-packed (s1, s2) (h1, h2) =
    let fits : s2 * 2 ^ 16 % 2 ^ 32 ≡ s2 * 2 ^ 16 = omega arith in
    rw fits (bit_or_sum 16 s2 s1 (omega arith))

-- From the packed form of two reduced sums, adler32 over any bytes gives the packed form of the sums
-- of RFC 1950 over them: the sums that it keeps unreduced within a block never pass 32 bits.
pub adler32-rfc_sums :
    (s1 s2 : ℕ) (buf : List ℕ)
    → s1 < a32_base
    → s2 < a32_base
    → AreBytes buf
    → adler32 (packed (s1, s2)) buf ≡ packed (rfc_sums (s1, s2) buf)
unfolding adler32
adler32-rfc_sums s1 s2 buf h1 h2 h =
    let adler = s2 * 2 ^ 16 + s1 in
    let low : bit_and adler 0xffff ≡ s1 = bit_and_low 16 adler ∙ omega arith in
    let high : bit_and (adler / 2 ^ 16) 0xffff ≡ s2 =
      bit_and_low 16 (adler / 2 ^ 16) ∙ omega arith in
    rw (low, high, blocks_loop-rfc_sums (length buf) s1 s2 buf h1 h2 h (omega arith))
      (joined-packed (rfc_sums (s1, s2) buf) (rfc_sums-AreReduced buf (s1, s2) ((h1, h2))))
