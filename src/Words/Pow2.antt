-- ===== src/Words/Pow2.antt =====
-- The word helpers against their arithmetic: powers of two and multiples of a block size.
use swift_xdelta.Prelude.{
  ℕ, zero, suc, ◌+◌, ◌-◌, ◌*◌, ◌/◌, ◌%◌, ◌^◌, ◌≤◌, ◌<◌, ◌≡◌, ◌≢◌, refl, ap, ◌∙◌, arith,
}
use swift_xdelta.Prelude.{none, some, lt→ltb, le→ltb, ◌⊎◌, inl, inr}
use swift_xdelta.Prelude.Bits.{pow_double, bit_and_low}
use native.Mathlib.Decide.{dec_lt, ℕ_discrete}
use native.Mathlib.Nat.{
  pow-le-pow_right, one-le-pow, mod-eq_of_lt, mul-mod_right, mod-lt, div-add-mod, add-zero,
}
use swift_xdelta.Words.{roundup, roundup_loop, round_blksize, max_blksz}

roundup_stop : (bits f x i : ℕ) → x ≤ i → roundup_loop bits (suc f) x i ≡ some i
unfolding roundup_loop
roundup_stop bits f x i h = rw (le→ltb i x h)

roundup_go :
    (bits f x i : ℕ)
    → i < x
    → roundup_loop bits (suc f) x i ≡ roundup_loop bits f x (i * 2 % 2 ^ bits)
unfolding roundup_loop
roundup_go bits f x i h = rw (lt→ltb i x h)

-- A shift of a power below the word's top bit.
shift_pow : (bits j : ℕ) → suc j < bits → 2 ^ j * 2 % 2 ^ bits ≡ 2 ^ suc j
shift_pow bits j h =
    let le : 2 ^ suc (suc j) ≤ 2 ^ bits = pow-le-pow_right (omega arith) h in
    let pos : 1 ≤ 2 ^ j = one-le-pow j 2 (omega arith) in
    let e : 2 ^ j * 2 ≡ 2 ^ suc j = omega (arith, pow_double j) in
    rw e (mod-eq_of_lt (omega (arith, pow_double j, pow_double (suc j))))

-- The result: a power of two that holds `x`, and no smaller one does.
abbrev pub LeastPow2 : ℕ → ℕ → Type 0
LeastPow2 x n = (x ≤ 2 ^ n) × ((n ≡ 0) ⊎ (2 ^ n < 2 * x))

-- From `2 ^ j`, with `k` shifts to come.
roundup_loop_finds :
    (bits k j x : ℕ)
    → x ≤ 2 ^ (j + k)
    → j + k < bits
    → (j ≡ 0) ⊎ (2 ^ j < 2 * x)
    → (n : ℕ) × (roundup_loop bits (suc k) x (2 ^ j) ≡ some (2 ^ n)) × LeastPow2 x n
roundup_loop_finds bits zero j x h hb low =
    let h' : x ≤ 2 ^ j = rw add-zero at h in (j, roundup_stop bits 0 x (2 ^ j) h', (h', low))
roundup_loop_finds bits (suc k) j x h hb low = elim (dec_lt (2 ^ j) x) [
  | no stop ↦
      let h' : x ≤ 2 ^ j = omega arith in (j, roundup_stop bits (suc k) x (2 ^ j) h', (h', low))
  | yes go ↦
      let (n, found, least) =
        roundup_loop_finds bits k (suc j) x (rw move at h) (omega arith)
          (inr (omega (arith, pow_double j))) in
      (n, roundup_go bits (suc k) x (2 ^ j) go ∙ rw (shift_pow bits j (omega arith)) found, least)
]
  where
    move : j + suc k ≡ suc j + k
    move = omega arith

-- Up to the word's top bit the loop ends, with the least power of two that is not below `x`.
pub roundup-LeastPow2 :
    (bits x : ℕ)
    → 0 < bits
    → x ≤ 2 ^ (bits - 1)
    → (n : ℕ) × (roundup bits x ≡ some (2 ^ n)) × LeastPow2 x n
unfolding roundup
roundup-LeastPow2 (suc bits) x pos h =
    roundup_loop_finds (suc bits) bits 0 x (rw e at h) (omega arith) (inl refl)
  where
    e : suc bits - 1 ≡ 0 + bits
    e = omega arith
roundup-LeastPow2 zero x pos h = absurd (omega arith)

-- Once the bit has left the word, `i` is 0 for ever.
zero_shifted : (bits : ℕ) → 0 * 2 % 2 ^ bits ≡ 0
zero_shifted bits = omega arith

roundup_zero : (bits f x : ℕ) → 0 < x → roundup_loop bits f x 0 ≡ none
roundup_zero bits zero x h = unfold roundup_loop in refl
roundup_zero bits (suc f) x h =
    roundup_go bits f x 0 h ∙ rw (zero_shifted bits) (roundup_zero bits f x h)

top_leaves : (bits j : ℕ) → suc j ≡ bits → 2 ^ j * 2 % 2 ^ bits ≡ 0
top_leaves bits j e =
    let whole : 2 ^ j * 2 ≡ 2 ^ suc j * 1 = omega (arith, pow_double j) in
    rw (← e, whole) (mul-mod_right (2 ^ suc j) 1)

roundup_loop-none :
    (bits f j x : ℕ) → j < bits → 2 ^ (bits - 1) < x → roundup_loop bits f x (2 ^ j) ≡ none
roundup_loop-none bits zero j x hj h = unfold roundup_loop in refl
roundup_loop-none bits (suc f) j x hj h =
    let le : 2 ^ j ≤ 2 ^ (bits - 1) = pow-le-pow_right (omega arith) (omega arith) in
    roundup_go bits f x (2 ^ j) (omega arith) ∙ elim (dec_lt (suc j) bits) [
      | yes more ↦ rw (shift_pow bits j more) (roundup_loop-none bits f (suc j) x more h)
      | no top ↦ rw (top_leaves bits j (omega arith)) (roundup_zero bits f x (omega arith))
    ]

-- Above the word's top bit the loop never ends, however many rounds it is given.
pub roundup_diverges :
    (bits fuel x : ℕ) → 0 < bits → 2 ^ (bits - 1) < x → roundup_loop bits fuel x 1 ≡ none
roundup_diverges bits fuel x pos h = roundup_loop-none bits fuel 0 x pos h

module _ (sz k : ℕ) (small : k < 64) where
  block_pos : 0 < 2 ^ k
  block_pos = one-le-pow k 2 (omega arith)

  block_le : 2 ^ k ≤ 2 ^ 63
  block_le = pow-le-pow_right {n = 2} (omega arith) {i = k} {j = 63} (omega arith)

  round_exact : sz % 2 ^ k ≡ 0 → round_blksize sz (2 ^ k) ≡ sz
  unfolding round_blksize
  round_exact e = ground (arith, bit_and_low k sz)

  round_up : sz ≤ max_blksz → sz % 2 ^ k ≢ 0 → round_blksize sz (2 ^ k) ≡ sz + (2 ^ k - sz % 2 ^ k)
  unfolding round_blksize
  round_up h ne = ground (arith, bit_and_low k sz, block_le, mod-lt sz block_pos)

  up_multiple : (sz + (2 ^ k - sz % 2 ^ k)) % 2 ^ k ≡ 0
  up_multiple =
      let c = sz / 2 ^ k in
      let whole : sz + (2 ^ k - sz % 2 ^ k) ≡ 2 ^ k * (c + 1) =
        omega (arith, div-add-mod sz (2 ^ k), mod-lt sz block_pos) in
      ap (λ t. t % 2 ^ k) whole ∙ mul-mod_right (2 ^ k) (c + 1)

  -- Up to USIZE_T_MAXBLKSZ the result is the least multiple of the block size that holds `sz`.
  pub round_blksize-multiple :
      sz ≤ max_blksz
      → (sz ≤ round_blksize sz (2 ^ k))
        × (round_blksize sz (2 ^ k) < sz + 2 ^ k)
        × (round_blksize sz (2 ^ k) % 2 ^ k ≡ 0)
  round_blksize-multiple h = elim (ℕ_discrete (sz % 2 ^ k) 0) [
    | yes e ↦ rw (round_exact e) (omega arith, omega (arith, block_pos), e)
    | no ne ↦
        rw (round_up h ne) (omega arith, omega (arith, block_pos, mod-lt sz block_pos), up_multiple)
  ]
