-- ===== src/CodeTable/Entries.antt =====
-- The codes that the encoder chooses are the table's entries for the instructions.
use swift_xdelta.Prelude.{ℕ, ◌+◌, ◌-◌, ◌≤◌, ◌<◌, ◌≡◌, refl, arith}
use swift_xdelta.Prelude.{Bool, true, Option, none, some, ◌&&◌, leb, ◌==◌, if◌then◌else◌}
use swift_xdelta.Prelude.{length, get_or, under, under_lem}
use native.Mathlib.Decide.{dec_lt}
use swift_xdelta.CodeTable.{
  Dinst, single, rfc3284_code_table, choose_code1, choose_code2, xd3_add, xd3_cpy,
}

-- The table has an entry for each byte.
pub length-rfc3284_code_table : length rfc3284_code_table ≡ 256
unfolding rfc3284_code_table
length-rfc3284_code_table = refl

unfoldable pub entry : ℕ → Dinst
entry code = get_or rfc3284_code_table code (single 0 0)

same_dinst : Dinst → Dinst → Bool
same_dinst d e =
    (d.type1 == e.type1 && d.size1 == e.size1) && (d.type2 == e.type2 && d.size2 == e.size2)

same_dinst→eq : (d e : Dinst) → same_dinst d e ≡ true → d ≡ e
unfolding same_dinst
same_dinst→eq d e h = ground arith

-- The size that a single instruction's entry carries: 0 where the size is written behind the code.
abbrev pub immediate : ℕ → ℕ → ℕ
immediate type size =
    if type == xd3_add && leb size 17
    then size
    else if leb xd3_cpy type && (leb 4 size && leb size 18)
    then size
    else 0

code1_table :
    under 11 (λ t. under 20 (λ size.
      same_dinst (entry (choose_code1 (t + 1) size)) (single (t + 1) (immediate (t + 1) size))))
    ≡ true
unfolding under choose_code1 entry rfc3284_code_table same_dinst
code1_table = refl

code2_agrees : ℕ → ℕ → ℕ → ℕ → Option ℕ → Bool
code2_agrees p ps t s none = true
code2_agrees p ps t s (some code) =
    leb 163 code && same_dinst (entry code) (record { type1 = p; size1 = ps; type2 = t; size2 = s })

-- A double code is chosen for the sizes below these only.
code2_table :
    under 11 (λ p. under 4 (λ ps. under 11 (λ t.
      under 7
        (λ s. code2_agrees (p + 1) (ps + 1) (t + 1) s (choose_code2 (p + 1) (ps + 1) (t + 1) s)))))
    ≡ true
unfolding under choose_code2 entry rfc3284_code_table same_dinst code2_agrees
code2_table = refl

choose_code1_large : (type size : ℕ) → 19 ≤ size → choose_code1 type size ≡ choose_code1 type 19
unfolding choose_code1
choose_code1_large type size h = ground arith

at_table : (p : ℕ → Bool) (n x : ℕ) → under n (λ t. p (t + 1)) ≡ true → 1 ≤ x → x ≤ n → p x ≡ true
at_table p n x h lo hi =
    let e : x - 1 + 1 ≡ x = omega arith in
    rw e at (under_lem n (λ t. p (t + 1)) (x - 1) h (omega arith))

single-entry_small :
    (type size : ℕ)
    → 1 ≤ type
    → type ≤ 11
    → size < 20
    → entry (choose_code1 type size) ≡ single type (immediate type size)
single-entry_small type size lo hi h = same_dinst→eq _ _ (
    under_lem 20 _ size
      (at_table
        (λ t. under 20 (λ s. same_dinst (entry (choose_code1 t s)) (single t (immediate t s)))) 11
        type code1_table lo hi)
      h)

-- The code of a single instruction is the table's entry for its type, with the size if the table
-- has that size for the type and with size 0 if not.
pub entry-choose_code1 :
    (type size : ℕ)
    → 1 ≤ type
    → type ≤ 11
    → entry (choose_code1 type size) ≡ single type (immediate type size)
entry-choose_code1 type size lo hi = elim (dec_lt size 20) [
  | yes h ↦ single-entry_small type size lo hi h
  | no h ↦
      let none_left : immediate type size ≡ immediate type 19 = ground arith in
      rw (choose_code1_large type size (omega arith), none_left)
        (single-entry_small type 19 lo hi (omega arith))
]

choose_code2_bounds :
    (p ps t s : ℕ) {code : ℕ} → choose_code2 p ps t s ≡ some code → (ps ≤ 4) × (s ≤ 6)
unfolding choose_code2
choose_code2_bounds p ps t s h = (ground arith, ground arith)

agrees_some :
    (p ps t s code : ℕ) {o : Option ℕ}
    → o ≡ some code
    → code2_agrees p ps t s o ≡ true
    → (163 ≤ code) × (entry code ≡ record { type1 = p; size1 = ps; type2 = t; size2 = s })
unfolding code2_agrees
agrees_some p ps t s code e h =
    let h' = rw e at h in (ground arith, same_dinst→eq _ _ (ground arith))

-- The double code that is put in the first instruction is the table's entry for the two.
pub entry-choose_code2 :
    (p ps t s code : ℕ)
    → 1 ≤ p
    → p ≤ 11
    → 1 ≤ ps
    → 1 ≤ t
    → t ≤ 11
    → choose_code2 p ps t s ≡ some code
    → (163 ≤ code) × (entry code ≡ record { type1 = p; size1 = ps; type2 = t; size2 = s })
entry-choose_code2 p ps t s code lp hp lps lt ht e =
    let (hps, hs) = choose_code2_bounds p ps t s e in
    agrees_some p ps t s code e (
      under_lem 7 _ s
        (at_table (λ t. under 7 (λ s. code2_agrees p ps t s (choose_code2 p ps t s))) 11 t
          (at_table
            (λ ps.
              under 11
                (λ t. under 7 (λ s. code2_agrees p ps (t + 1) s (choose_code2 p ps (t + 1) s))))
            4 ps
            (at_table
              (λ p. under 4 (λ ps. under 11 (λ t.
                under 7
                  (λ s. code2_agrees p (ps + 1) (t + 1) s (choose_code2 p (ps + 1) (t + 1) s)))))
              11 p code2_table lp hp)
            lps hps)
          lt ht)
        (omega arith))
