-- ===== src/CodeTable/Choice.antt =====
-- xd3_choose_instruction against the decoder's table: each code means the instructions that it was
-- chosen for, and no entry of the table goes unused.
use swift_xdelta.Prelude.{
  ℕ, ◌+◌, ◌-◌, ◌≤◌, ◌<◌, ◌≡◌, refl, arith, Bool, true, false, ◌⊎◌, inl, inr, Option, none, some,
}
use swift_xdelta.Prelude.{◌==◌, under, under_lem, ==_iff}
use native.Mathlib.Decide.{dec_lt}
use swift_xdelta.CodeTable.{
  Dinst, Rinst, set_code2, single, rfc3284_code_table, choose_code1, choose_code2,
  choose_instruction, choose_prev,
}
use swift_xdelta.CodeTable.Entries.{entry, immediate, entry-choose_code1, entry-choose_code2}

-- The types of real instructions: ADD, RUN and the nine COPY modes.
pub record IsInst (i : Rinst) : Type 0 where
  pub real : 1 ≤ i.type
  pub known : i.type ≤ 11

-- What a table entry says of the pair of instructions that it is the code of.
abbrev pub pair_entry : Rinst → Rinst → Dinst
pair_entry p i = record { type1 = p.type; size1 = p.size; type2 = i.type; size2 = i.size }

-- The previous instruction is left as it was, or given a double code of the pair.
pub data PrevCoded (prev inst : Rinst) : Option Rinst → Type 0 where
  unpaired : PrevCoded prev inst (some prev)
  paired :
      (code : ℕ)
      → 163 ≤ code
      → entry code ≡ pair_entry prev inst
      → PrevCoded prev inst (some (record prev { code2 = code }))

prev_coded :
    (prev inst : Rinst) (o : Option ℕ)
    → choose_code2 prev.type prev.size inst.type inst.size ≡ o
    → IsInst prev
    → IsInst inst
    → 1 ≤ prev.size
    → PrevCoded prev inst (some (set_code2 prev o))
unfolding set_code2
prev_coded prev inst none e hp hi hs = unpaired
prev_coded prev inst (some code) e hp hi hs =
    let (large, entry_of) =
      entry-choose_code2 prev.type prev.size inst.type inst.size code hp.real hp.known hs hi.real
        hi.known e in
    paired code large entry_of

-- The single code of the instruction is the table's entry for its type, with its size where the table
-- has that size and with size 0 where not; nothing else of it changes; and the previous instruction,
-- unless it is empty, changes at most in its double code, which is the entry for the two.
pub choose_instruction-PrevCoded :
    (prev inst : Rinst)
    → IsInst prev
    → IsInst inst
    → 1 ≤ prev.size
    → let (prev', inst') = choose_instruction (some prev) inst in
      PrevCoded prev inst prev'
      × (inst' ≡ record inst { code1 = inst'.code1 })
      × (entry inst'.code1 ≡ single inst.type (immediate inst.type inst.size))
unfolding choose_instruction
choose_instruction-PrevCoded prev inst hp hi hs = (
  prev_coded prev inst _ refl hp hi hs,
  refl,
  entry-choose_code1 inst.type inst.size hi.real hi.known,
)

-- An entry of the second half is chosen for its own pair.
is_code : ℕ → Option ℕ → Bool
is_code code none = false
is_code code (some c) = c == code

is_code→eq : (code : ℕ) (o : Option ℕ) → is_code code o ≡ true → o ≡ some code
unfolding is_code
is_code→eq code none h = cc
is_code→eq code (some c) h = ground arith

singles_table :
    under 163 (λ code. choose_code1 (entry code).type1 (entry code).size1 == code) ≡ true
unfolding under choose_code1 entry rfc3284_code_table
singles_table = refl

doubles_table :
    under 93 (λ k.
      let e = entry (163 + k) in is_code (163 + k) (choose_code2 e.type1 e.size1 e.type2 e.size2))
    ≡ true
unfolding under choose_code2 entry rfc3284_code_table is_code
doubles_table = refl

-- Every code below 163 is the single code of the instruction in its entry, and every code from 163
-- on is the double code of the pair in its entry.
pub choose_code-entry :
    (code : ℕ)
    → code < 256
    → let e = entry code in
      ((code < 163) × (choose_code1 e.type1 e.size1 ≡ code))
      ⊎ ((163 ≤ code) × (choose_code2 e.type1 e.size1 e.type2 e.size2 ≡ some code))
choose_code-entry code h = elim (dec_lt code 163) [
  | yes lo ↦ inl (lo, (==_iff _ code).0 (under_lem 163 _ code singles_table lo))
  | no hi ↦
      let e : 163 + (code - 163) ≡ code = omega arith in
      inr (
        omega arith,
        is_code→eq code _ (rw e at (under_lem 93 _ (code - 163) doubles_table (omega arith))),
      )
]

-- Without a previous instruction, the same of the instruction alone.
pub choose_instruction-none :
    (inst : Rinst)
    → IsInst inst
    → let (prev', inst') = choose_instruction none inst in
      (prev' ≡ none)
      × (inst' ≡ record inst { code1 = inst'.code1 })
      × (entry inst'.code1 ≡ single inst.type (immediate inst.type inst.size))
unfolding choose_instruction choose_prev
choose_instruction-none inst hi =
    (refl, refl, entry-choose_code1 inst.type inst.size hi.real hi.known)
