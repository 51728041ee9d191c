-- ===== src/Encoder/Counts.antt =====
-- The slots of the instruction buffer, counted as xd3_iopt_check counts them.
use swift_xdelta.Prelude.{ℕ, ◌+◌, ◌≡◌, arith, Bool, List, [], ◌∷◌, length}
use swift_xdelta.CodeTable.{Rinst}
use swift_xdelta.Encoder.Buffer.{verdict, compact, compact_used}
use swift_xdelta.Encoder.Compact.{
  which, is_apart, is_irrelevant, is_wait, is_second, is_first, is_shortened,
}

slots : List Rinst × List Rinst → ℕ
slots (used, free) = length used + length free

mutual
  unfolding compact compact_used slots

  slots-compact :
      (force : Bool) (r1 : Rinst) (rest free : List Rinst)
      → slots (compact force r1 rest free) ≡ length rest + length free + 1
  slots-compact force r1 [] free = omega arith
  slots-compact force r1 (r2 ∷ rest) free = elim (which (verdict force r1 r2 rest)) [
    | is_apart v ↦ rw (v, length) (omega (arith, slots-compact force r2 rest free))
    | is_irrelevant v ↦ rw (v, length) (omega (arith, slots-compact force r1 rest (r2 ∷ free)))
    | is_wait v ↦ rw (v, length) (omega arith)
    | is_second v ↦ rw (v, length) (omega (arith, slots-compact force r2 rest (r1 ∷ free)))
    | is_first v ↦ rw (v, length) (omega (arith, slots-used force rest (r2 ∷ free)))
    | is_shortened a c v ↦ rw (v, length) (omega (arith, slots-compact force c rest free))
  ]

  slots-used :
      (force : Bool) (used free : List Rinst)
      → slots (compact_used force used free) ≡ length used + length free
  slots-used force [] free = omega arith
  slots-used force (r1 ∷ rest) free = omega (arith, slots-compact force r1 rest free)

-- The first loop of xd3_iopt_flush_instructions, forced or not, loses no slot: those that are left in
-- use and those that are free are as many as before.
pub length-compact_used :
    (force : Bool) (used free : List Rinst)
    → let (used', free') = compact_used force used free in
      length used' + length free' ≡ length used + length free
unfolding slots
length-compact_used = slots-used
