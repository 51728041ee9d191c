-- ===== src/Encoder/Buffer.antt =====
-- xdelta3/xdelta3.c: the instruction buffer, emptied (xd3_iopt_flush_instructions). The list
-- `iopt_used` is given from its front; a `usize_t` has 64 bits and an `xoff_t` 32.
use swift_xdelta.Prelude.{
  ℕ, ◌+◌, ◌-◌, ◌*◌, ◌/◌, ◌%◌, ◌&&◌, ◌||◌, not, Bool, true, false, List, [], ◌∷◌,
}
use swift_xdelta.Prelude.{ltb, leb, if◌then◌else◌, ok}
use swift_xdelta.Integer.{xoff_mod}
use swift_xdelta.Sink.{Sink}
use swift_xdelta.AddrCache.{usize_mod}
use swift_xdelta.CodeTable.{Rinst, min_match}
use swift_xdelta.Encoder.{Encoder, Call, least, ◌>>>◌, add_encoding, add_finalize}

-- MAX_MATCH_SPLIT
abbrev pub max_match_split : ℕ
max_match_split = 18

-- Subtraction on `usize_t`.
abbrev pub less : ℕ → ℕ → ℕ
less a b = (a + usize_mod - b) % usize_mod

abbrev pub end_of : Rinst → ℕ
end_of r = (r.pos + r.size) % usize_mod

-- What becomes of two instructions of the buffer that follow each other.
pub data Verdict : Type 0 where
  apart irrelevant wait take_second take_first : Verdict
  shortened : Rinst → Rinst → Verdict

-- "Fallthrough above if-else, shorten r2".
abbrev shorten_second : Rinst → Rinst → ℕ → Verdict
shorten_second r1 r2 adjust1 = shortened r1 (record r2 {
  size = less r2.size adjust1;
  pos = (r2.pos + adjust1) % usize_mod;
  addr = (r2.addr + adjust1) % xoff_mod;
})

-- `adjust1`, how much shorter r1 becomes.
abbrev pub balance : Rinst → Rinst → ℕ → ℕ
balance r1 r2 newsize =
    let adjust1 = less r1.size newsize in
    let to = less (end_of r1) adjust1 in
    if ltb to r2.pos then less adjust1 (less r2.pos to) else adjust1

abbrev shorten_both : Rinst → Rinst → ℕ → Verdict
shorten_both r1 r2 newsize =
    let r1' : Rinst = record r1 { size = less r1.size (balance r1 r2 newsize) } in
    shorten_second r1' r2 (less (end_of r1') r2.pos)

unfoldable pub shorten : Rinst → Rinst → Verdict
shorten r1 r2 =
    let gap = less (end_of r2) r1.pos in
    let newsize = least max_match_split (less gap (gap / 2)) in
    if ltb r1.size newsize
    then shorten_second r1 r2 (less (end_of r1) r2.pos)
    else if ltb r2.size newsize
    then shorten_second (record r1 { size = less r1.size (less (end_of r1) r2.pos) }) r2 0
    else shorten_both r1 r2 newsize

unfoldable pub overlapping : Rinst → Rinst → Verdict
overlapping r1 r2 =
    let r2off = less r2.pos r1.pos in
    let r2moff = less (end_of r2) (end_of r1) in
    let gap = less (end_of r2) r1.pos in
    if ltb gap (2 * min_match) || leb r2moff 2 || leb r2off 2
    then (if ltb r1.size r2.size then take_second else take_first)
    else shorten r1 r2

-- Without a third instruction, and unless forced, the loop ends.
unfoldable pub by_third : Bool → Rinst → Rinst → List Rinst → Verdict
by_third force r1 r2 [] = if force then overlapping r1 r2 else wait
by_third force r1 r2 (r3 ∷ rest) =
    if leb r3.pos ((end_of r1 + 1) % usize_mod) then irrelevant else overlapping r1 r2

unfoldable pub verdict : Bool → Rinst → Rinst → List Rinst → Verdict
verdict force r1 r2 rest = if leb (end_of r1) r2.pos then apart else by_third force r1 r2 rest

abbrev pub kept : Rinst → List Rinst × List Rinst → List Rinst × List Rinst
kept r (used, free) = (r ∷ used, free)

-- The first loop of xd3_iopt_flush_instructions, from r1 on: what is left in the buffer, and the
-- slots that are free.
unfoldable mutual
  pub compact : Bool → Rinst → List Rinst → List Rinst → List Rinst × List Rinst
  compact force r1 [] free = (r1 ∷ [], free)
  compact force r1 (r2 ∷ rest) free = elim (verdict force r1 r2 rest) [
    | apart ↦ kept r1 (compact force r2 rest free)
    | irrelevant ↦ compact force r1 rest (r2 ∷ free)
    | wait ↦ (r1 ∷ r2 ∷ rest, free)
    | take_second ↦ compact force r2 rest (r1 ∷ free)
    | take_first ↦ kept r1 (compact_used force rest (r2 ∷ free))
    | shortened r1' r2' ↦ kept r1' (compact force r2' rest free)
  ]

  pub compact_used : Bool → List Rinst → List Rinst → List Rinst × List Rinst
  compact_used force [] free = ([], free)
  compact_used force (r1 ∷ rest) free = compact force r1 rest free

abbrev fewer_than_three : List Rinst → Bool
fewer_than_three (r1 ∷ r2 ∷ r3 ∷ rest) = false
fewer_than_three _ = true

-- The second loop. The list is `iopt_used`, which xd3_iopt_add_encoding does not touch; `iadd` is
-- what is on the stack where that has its own.
unfoldable pub flush_loop :
    {k : Sink} → Bool → Rinst → ℕ → Encoder k → List Rinst → Call k (Unit {0})
flush_loop force iadd flushed e [] = (ok tt, e)
flush_loop force iadd flushed e (renc ∷ used) =
    add_encoding (record e { iopt_used = used }) iadd renc >>> λ u e.
    if not force && (ltb (e.iopt_size / 2) (flushed + 1) || fewer_than_three used)
    then (ok tt, e)
    else flush_loop force iadd (flushed + 1) e used

unfoldable pub flush_instructions : {k : Sink} → Bool → Rinst → Encoder k → Call k (Unit {0})
flush_instructions force iadd e =
    let (used, free) = compact_used force e.iopt_used e.iopt_free in
    flush_loop force iadd 0 (record e { iopt_used = used; iopt_free = free }) used

-- The state ENC_INSTR of xd3_encode_input.
unfoldable pub encode_instr : {k : Sink} → Rinst → Encoder k → Call k (Unit {0})
encode_instr iadd e = flush_instructions true iadd e >>> λ u e. add_finalize e iadd
