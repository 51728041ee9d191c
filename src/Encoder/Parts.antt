-- ===== src/Encoder/Parts.antt =====
-- What the first loop of xd3_iopt_flush_instructions leaves is made of the buffer's instructions.
use swift_xdelta.Prelude.{
  ℕ, ◌+◌, ◌≤◌, ◌<◌, ◌≡◌, ◌≢◌, refl, ◌∙◌, arith, ◌⊎◌, inl, inr, true, List, [], ◌∷◌, length, All,
}
use swift_xdelta.Integer.{xoff_mod}
use swift_xdelta.CodeTable.{Rinst}
use swift_xdelta.Encoder.Sequence.{Follows}
use swift_xdelta.Encoder.Buffer.{verdict, compact, compact_used}
use swift_xdelta.Encoder.Cuts.{Ordered, AreOrdered, Ahead, Cut, IsPart, IsSound, verdict-IsSound}
use swift_xdelta.Encoder.Compact.{
  AllBehind, which, is_apart, is_irrelevant, is_wait, is_second, is_first, is_shortened,
  Ordered-head, Ordered-first, Ordered-skip, Ordered-rest, compact_used-Follows,
}

-- `r` is one of the buffer's.
abbrev pub Among : Rinst → List Rinst → Type 0
Among r [] = ⊥
Among r (x ∷ xs) = (r ≡ x) ⊎ Among r xs

-- Two instructions for some of the same bytes.
abbrev pub Overlap : Rinst → Rinst → Type 0
Overlap r s = (r.pos ≢ s.pos) × (r.pos < s.pos + s.size) × (s.pos < r.pos + r.size)

-- What is left of the instructions: one after another is kept, whole or in part, or left out, and then
-- it overlaps another instruction of the buffer.
pub data LeftOf (buffer : List Rinst) : List Rinst → List Rinst → Type 0 where
  none_left : LeftOf buffer [] []
  kept_part :
      (r r' : Rinst) (rs rs' : List Rinst)
      → IsPart r r'
      → LeftOf buffer rs rs'
      → LeftOf buffer (r ∷ rs) (r' ∷ rs')
  left_out :
      (r s : Rinst) (rs rs' : List Rinst)
      → Among s buffer
      → Overlap r s
      → LeftOf buffer rs rs'
      → LeftOf buffer (r ∷ rs) rs'

pub IsPart-self : (r : Rinst) → IsPart r r
IsPart-self r = record {
  from = 0;
  start = omega arith;
  inside = omega arith;
  kind = (refl, refl);
  addr = inl (refl, refl);
}

-- The first part of a part; it starts where the part does.
IsPart-first :
    (o r r' : Rinst) → IsPart o r → IsPart r r' → r'.pos ≡ r.pos → r'.addr ≡ r.addr → IsPart o r'
IsPart-first o r r' p q same kept_addr = record {
  from = p.from;
  start = omega (arith, p.start);
  inside = omega (arith, p.inside, q.inside);
  kind = (q.kind.0 ∙ p.kind.0, q.kind.1 ∙ p.kind.1);
  addr = elim p.addr [
    | inl (start, same_addr) ↦ inl (start, kept_addr ∙ same_addr)
    | inr moved ↦ inr (kept_addr ∙ moved)
  ];
}

over_first :
    (o r1 r2 : Rinst)
    → IsPart o r1
    → r1.pos < r2.pos
    → r1.pos + r1.size < r2.pos + r2.size
    → r2.pos < r1.pos + r1.size
    → Overlap r2 o
over_first o r1 r2 p starts ends overlap =
    (λ e. absurd (omega (arith, p.start)), omega (arith, p.start, p.inside), omega (arith, p.start))

over_second :
    (o r1 r2 : Rinst)
    → IsPart o r1
    → r1.pos < r2.pos
    → r1.pos + r1.size < r2.pos + r2.size
    → r2.pos < r1.pos + r1.size
    → Overlap o r2
over_second o r1 r2 p starts ends overlap =
    (λ e. absurd (omega (arith, p.start)), omega (arith, p.start), omega (arith, p.start, p.inside))

-- An instruction that is left out behind the first one.
left_out_next :
    (buffer : List Rinst) (o r s : Rinst) (rs out : List Rinst)
    → Among s buffer
    → Overlap r s
    → LeftOf buffer (o ∷ rs) out
    → LeftOf buffer (o ∷ r ∷ rs) out
left_out_next buffer o r s rs _ mem over (kept_part _ o' _ out p more) =
    kept_part o o' (r ∷ rs) out p (left_out r s rs out mem over more)
left_out_next buffer o r s rs _ mem over (left_out _ t _ out mem' over' more) =
    left_out o t (r ∷ rs) out mem' over' (left_out r s rs out mem over more)

module _ (buffer : List Rinst) (bs : List ℕ) (small : length bs < xoff_mod) where
  abbrev AllAmong : List Rinst → Type 0
  AllAmong = All (λ r. Among r buffer)

  mutual
    unfolding compact compact_used IsSound

    -- `o` is the buffer's instruction that `r1` is a part of.
    compact-LeftOf :
        (o r1 : Rinst) (rest free : List Rinst)
        → Among o buffer
        → AllAmong rest
        → IsPart o r1
        → Ordered bs r1 rest
        → LeftOf buffer (o ∷ rest) (compact true r1 rest free).0
    compact-LeftOf o r1 [] free mem all part ord = kept_part o r1 [] [] part none_left
    compact-LeftOf o r1 (r2 ∷ rest) free mem (mem2, all) part (m1, starts, ends, ord) =
        let m2 = Ordered-head bs r2 rest ord in
        let sound = verdict-IsSound bs r1 r2 rest small m1 m2 starts ends in
        elim (which (verdict true r1 r2 rest)) [
          | is_apart v ↦
              rw (v, compact)
                (kept_part o r1 (r2 ∷ rest) _ part
                  (compact-LeftOf r2 r2 rest free mem2 all (IsPart-self r2) ord))
          | is_irrelevant v ↦
              let overlap : r2.pos < r1.pos + r1.size = rw v at sound in
              rw (v, compact)
                (left_out_next buffer o r2 o rest _ mem
                  (over_first o r1 r2 part starts ends overlap)
                  (compact-LeftOf o r1 rest (r2 ∷ free) mem all part
                    (Ordered-skip bs r1 r2 rest (m1, starts, ends, ord))))
          | is_wait v ↦ absurd (rw v at sound)
          | is_second v ↦
              let overlap : r2.pos < r1.pos + r1.size = rw v at sound in
              rw (v, compact)
                (left_out o r2 (r2 ∷ rest) _ mem2 (over_second o r1 r2 part starts ends overlap)
                  (compact-LeftOf r2 r2 rest (r1 ∷ free) mem2 all (IsPart-self r2) ord))
          | is_first v ↦
              let (overlap, ahead) : (r2.pos < r1.pos + r1.size) × Ahead (r1.pos + r1.size) rest =
                rw v at sound in
              rw (v, compact)
                (kept_part o r1 (r2 ∷ rest) _ part (
                  left_out r2 o rest _ mem (over_first o r1 r2 part starts ends overlap)
                    (used-LeftOf rest (r2 ∷ free) all (Ordered-rest bs r2 rest ord))))
          | is_shortened a c v ↦
              let (made, ahead) : Cut bs r1 r2 a c × Ahead (r1.pos + r1.size) rest =
                rw v at sound in
              rw (v, compact)
                (kept_part o a (r2 ∷ rest) _
                  (IsPart-first o r1 a part made.part1 made.pos made.addr)
                  (compact-LeftOf r2 c rest free mem2 all made.part2 (
                    Ordered-first bs r2 c rest made.second (r1.pos + r1.size) ahead made.low
                      (omega (arith, made.end)) ord)))
        ]

    used-LeftOf :
        (used free : List Rinst)
        → AllAmong used
        → AreOrdered bs used
        → LeftOf buffer used (compact_used true used free).0
    used-LeftOf [] free all ord = none_left
    used-LeftOf (r ∷ rest) free (mem, all) ord =
        compact-LeftOf r r rest free mem all (IsPart-self r) ord

Among-weaken :
    (x : Rinst) (xs rs : List Rinst) → All (λ r. Among r xs) rs → All (λ r. Among r (x ∷ xs)) rs
Among-weaken x xs [] h = tt
Among-weaken x xs (r ∷ rs) (h, hs) = (inr h, Among-weaken x xs rs hs)

All-Among : (rs : List Rinst) → All (λ r. Among r rs) rs
All-Among [] = tt
All-Among (r ∷ rs) = (inl refl, Among-weaken r rs rs (All-Among rs))

some_left : (r1 : Rinst) (rest free : List Rinst) → 1 ≤ length (compact true r1 rest free).0
unfolding compact
some_left r1 [] free = omega arith
some_left r1 (r2 ∷ rest) free = elim (which (verdict true r1 r2 rest)) [
  | is_apart v ↦ rw (v, length) (omega arith)
  | is_irrelevant v ↦ rw (v, length) (some_left r1 rest (r2 ∷ free))
  | is_wait v ↦ rw (v, length) (omega arith)
  | is_second v ↦ rw (v, length) (some_left r2 rest (r1 ∷ free))
  | is_first v ↦ rw (v, length) (omega arith)
  | is_shortened a c v ↦ rw (v, length) (omega arith)
]

-- What the forced loop makes of the buffer: matches that follow each other, of the buffer's
-- instructions, and some of them if the buffer has any.
pub record Compacted (bs : List ℕ) (n : ℕ) (used used' : List Rinst) : Type 0 where
  pub follows : Follows bs n used'
  pub left : LeftOf used used used'
  pub some_left : used ≢ [] → 1 ≤ length used'

-- Of matches that start and end one behind the other, the first not before `n`, the forced loop leaves
-- matches that follow each other without an overlap, each still right for the target, which is shorter
-- than an `xoff_t` can count. They are, in the same order, the buffer's own, whole or a part that repeats
-- or runs as before; the loop leaves out only what overlaps another instruction of the buffer and, of a
-- buffer that has any, never everything.
pub compact_used-Compacted :
    (bs : List ℕ) (n : ℕ) (used free : List Rinst)
    → length bs < xoff_mod
    → AreOrdered bs used
    → AllBehind n used
    → Compacted bs n used (compact_used true used free).0
unfolding compact_used
compact_used-Compacted bs n used free small o before = record {
  follows = compact_used-Follows bs n used free small o before;
  left = used-LeftOf used bs small used free (All-Among used) o;
  some_left = some_used used;
}
  where
    some_used : (used : List Rinst) → used ≢ [] → 1 ≤ length (compact_used true used free).0
    some_used [] ne = absurd (ne refl)
    some_used (r ∷ rest) ne = some_left r rest free
