-- ===== src/Encoder/Compact.antt =====
-- The first loop of xd3_iopt_flush_instructions leaves matches that do not overlap.
use swift_xdelta.Prelude.{ℕ, ◌+◌, ◌≤◌, ◌<◌, ◌≡◌, refl, arith, true, List, [], ◌∷◌, length}
use swift_xdelta.Integer.{xoff_mod}
use swift_xdelta.CodeTable.{Rinst}
use swift_xdelta.Encoder.Matches.{IsMatch}
use swift_xdelta.Encoder.Sequence.{Follows}
use swift_xdelta.Encoder.Buffer.{
  Verdict, apart, irrelevant, wait, take_second, take_first, shortened, verdict, compact,
  compact_used,
}
use swift_xdelta.Encoder.Cuts.{Ordered, AreOrdered, Ahead, Cut, IsSound, verdict-IsSound}

pub Ordered-head : (bs : List ℕ) (r : Rinst) (rest : List Rinst) → Ordered bs r rest → IsMatch bs r
Ordered-head bs r [] o = o
Ordered-head bs r (r' ∷ rest) o = o.0

-- Another first match, before the rest.
pub Ordered-first :
    (bs : List ℕ) (r r' : Rinst) (rest : List Rinst)
    → IsMatch bs r'
    → (n : ℕ) → Ahead n rest
    → r'.pos ≤ n
    → r'.pos + r'.size ≤ r.pos + r.size
    → Ordered bs r rest
    → Ordered bs r' rest
Ordered-first bs r r' [] m n ahead before ends o = m
Ordered-first bs r r' (r2 ∷ rest) m n ahead before ends (m', starts, longer, o) =
    (m, omega arith, omega arith, o)

pub Ordered-skip :
    (bs : List ℕ) (r r' : Rinst) (rest : List Rinst) → Ordered bs r (r' ∷ rest) → Ordered bs r rest
Ordered-skip bs r r' [] (m, starts, ends, o) = m
Ordered-skip bs r r' (r2 ∷ rest) (m, starts, ends, (m', starts', ends', o)) =
    (m, omega arith, omega arith, o)

-- To split on a verdict and keep the equation.
pub data Which (v : Verdict) : Type 0 where
  is_apart : v ≡ apart → Which v
  is_irrelevant : v ≡ irrelevant → Which v
  is_wait : v ≡ wait → Which v
  is_second : v ≡ take_second → Which v
  is_first : v ≡ take_first → Which v
  is_shortened : (r1 r2 : Rinst) → v ≡ shortened r1 r2 → Which v

pub which : (v : Verdict) → Which v
which apart = is_apart refl
which irrelevant = is_irrelevant refl
which wait = is_wait refl
which take_second = is_second refl
which take_first = is_first refl
which (shortened r1 r2) = is_shortened r1 r2 refl

unfoldable pub AllBehind : ℕ → List Rinst → Type 0
AllBehind n [] = Unit
AllBehind n (r ∷ rest) = n ≤ r.pos

pub Ordered-rest :
    (bs : List ℕ) (r : Rinst) (rest : List Rinst) → Ordered bs r rest → AreOrdered bs rest
Ordered-rest bs r [] o = tt
Ordered-rest bs r (r' ∷ rest) o = o.3

Ahead-AllBehind : (n : ℕ) (rest : List Rinst) → Ahead n rest → AllBehind n rest
unfolding AllBehind
Ahead-AllBehind n [] h = tt
Ahead-AllBehind n (r ∷ rest) h = omega arith

mutual
  unfolding compact compact_used IsSound AllBehind

  compact-Follows :
      (bs : List ℕ) (n : ℕ) (r1 : Rinst) (rest free : List Rinst)
      → length bs < xoff_mod
      → Ordered bs r1 rest
      → n ≤ r1.pos
      → Follows bs n (compact true r1 rest free).0
  compact-Follows bs n r1 [] free small o before = (o, before, tt)
  compact-Follows bs n r1 (r2 ∷ rest) free small (m1, starts, ends, o) before =
      let sound = verdict-IsSound bs r1 r2 rest small m1 (Ordered-head bs r2 rest o) starts ends in
      elim (which (verdict true r1 r2 rest)) [
        | is_apart v ↦
            let clear : r1.pos + r1.size ≤ r2.pos = rw v at sound in
            rw (v, Follows)
              (m1, before, compact-Follows bs (r1.pos + r1.size) r2 rest free small o clear)
        | is_irrelevant v ↦
            rw (v, Follows)
              (compact-Follows bs n r1 rest (r2 ∷ free) small
                (Ordered-skip bs r1 r2 rest (m1, starts, ends, o)) before)
        | is_wait v ↦ absurd (rw v at sound)
        | is_second v ↦
            rw (v, Follows) (compact-Follows bs n r2 rest (r1 ∷ free) small o (omega arith))
        | is_first v ↦
            let (overlap, ahead) : (r2.pos < r1.pos + r1.size) × Ahead (r1.pos + r1.size) rest =
              rw v at sound in
            rw (v, Follows)
              (
                m1,
                before,
                used-Follows bs (r1.pos + r1.size) rest (r2 ∷ free) small
                    (Ordered-rest bs r2 rest o) (Ahead-AllBehind (r1.pos + r1.size) rest ahead),
              )
        | is_shortened a c v ↦
            let (made, ahead) : Cut bs r1 r2 a c × Ahead (r1.pos + r1.size) rest = rw v at sound in
            rw (v, Follows)
              (
                made.first,
                omega (arith, made.pos),
                compact-Follows bs (a.pos + a.size) c rest free small
                    (Ordered-first bs r2 c rest made.second (r1.pos + r1.size) ahead made.low
                      (omega (arith, made.end)) o)
                    made.clear,
              )
      ]

  used-Follows :
      (bs : List ℕ) (n : ℕ) (used free : List Rinst)
      → length bs < xoff_mod
      → AreOrdered bs used
      → AllBehind n used
      → Follows bs n (compact_used true used free).0
  used-Follows bs n [] free small o before = tt
  used-Follows bs n (r1 ∷ rest) free small o before =
      compact-Follows bs n r1 rest free small o before

-- Of matches that start and end one behind the other, the forced loop leaves matches that follow
-- each other without an overlap, the first not before `n`, each still right for the target, which is
-- shorter than an `xoff_t` can count.
pub compact_used-Follows :
    (bs : List ℕ) (n : ℕ) (used free : List Rinst)
    → length bs < xoff_mod
    → AreOrdered bs used
    → AllBehind n used
    → Follows bs n (compact_used true used free).0
compact_used-Follows = used-Follows
