-- ===== src/Encoder/Cuts.antt =====
-- Two matches of the instruction buffer, cut where they overlap: what each verdict of the first loop of
-- xd3_iopt_flush_instructions promises.
use swift_xdelta.Prelude.{
  ℕ, ◌+◌, ◌-◌, ◌/◌, ◌%◌, ◌≤◌, ◌<◌, ◌≡◌, refl, ap, ◌∙◌, arith, ◌⊎◌, inl, inr, Bool-cases, if_both,
  true, List, [], ◌∷◌, length, get_elem?, ltb, leb,
}
use swift_xdelta.Integer.{xoff_mod}
use swift_xdelta.AddrCache.{usize_mod}
use swift_xdelta.CodeTable.{Rinst}
use swift_xdelta.Encoder.{least}
use swift_xdelta.Encoder.Matches.{IsMatch, Repeats, IsRun}
use swift_xdelta.Encoder.Buffer.{
  Verdict, apart, irrelevant, wait, take_second, take_first, shortened, max_match_split, balance,
  less, end_of, shorten, overlapping, by_third, verdict,
}

-- A match without its first `n` bytes.
abbrev without : Rinst → ℕ → Rinst
without r n = record r {
  size = less r.size n;
  pos = (r.pos + n) % usize_mod;
  addr = (r.addr + n) % xoff_mod;
}

-- Or with its first `n` bytes only.
pub IsMatch-first :
    (bs : List ℕ) (r : Rinst) (n : ℕ)
    → IsMatch bs r
    → 1 ≤ n
    → n ≤ r.size
    → IsMatch bs (record r { size = n })
unfolding Repeats IsRun
IsMatch-first bs r n m some_size fits =
    let inside = m.inside in
    record {
      some_size = some_size;
      inside = omega arith;
      kind = elim m.kind [
        | inl (type, before, here, repeats) ↦
            inl (type, before, here, λ j lt. repeats j (omega arith))
        | inr (type, run) ↦ inr (type, λ j lt. run j (omega arith))
      ];
    }

IsMatch-without :
    (bs : List ℕ) (r : Rinst) (n : ℕ)
    → length bs < xoff_mod
    → IsMatch bs r
    → n < r.size
    → IsMatch bs (without r n)
unfolding Repeats IsRun
IsMatch-without bs r n small m fits =
    let inside = m.inside in
    let pos' : (r.pos + n) % usize_mod ≡ r.pos + n = omega arith in
    let size' : less r.size n ≡ r.size - n = omega arith in
    record {
      some_size = omega arith;
      inside = omega arith;
      kind = elim m.kind [
        | inl (type, before, here, repeats) ↦
            let addr' : (r.addr + n) % xoff_mod ≡ r.addr + n = omega arith in
            inl (
              type,
              omega arith,
              here,
              rw (pos', size', addr')
                  (λ j lt.
                    ap (get_elem? bs) (omega arith)
                    ∙ repeats (n + j) (omega arith)
                    ∙ ap (get_elem? bs) (omega arith)),
            )
        | inr (type, run) ↦ inr (
          type,
          rw (pos', size') (λ j lt. ap (get_elem? bs) (omega arith) ∙ run (n + j) (omega arith)),
        )
      ];
    }

-- What the string matcher leaves in the buffer: matches that start and end one behind the other.
abbrev pub Ordered : List ℕ → Rinst → List Rinst → Type 0
Ordered bs r [] = IsMatch bs r
Ordered bs r (r' ∷ rest) =
    IsMatch bs r × (r.pos < r'.pos) × (r.pos + r.size < r'.pos + r'.size) × Ordered bs r' rest

abbrev pub AreOrdered : List ℕ → List Rinst → Type 0
AreOrdered bs [] = Unit
AreOrdered bs (r ∷ rest) = Ordered bs r rest

-- The next instruction, if there is one, starts behind `n`.
abbrev pub Ahead : ℕ → List Rinst → Type 0
Ahead n [] = Unit
Ahead n (r ∷ rest) = n < r.pos

-- An instruction, or a part of it: the same kind of match, that starts `from` bytes behind its start.
pub record IsPart (r r' : Rinst) : Type 0 where
  pub from : ℕ
  pub start : r'.pos ≡ r.pos + from
  pub inside : from + r'.size ≤ r.size
  pub kind : (r'.type ≡ r.type) × (r'.xtra ≡ r.xtra)
  pub addr : ((from ≡ 0) × (r'.addr ≡ r.addr)) ⊎ (r'.addr ≡ (r.addr + from) % xoff_mod)

-- What a verdict promises, where the loop is forced.
pub record Cut (bs : List ℕ) (r1 r2 r1' r2' : Rinst) : Type 0 where
  pub first : IsMatch bs r1'
  pub second : IsMatch bs r2'
  pub pos : r1'.pos ≡ r1.pos
  pub addr : r1'.addr ≡ r1.addr
  pub clear : r1'.pos + r1'.size ≤ r2'.pos
  pub end : r2'.pos + r2'.size ≡ r2.pos + r2.size
  pub low : r2'.pos ≤ r1.pos + r1.size
  pub part1 : IsPart r1 r1'
  pub part2 : IsPart r2 r2'

unfoldable pub IsSound : List ℕ → Rinst → Rinst → List Rinst → Verdict → Type 0
IsSound bs r1 r2 rest apart = r1.pos + r1.size ≤ r2.pos
IsSound bs r1 r2 rest irrelevant = r2.pos < r1.pos + r1.size
IsSound bs r1 r2 rest wait = ⊥
IsSound bs r1 r2 rest take_second = r2.pos < r1.pos + r1.size
IsSound bs r1 r2 rest take_first = (r2.pos < r1.pos + r1.size) × Ahead (r1.pos + r1.size) rest
IsSound bs r1 r2 rest (shortened r1' r2') = Cut bs r1 r2 r1' r2' × Ahead (r1.pos + r1.size) rest

module _ (bs : List ℕ) (small : length bs < xoff_mod) (r1 r2 : Rinst) (m1 : IsMatch bs r1)
    (m2 : IsMatch bs r2) (starts : r1.pos < r2.pos) (ends : r1.pos + r1.size < r2.pos + r2.size)
    (overlap : r2.pos < r1.pos + r1.size) where
  -- The first is given `n` bytes, and the second starts behind it.
  cut :
      (n adjust : ℕ)
      → 1 ≤ n
      → n ≤ r1.size
      → r1.pos + n ≡ r2.pos + adjust
      → Cut bs r1 r2 (record r1 { size = n }) (without r2 adjust)
  cut n adjust some_size fits same =
      let inside = m2.inside in
      record {
        first = IsMatch-first bs r1 n m1 some_size fits;
        second = IsMatch-without bs r2 adjust small m2 (omega arith);
        pos = refl;
        addr = refl;
        clear = omega arith;
        end = omega arith;
        low = omega arith;
        part1 = record {
          from = 0;
          start = omega arith;
          inside = omega arith;
          kind = (refl, refl);
          addr = inl (refl, refl);
        };
        part2 = record {
          from = adjust;
          start = omega arith;
          inside = omega arith;
          kind = (refl, refl);
          addr = inr refl;
        };
      }

  new_size : ℕ
  new_size = let gap = less (end_of r2) r1.pos in least max_match_split (less gap (gap / 2))

  some_new_size : 1 ≤ new_size
  unfolding new_size
  some_new_size =
      let inside = m2.inside in
      let gap : less (end_of r2) r1.pos ≡ r2.pos + r2.size - r1.pos = omega arith in
      rw gap (ground arith)

  -- The first gets the new size, or all up to the second.
  balance-fits :
      (newsize : ℕ)
      → 1 ≤ newsize
      → newsize ≤ r1.size
      → let n = less r1.size (balance r1 r2 newsize) in
        (1 ≤ n) × (n ≤ r1.size) × (r2.pos ≤ r1.pos + n)
  balance-fits newsize some_new fits =
      let inside = m1.inside in
      let adjust1 : less r1.size newsize ≡ r1.size - newsize = omega arith in
      let end1 : end_of r1 ≡ r1.pos + r1.size = omega arith in
      let to : less (r1.pos + r1.size) (r1.size - newsize) ≡ r1.pos + newsize = omega arith in
      rw (adjust1, end1, to)
        (elim (Bool-cases (ltb (r1.pos + newsize) r2.pos)) [
          | inl behind ↦
              let l : r1.pos + newsize < r2.pos = ground arith in
              rw behind (omega arith, omega arith, omega arith)
          | inr within ↦
              let l : r2.pos ≤ r1.pos + newsize = ground arith in
              rw within (omega arith, omega arith, omega arith)
        ])

  shorten-IsSound :
      (rest : List Rinst) → Ahead (r1.pos + r1.size) rest → IsSound bs r1 r2 rest (shorten r1 r2)
  unfolding shorten IsSound new_size
  shorten-IsSound rest ahead =
      let inside = m1.inside in
      let inside2 = m2.inside in
      let some1 = m1.some_size in
      let end1 : less (end_of r1) r2.pos ≡ r1.pos + r1.size - r2.pos = omega arith in
      elim (Bool-cases (ltb r1.size new_size)) [
        | inl longer ↦
            rw longer
              (cut r1.size (less (end_of r1) r2.pos) some1 (omega arith) (omega arith), ahead)
        | inr first ↦ rw first (elim (Bool-cases (ltb r2.size new_size)) [
          | inl longer ↦ rw longer (
            cut (less r1.size (less (end_of r1) r2.pos)) 0 (omega arith) (omega arith)
                (omega arith),
            ahead,
          )
          | inr second ↦
              let (some_n, fits, reach) = balance-fits new_size some_new_size (ground arith) in
              let n = less r1.size (balance r1 r2 new_size) in
              rw second (
                cut n (less (end_of (record r1 { size = n })) r2.pos) some_n fits (omega arith),
                ahead,
              )
        ])
      ]

  overlapping-IsSound :
      (rest : List Rinst)
      → Ahead (r1.pos + r1.size) rest
      → IsSound bs r1 r2 rest (overlapping r1 r2)
  unfolding overlapping
  overlapping-IsSound rest ahead =
      if_both (IsSound bs r1 r2 rest) _ _ _
        (if_both (IsSound bs r1 r2 rest) (ltb r1.size r2.size) take_second take_first
          (unfold IsSound in overlap) (unfold IsSound in (overlap, ahead)))
        (shorten-IsSound rest ahead)

  by_third-IsSound : (rest : List Rinst) → IsSound bs r1 r2 rest (by_third true r1 r2 rest)
  unfolding by_third
  by_third-IsSound [] = overlapping-IsSound [] tt
  by_third-IsSound (r3 ∷ rest) =
      let inside = m1.inside in
      let end1 : (end_of r1 + 1) % usize_mod ≡ r1.pos + r1.size + 1 = omega arith in
      elim (Bool-cases (leb r3.pos ((end_of r1 + 1) % usize_mod))) [
        | inl near ↦ rw near (unfold IsSound in overlap)
        | inr far ↦
            let l : r1.pos + r1.size < r3.pos = ground arith in
            rw far (overlapping-IsSound (r3 ∷ rest) l)
      ]

pub verdict-IsSound :
    (bs : List ℕ) (r1 r2 : Rinst) (rest : List Rinst)
    → length bs < xoff_mod
    → IsMatch bs r1
    → IsMatch bs r2
    → r1.pos < r2.pos
    → r1.pos + r1.size < r2.pos + r2.size
    → IsSound bs r1 r2 rest (verdict true r1 r2 rest)
unfolding verdict
verdict-IsSound bs r1 r2 rest small m1 m2 starts ends =
    let inside = m1.inside in
    let end1 : end_of r1 ≡ r1.pos + r1.size = omega arith in
    elim (Bool-cases (leb (end_of r1) r2.pos)) [
      | inl clear ↦ rw clear (unfold IsSound in ground arith)
      | inr overlap ↦
          let l : r2.pos < r1.pos + r1.size = ground arith in
          rw overlap (by_third-IsSound bs small r1 r2 m1 m2 starts ends l rest)
    ]
