-- ===== src/Window/Pairs.antt =====
-- What xd3_decode_instruction leaves in the window, and of the two halves.
use native.Mathlib.Decide.{dec_lt}
use swift_xdelta.Prelude.{
  ℕ, ◌+◌, ◌%◌, ◌<◌, ◌≤◌, ◌≡◌, ◌⊎◌, inl, inr, refl, ap, arith, List, [], ◌∷◌, length,
}
use swift_xdelta.Prelude.{OkAll, OkAll-bind, Result, ok, err}
use swift_xdelta.AddrCache.{usize_mod}
use swift_xdelta.CodeTable.{Dinst, xd3_cpy}
use swift_xdelta.CodeTable.Entries.{entry}
use swift_xdelta.Window.{Hinst, Window, parse_half, parse_both, instruction_of, decode_instruction}
use swift_xdelta.Window.Steps.{pending, CopyReady}
use swift_xdelta.Window.Parse.{Same, Same-trans, Parsed, parse_half-Parsed}

-- A parsed instruction.
pub record BothParsed (w w' : Window) : Type 0 where
  pub same : Same w w'
  pub position : w'.position ≡ (w.position + pending w'.current1 + pending w'.current2) % usize_mod
  pub ready1 : CopyReady w.cpylen w.position w'.current1
  pub ready2 : CopyReady w.cpylen ((w.position + pending w'.current1) % usize_mod) w'.current2

both :
    (w : Window) (r1 r2 : Window × Hinst) (i j : Hinst)
    → Parsed w i r1
    → Parsed r1.0 j r2
    → BothParsed w (record r2.0 { current1 = r1.1; current2 = r2.1 })
both w (w1, i1) (w2, i2) i j p q =
    let t = Same-trans w w1 w2 p.same q.same in
    record {
      same = record {
        out = t.out;
        space_out = t.space_out;
        cpylen = t.cpylen;
        tgtlen = t.tgtlen;
        src = t.src;
        shorter = t.shorter;
      };
      position = omega (arith, p.position, q.position);
      ready1 = p.ready;
      ready2 = λ cpy. (
        omega (arith, (q.ready cpy).0, p.position),
        λ lt. omega (arith, (q.ready cpy).1 (omega (arith, p.same.cpylen)), p.same.cpylen),
      );
    }

parse_both-BothParsed :
    (w : Window) (d : Dinst) → w.position < usize_mod → OkAll (BothParsed w) (parse_both w d)
unfolding parse_both
parse_both-BothParsed w d small =
    let i = record w.current1 { type = d.type1; size = d.size1 } in
    OkAll-bind (Parsed w i) (BothParsed w) (parse_half w i) _ (parse_half-Parsed w i small) λ r1 p.
      let j = record r1.0.current2 { type = d.type2; size = d.size2 } in
      OkAll-bind (Parsed r1.0 j) (BothParsed w) (parse_half r1.0 j) _
        (parse_half-Parsed r1.0 j (omega (arith, p.position))) λ r2 q. both w r1 r2 i j p q

instruction_of-BothParsed :
    (w : Window) (sect : List ℕ)
    → w.inst_sect ≡ sect
    → w.position < usize_mod
    → OkAll
        (λ w'. BothParsed w w' × (length w'.inst_sect < length w.inst_sect))
        (instruction_of w sect)
unfolding instruction_of
instruction_of-BothParsed w [] e small = tt
instruction_of-BothParsed w (code ∷ rest) e small =
    one_taken (parse_both w1 (entry code)) (parse_both-BothParsed w1 (entry code) small)
  where
    w1 : Window
    w1 = record w { inst_sect = rest }

    one_taken :
        (m : Result Window)
        → OkAll (BothParsed w1) m
        → OkAll (λ w'. BothParsed w w' × (length w'.inst_sect < length w.inst_sect)) m
    one_taken (err x) h = tt
    one_taken (ok w') h =
        let fewer : length w'.inst_sect < length w.inst_sect =
          omega (arith, h.same.shorter, ap length e) in
        (
          record {
            same = record {
              out = h.same.out;
              space_out = h.same.space_out;
              cpylen = h.same.cpylen;
              tgtlen = h.same.tgtlen;
              src = h.same.src;
              shorter = omega (arith, fewer);
            };
            position = h.position;
            ready1 = h.ready1;
            ready2 = h.ready2;
          },
          fewer,
        )

pub decode_instruction-BothParsed :
    (w : Window)
    → w.position < usize_mod
    → OkAll
        (λ w'. BothParsed w w' × (length w'.inst_sect < length w.inst_sect))
        (decode_instruction w)
unfolding decode_instruction
decode_instruction-BothParsed w small = instruction_of-BothParsed w w.inst_sect refl small

-- A copy starts below the position `p` of its half. It starts in the target, or it is within the copy
-- window, or its address and its size together pass a `usize_t`.
abbrev pub Lands : ℕ → ℕ → Hinst → Type 0
Lands cpylen p i =
    xd3_cpy ≤ i.type
    → (i.addr < p)
      × ((cpylen ≤ i.addr) ⊎ ((i.addr + i.size ≤ cpylen) ⊎ (usize_mod ≤ i.addr + i.size)))

CopyReady-Lands : (cpylen p : ℕ) (i : Hinst) → CopyReady cpylen p i → Lands cpylen p i
CopyReady-Lands cpylen p i h = λ cpy. (
  (h cpy).0,
  elim (dec_lt i.addr cpylen) [
    | no target ↦ inl (omega arith)
    | yes source ↦ elim (dec_lt (i.addr + i.size) usize_mod) [
      | yes whole ↦ inr (inl (omega (arith, (h cpy).1 source)))
      | no wraps ↦ inr (inr (omega arith))
    ]
  ],
)

-- A decoded instruction.
pub record Instruction (w w' : Window) : Type 0 where
  pub same : Same w w'
  pub taken : length w'.inst_sect < length w.inst_sect
  pub position : w'.position ≡ (w.position + pending w'.current1 + pending w'.current2) % usize_mod
  pub lands1 : Lands w.cpylen w.position w'.current1
  pub lands2 : Lands w.cpylen ((w.position + pending w'.current1) % usize_mod) w'.current2

-- Where xd3_decode_instruction succeeds, it has taken a byte of its section at least and left the
-- output, the lengths and the source alone; the position has moved by both halves, modulo the word; and
-- a copy in a half starts below the position at which the half begins, and either in the target, or it
-- is within the copy window, or its address and its size together pass a `usize_t`.
pub decode_instruction-Instruction :
    (w : Window) → w.position < usize_mod → OkAll (Instruction w) (decode_instruction w)
decode_instruction-Instruction w small =
    decoded (decode_instruction w) (decode_instruction-BothParsed w small)
  where
    decoded :
        (m : Result Window)
        → OkAll (λ w'. BothParsed w w' × (length w'.inst_sect < length w.inst_sect)) m
        → OkAll (Instruction w) m
    decoded (err e) h = tt
    decoded (ok w') (p, fewer) = record {
      same = p.same;
      taken = fewer;
      position = p.position;
      lands1 = CopyReady-Lands _ _ _ p.ready1;
      lands2 = CopyReady-Lands _ _ _ p.ready2;
    }
