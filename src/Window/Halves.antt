-- ===== src/Window/Halves.antt =====
-- The loop on one half of an instruction ends, and keeps the window as one turn does.
use swift_xdelta.Prelude.{
  ℕ, zero, suc, ◌+◌, ◌≤◌, ◌<◌, ◌≡◌, ◌≢◌, refl, ◌∙◌, arith, inl, inr, ◌⊎◌, Bool-cases,
}
use swift_xdelta.Prelude.{Option, length, ◌==◌, if◌then◌else◌, ==_iff}
use swift_xdelta.CodeTable.{xd3_noop}
use swift_xdelta.Source.{Getblk}
use swift_xdelta.Source.Blocks.{IsClient}
use swift_xdelta.Window.{
  Hinst, Window, Turn, moved, suspended, failed, unwritten, spent, output_halfinst,
}
use swift_xdelta.Window.Emit.{half_loop, half_again, output_half, is_noop}
use swift_xdelta.Window.Steps.{CopyReady, IsRoomy, Frame-self, Kept, StepOf}
use swift_xdelta.Window.Turns.{output_halfinst-StepOf}

-- The half is done, or its source block was not to be had.
unfoldable pub LoopOf : Window → Hinst → Turn (Window × Hinst) → Type 0
LoopOf w i (moved (w', i')) = Kept w i w' i' × (i'.type ≡ xd3_noop)
LoopOf w i (suspended e (w', i')) = Kept w i w' i'
LoopOf w i (failed e) = Unit
LoopOf w i unwritten = ⊥
LoopOf w i spent = ⊥

turns : Hinst → ℕ
turns i = if i.type == xd3_noop then 1 else i.size + 2

Kept-trans : (a b c : Window) (i j k : Hinst) → Kept a i b j → Kept b j c k → Kept a i c k
Kept-trans a b c i j k p q = record {
  roomy = q.roomy;
  ready = q.ready;
  total = q.total ∙ p.total;
  frame = record {
    inst_sect = q.frame.inst_sect ∙ p.frame.inst_sect;
    acache = q.frame.acache ∙ p.frame.acache;
    position = q.frame.position ∙ p.frame.position;
    cpylen = q.frame.cpylen ∙ p.frame.cpylen;
    tgtlen = q.frame.tgtlen ∙ p.frame.tgtlen;
    space_out = q.frame.space_out ∙ p.frame.space_out;
    current1 = q.frame.current1 ∙ p.frame.current1;
    current2 = q.frame.current2 ∙ p.frame.current2;
  };
}

LoopOf-Kept :
    (a b : Window) (i j : Hinst) (r : Turn (Window × Hinst))
    → Kept a i b j
    → LoopOf b j r
    → LoopOf a i r
unfolding LoopOf
LoopOf-Kept a b i j (moved (c, k)) p (q, nop) = (Kept-trans a b c i j k p q, nop)
LoopOf-Kept a b i j (suspended e (c, k)) p q = Kept-trans a b c i j k p q
LoopOf-Kept a b i j (failed e) p q = tt
LoopOf-Kept a b i j unwritten p q = q
LoopOf-Kept a b i j spent p q = q

half_again-LoopOf :
    (more : Window → Hinst → Turn (Window × Hinst)) (w : Window) (i : Hinst)
    (r : Turn (Window × Hinst))
    → i.type ≢ xd3_noop
    → StepOf w i r
    → ((w' : Window) (i' : Hinst) → Kept w i w' i' → turns i' < turns i → LoopOf w' i' (more w' i'))
    → LoopOf w i (half_again more r)
unfolding half_again StepOf turns
half_again-LoopOf more w i (moved (w', i')) ne (kept, less) ih =
    LoopOf-Kept w w' i i' (more w' i') kept (ih w' i' kept (fewer_turns less))
  where
    fewer_turns : (i'.type ≡ xd3_noop) ⊎ (i'.size < i.size) → turns i' < turns i
    fewer_turns l = ground arith
half_again-LoopOf more w i (suspended e (w', i')) ne kept ih = unfold LoopOf in kept
half_again-LoopOf more w i (failed e) ne kept ih = unfold LoopOf in tt
half_again-LoopOf more w i unwritten ne kept ih = absurd kept
half_again-LoopOf more w i spent ne kept ih = absurd kept

half_loop-LoopOf :
    (fuel : ℕ) (client : Option Getblk) (w : Window) (i : Hinst)
    → IsClient client
    → IsRoomy w
    → CopyReady w.cpylen (w.cpylen + length w.out) i
    → turns i ≤ fuel
    → LoopOf w i (half_loop fuel client w i)
unfolding half_loop
half_loop-LoopOf zero client w i hc roomy ready h = absurd (unfold turns in ground arith)
half_loop-LoopOf (suc fuel) client w i hc roomy ready h = elim (Bool-cases (is_noop i)) [
  | inl nop ↦ rw nop (
      unfold LoopOf in
      (
        record { roomy = roomy; ready = ready; total = refl; frame = Frame-self w },
        (==_iff _ _).0 nop,
      ))
  | inr other ↦
      let ne : i.type ≢ xd3_noop = ground arith in
      rw other (
        half_again-LoopOf (half_loop fuel client) w i (output_halfinst client w i) ne
          (output_halfinst-StepOf client w i hc roomy ready ne)
          λ w' i' kept fewer.
            half_loop-LoopOf fuel client w' i' hc kept.roomy kept.ready (omega arith))
]

-- The fuel that a half gets is enough.
pub output_half-LoopOf :
    (client : Option Getblk) (w : Window) (i : Hinst)
    → IsClient client
    → IsRoomy w
    → CopyReady w.cpylen (w.cpylen + length w.out) i
    → LoopOf w i (output_half client w i)
unfolding output_half
output_half-LoopOf client w i hc roomy ready =
    half_loop-LoopOf (i.size + 2) client w i hc roomy ready (unfold turns in ground arith)
