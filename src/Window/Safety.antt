-- ===== src/Window/Safety.antt =====
-- xd3_decode_emit on a window that its checks let through: the invariant, and the loop.
use swift_xdelta.Prelude.{ℕ, ◌+◌, ◌%◌, ◌≡◌, refl, sym, ap, ◌∙◌, arith, []}
use swift_xdelta.Prelude.{Option, length}
use swift_xdelta.AddrCache.{usize_mod}
use swift_xdelta.AddrCache.Reads.{IsReadable}
use swift_xdelta.CodeTable.{xd3_noop}
use swift_xdelta.Source.{Getblk}
use swift_xdelta.Source.Blocks.{IsClient}
use swift_xdelta.Window.{Hinst, Window, Turn, moved, suspended, failed, unwritten, spent}
use swift_xdelta.Window.Emit.{output_half, after_half1, after_half2}
use swift_xdelta.Window.Steps.{pending, CopyReady, IsRoomy, Kept, pending-noop}
use swift_xdelta.Window.Halves.{LoopOf, output_half-LoopOf}

-- The decoder's position runs ahead of the output by what the two halves have still to write; a
-- copy reads below it.
pub record IsWindow (w : Window) : Type 0 where
  pub roomy : IsRoomy w
  pub half1 : CopyReady w.cpylen (w.cpylen + length w.out) w.current1
  pub half2 :
      CopyReady w.cpylen ((w.cpylen + length w.out + pending w.current1) % usize_mod) w.current2
  pub position :
      w.position ≡ (w.cpylen + length w.out + pending w.current1 + pending w.current2) % usize_mod

abbrev pub BothDone : Window → Type 0
BothDone w = (w.current1.type ≡ xd3_noop) × (w.current2.type ≡ xd3_noop)

pub IsRoomy-halves :
    (w : Window) (i j : Hinst) → IsRoomy w → IsRoomy (record w { current1 = i; current2 = j })
IsRoomy-halves w i j h = record {
  room = h.room;
  fits = h.fits;
  blocks = h.blocks;
  source = h.source;
}

-- A copy that is ready stays so when its bounds are the same numbers.
pub CopyReady-same :
    (c d p q : ℕ) (i j : Hinst) → c ≡ d → p ≡ q → i ≡ j → CopyReady c p i → CopyReady d q j
CopyReady-same c d p q i j e f g h = rw (sym e, sym f, sym g) h

IsWindow-Kept1 :
    (w v : Window) (i : Hinst)
    → IsWindow w
    → Kept w w.current1 v i
    → IsWindow (record v { current1 = i })
IsWindow-Kept1 w v i h k =
    let same2 : pending w.current2 ≡ pending v.current2 = ap pending (sym k.frame.current2) in
    record {
      roomy = IsRoomy-halves v i v.current2 k.roomy;
      half1 = k.ready;
      half2 =
          CopyReady-same w.cpylen v.cpylen _ _ w.current2 v.current2 (sym k.frame.cpylen)
            (ap (λ t. t % usize_mod) (omega (arith, k.total, k.frame.cpylen)))
            (sym k.frame.current2) h.half2;
      position =
          k.frame.position
          ∙ h.position
          ∙ ap (λ t. t % usize_mod) (omega (arith, k.total, k.frame.cpylen, same2));
    }

IsWindow-Kept2 :
    (w v : Window) (i : Hinst)
    → IsWindow w
    → w.current1.type ≡ xd3_noop
    → Kept w w.current2 v i
    → IsWindow (record v { current2 = i })
IsWindow-Kept2 w v i h nop k =
    let none : pending w.current1 ≡ 0 = pending-noop w.current1 nop in
    let none' : pending v.current1 ≡ 0 = ap pending k.frame.current1 ∙ none in
    let nop' : v.current1.type ≡ xd3_noop = ap (λ (t : Hinst). t.type) k.frame.current1 ∙ nop in
    let r = k.roomy in
    record {
      roomy = IsRoomy-halves v v.current1 i k.roomy;
      half1 = λ cpy. absurd (omega (arith, nop'));
      half2 =
          CopyReady-same v.cpylen v.cpylen _ _ i i refl (omega (arith, none', r.room, r.fits)) refl
            k.ready;
      position =
          k.frame.position
          ∙ h.position
          ∙ ap (λ t. t % usize_mod) (omega (arith, k.total, k.frame.cpylen, none, none'));
    }

-- A copy that is ready for the second half is ready at the output's end once the first is done.
half2_ready :
    (w : Window)
    → IsWindow w
    → w.current1.type ≡ xd3_noop
    → CopyReady w.cpylen (w.cpylen + length w.out) w.current2
half2_ready w h nop =
    let r = h.roomy in
    CopyReady-same w.cpylen w.cpylen _ _ w.current2 w.current2 refl
      (omega (arith, pending-noop w.current1 nop, r.room, r.fits)) refl h.half2

-- The invariant of the loop: that of the window, and a cache that is read inside its arrays.
pub record IsDecoding (w : Window) : Type 0 where
  pub window : IsWindow w
  pub cache : IsReadable w.acache

IsDecoding-Kept1 :
    (w v : Window) (i : Hinst)
    → IsDecoding w
    → Kept w w.current1 v i
    → IsDecoding (record v { current1 = i })
IsDecoding-Kept1 w v i h k = record {
  window = IsWindow-Kept1 w v i h.window k;
  cache = rw k.frame.acache h.cache;
}

IsDecoding-Kept2 :
    (w v : Window) (i : Hinst)
    → IsDecoding w
    → w.current1.type ≡ xd3_noop
    → Kept w w.current2 v i
    → IsDecoding (record v { current2 = i })
IsDecoding-Kept2 w v i h nop k = record {
  window = IsWindow-Kept2 w v i h.window nop k;
  cache = rw k.frame.acache h.cache;
}

-- What the loop may answer: the instructions are all done, or it waits for a source block.
unfoldable pub EmitOf : Window → Turn Window → Type 0
EmitOf w (moved v) = IsDecoding v × BothDone v × (v.inst_sect ≡ []) × (v.tgtlen ≡ w.tgtlen)
EmitOf w (suspended e v) = IsDecoding v × (v.tgtlen ≡ w.tgtlen)
EmitOf w (failed e) = Unit
EmitOf w unwritten = ⊥
EmitOf w spent = ⊥

pub EmitOf-tgtlen : (w v : Window) (r : Turn Window) → v.tgtlen ≡ w.tgtlen → EmitOf v r → EmitOf w r
unfolding EmitOf
EmitOf-tgtlen w v (moved u) e (h, done, none, t) = (h, done, none, t ∙ e)
EmitOf-tgtlen w v (suspended x u) e (h, t) = (h, t ∙ e)
EmitOf-tgtlen w v (failed x) e h = tt
EmitOf-tgtlen w v unwritten e h = h
EmitOf-tgtlen w v spent e h = h

-- The next round, from a window between two instructions.
unfoldable pub Continues : (Window → Turn Window) → Window → Type 0
Continues more w =
    (v : Window)
    → IsDecoding v
    → BothDone v
    → v.inst_sect ≡ w.inst_sect
    → v.tgtlen ≡ w.tgtlen
    → EmitOf w (more v)

after_half2-EmitOf :
    (more : Window → Turn Window) (w v : Window) (r : Turn (Window × Hinst))
    → IsDecoding v
    → v.current1.type ≡ xd3_noop
    → v.inst_sect ≡ w.inst_sect
    → v.tgtlen ≡ w.tgtlen
    → LoopOf v v.current2 r
    → Continues more w
    → EmitOf w (after_half2 more r)
unfolding after_half2 LoopOf EmitOf Continues
after_half2-EmitOf more w v (moved (u, i)) h nop si st (k, nop2) ih =
    ih (record u { current2 = i }) (IsDecoding-Kept2 v u i h nop k)
      (ap (λ (t : Hinst). t.type) k.frame.current1 ∙ nop, nop2) (k.frame.inst_sect ∙ si)
      (k.frame.tgtlen ∙ st)
after_half2-EmitOf more w v (suspended e (u, i)) h nop si st k ih =
    (IsDecoding-Kept2 v u i h nop k, k.frame.tgtlen ∙ st)
after_half2-EmitOf more w v (failed e) h nop si st k ih = tt
after_half2-EmitOf more w v unwritten h nop si st k ih = k
after_half2-EmitOf more w v spent h nop si st k ih = k

pub after_half1-EmitOf :
    (more : Window → Turn Window) (client : Option Getblk) (w : Window) (r : Turn (Window × Hinst))
    → IsClient client
    → IsDecoding w
    → LoopOf w w.current1 r
    → Continues more w
    → EmitOf w (after_half1 more client r)
unfolding after_half1 LoopOf EmitOf
after_half1-EmitOf more client w (moved (u, i)) hc h (k, nop) ih =
    let v = record u { current1 = i } in
    let hv = IsDecoding-Kept1 w u i h k in
    after_half2-EmitOf more w v (output_half client v v.current2) hv nop k.frame.inst_sect
      k.frame.tgtlen
      (output_half-LoopOf client v v.current2 hc hv.window.roomy (half2_ready v hv.window nop)) ih
after_half1-EmitOf more client w (suspended e (u, i)) hc h k ih =
    (IsDecoding-Kept1 w u i h k, k.frame.tgtlen)
after_half1-EmitOf more client w (failed e) hc h k ih = tt
after_half1-EmitOf more client w unwritten hc h k ih = k
after_half1-EmitOf more client w spent hc h k ih = k
