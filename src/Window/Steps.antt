-- ===== src/Window/Steps.antt =====
-- One turn of xd3_decode_output_halfinst: what it may touch, and what it leaves.
use swift_xdelta.Prelude.{
  ℕ, ◌+◌, ◌-◌, ◌%◌, ◌≤◌, ◌<◌, ◌≡◌, ◌≢◌, refl, arith, ◌⊎◌, inl, inr, List, [], ◌∷◌, ◌++◌,
}
use swift_xdelta.Prelude.{
  length, take, drop, replicate, length-append, length-take, length-replicate, Bool-cases, ltb,
  ◌==◌, if◌then◌else◌,
}
use swift_xdelta.AddrCache.{usize_mod}
use swift_xdelta.CodeTable.{xd3_noop, xd3_cpy}
use swift_xdelta.Source.{Source}
use swift_xdelta.Source.Blocks.{IsSource}
use swift_xdelta.Window.{
  Hinst, Window, Turn, moved, suspended, failed, unwritten, spent, run_byte, add_bytes, copy_target,
  wrote,
}
use swift_xdelta.Window.Overlap.{overlap_copy-Copied}

-- The bytes that a half of an instruction still has to write.
abbrev pub pending : Hinst → ℕ
pending i = if i.type == xd3_noop then 0 else i.size

-- A copy reads below `p`, and one from the source stays within the copy window.
abbrev pub CopyReady : ℕ → ℕ → Hinst → Type 0
CopyReady cpylen p i =
    xd3_cpy ≤ i.type → (i.addr < p) × (i.addr < cpylen → (i.addr + i.size) % usize_mod ≤ cpylen)

pub record IsRoomy (w : Window) : Type 0 where
  pub room : length w.out ≤ w.space_out
  pub fits : w.cpylen + w.space_out < usize_mod
  pub blocks : w.src.blksize + w.space_out < usize_mod
  pub source : IsSource w.src

pub pending-noop : (i : Hinst) → i.type ≡ xd3_noop → pending i ≡ 0
pending-noop i e = rw e refl

pub pending-other : (i : Hinst) → i.type ≢ xd3_noop → pending i ≡ i.size
pending-other i ne = ground arith

-- What output leaves alone.
pub record Frame (w w' : Window) : Type 0 where
  pub inst_sect : w'.inst_sect ≡ w.inst_sect
  pub acache : w'.acache ≡ w.acache
  pub position : w'.position ≡ w.position
  pub cpylen : w'.cpylen ≡ w.cpylen
  pub tgtlen : w'.tgtlen ≡ w.tgtlen
  pub space_out : w'.space_out ≡ w.space_out
  pub current1 : w'.current1 ≡ w.current1
  pub current2 : w'.current2 ≡ w.current2

pub record Kept (w : Window) (i : Hinst) (w' : Window) (i' : Hinst) : Type 0 where
  pub roomy : IsRoomy w'
  pub ready : CopyReady w'.cpylen (w'.cpylen + length w'.out) i'
  pub total : length w'.out + pending i' ≡ length w.out + pending i
  pub frame : Frame w w'

unfoldable pub StepOf : Window → Hinst → Turn (Window × Hinst) → Type 0
StepOf w i (moved (w', i')) = Kept w i w' i' × ((i'.type ≡ xd3_noop) ⊎ (i'.size < i.size))
StepOf w i (suspended e (w', i')) = Kept w i w' i'
StepOf w i (failed e) = Unit
StepOf w i unwritten = ⊥
StepOf w i spent = ⊥

pub Frame-self : (w : Window) → Frame w w
Frame-self w = record {
  inst_sect = refl;
  acache = refl;
  position = refl;
  cpylen = refl;
  tgtlen = refl;
  space_out = refl;
  current1 = refl;
  current2 = refl;
}

-- A half that fits the output.
module _ (w : Window) (i : Hinst) (roomy : IsRoomy w) (fits : length w.out + i.size ≤ w.space_out)
    (some_type : i.type ≢ xd3_noop) where
  pub pending-size : pending i ≡ i.size
  pending-size = pending-other i some_type

  -- The last bytes of a half.
  pub written :
      (out left : List ℕ) (s : Source) (j : Hinst)
      → j.type ≡ xd3_noop
      → IsSource s
      → s.blksize ≡ w.src.blksize
      → length out ≡ length w.out + i.size
      → StepOf w i (moved (record w { data_sect = left; out = out; src = s }, j))
  unfolding StepOf
  written out left s j nop hs same len = (
    record {
      roomy = record {
        room = omega (arith, len);
        fits = roomy.fits;
        blocks = omega (arith, roomy.blocks, same);
        source = hs;
      };
      ready = λ c. absurd (omega arith);
      total = omega (arith, len, pending-noop j nop, pending-size);
      frame = record {
        inst_sect = refl;
        acache = refl;
        position = refl;
        cpylen = refl;
        tgtlen = refl;
        space_out = refl;
        current1 = refl;
        current2 = refl;
      };
    },
    inl nop,
  )

  pub run_byte-StepOf : (d : List ℕ) → StepOf w i (run_byte w i d)
  unfolding run_byte StepOf
  run_byte-StepOf [] = tt
  run_byte-StepOf (b ∷ d) =
      written (w.out ++ replicate i.size b) d w.src _ refl roomy.source refl
        (omega (arith, length-append w.out (replicate i.size b), length-replicate i.size b))

  pub add_bytes-StepOf : StepOf w i (add_bytes w i)
  unfolding add_bytes StepOf
  add_bytes-StepOf = elim (Bool-cases (ltb (length w.data_sect) i.size)) [
    | inl short ↦ rw short tt
    | inr enough ↦ rw enough (
        written (w.out ++ take i.size w.data_sect) (drop i.size w.data_sect) w.src _ refl
          roomy.source refl
          (omega (
            arith,
            length-append w.out (take i.size w.data_sect),
            length-take i.size w.data_sect (ground arith),
          )))
  ]

  pub copy_target-StepOf :
      i.addr < w.cpylen + length w.out → w.cpylen ≤ i.addr → StepOf w i (copy_target w i)
  unfolding copy_target wrote StepOf
  copy_target-StepOf below here =
      let c = overlap_copy-Copied i.size (i.addr - w.cpylen) w.out (omega arith) in
      rw c.done (written c.copy w.data_sect w.src _ refl roomy.source refl c.longer)
