-- ===== src/Window/Setup.antt =====
-- xdelta3/xdelta3-decode.h: xd3_decode_setup_buffers, and the window that it leaves.
use swift_xdelta.Prelude.{
  ℕ, ◌^◌, ◌≤◌, ◌<◌, ◌≡◌, refl, ap, arith, Bool, true, false, [], inl, inr, Bool-cases,
}
use swift_xdelta.Prelude.{
  if_both, ltb, if◌then◌else◌, length, Result, ok, err, OkAll, enomem, unimplemented,
}
use swift_xdelta.Output.{alloc_size}
use swift_xdelta.Words.{round_blksize}
use swift_xdelta.Words.Pow2.{round_blksize-multiple}
use swift_xdelta.Source.Blocks.{IsSource}
use swift_xdelta.Window.{Window}
use swift_xdelta.Window.Steps.{pending-noop}
use swift_xdelta.Window.Safety.{IsWindow, BothDone}

-- XD3_HARDMAXWINSIZE
abbrev pub hardmaxwinsize : ℕ
hardmaxwinsize = 2 ^ 26

-- A larger buffer, if the application has the memory.
unfoldable pub new_buffer : Bool → Window → Result Window
new_buffer false w = err enomem
new_buffer true w = ok (record w { space_out = round_blksize w.tgtlen alloc_size })

-- The argument is whether the application's allocator has memory.
unfoldable pub setup_buffers : Bool → Window → Result Window
unfolding new_buffer
setup_buffers memory w =
    if w.copies_target
    then err unimplemented
    else if ltb w.space_out w.tgtlen
    then new_buffer memory w
    else ok w

-- A window as xd3_decode_input has it before its first instruction: its lengths checked, nothing
-- written, and the position behind the copy window.
pub record IsFresh (w : Window) : Type 0 where
  pub source : IsSource w.src
  pub nothing : w.out ≡ []
  pub idle : BothDone w
  pub position : w.position ≡ w.cpylen
  pub target : w.tgtlen ≤ hardmaxwinsize
  pub copy : w.cpylen < 2 ^ 63
  pub block : w.src.blksize < 2 ^ 63
  pub buffer : w.space_out < 2 ^ 63

pub IsFresh-IsWindow : (w : Window) → IsFresh w → IsWindow w
IsFresh-IsWindow w h =
    let len : length w.out ≡ 0 = ap length h.nothing in
    record {
      roomy = record {
        room = omega (arith, len);
        fits = omega (arith, h.copy, h.buffer);
        blocks = omega (arith, h.block, h.buffer);
        source = h.source;
      };
      half1 = λ cpy. absurd (omega (arith, h.idle));
      half2 = λ cpy. absurd (omega (arith, h.idle));
      position = omega (
        arith,
        h.position,
        h.copy,
        len,
        pending-noop w.current1 h.idle.0,
        pending-noop w.current2 h.idle.1,
      );
    }

-- Where xd3_decode_setup_buffers succeeds on a fresh window, its output buffer holds the target, and
-- the window has the invariant of xd3_decode_emit and its old target length.
pub setup_buffers-IsWindow :
    (memory : Bool) (w : Window)
    → IsFresh w
    → OkAll
        (λ v. IsWindow v × (v.tgtlen ≤ v.space_out) × (v.tgtlen ≡ w.tgtlen))
        (setup_buffers memory w)
unfolding setup_buffers
setup_buffers-IsWindow memory w h =
    if_both (OkAll (λ v. IsWindow v × (v.tgtlen ≤ v.space_out) × (v.tgtlen ≡ w.tgtlen)))
      w.copies_target _ _ tt
      (elim (Bool-cases (ltb w.space_out w.tgtlen)) [
        | inl small ↦ rw small (larger memory)
        | inr enough ↦ rw enough (IsFresh-IsWindow w h, ground arith, refl)
      ])
  where
    larger :
        (memory : Bool)
        → OkAll
            (λ v. IsWindow v × (v.tgtlen ≤ v.space_out) × (v.tgtlen ≡ w.tgtlen))
            (new_buffer memory w)
    larger false = tt
    larger true =
        let r = round_blksize-multiple w.tgtlen 14 (omega arith) (omega (arith, h.target)) in
        (
          IsFresh-IsWindow (record w { space_out = round_blksize w.tgtlen alloc_size })
              (record {
                source = h.source;
                nothing = h.nothing;
                idle = h.idle;
                position = h.position;
                target = h.target;
                copy = h.copy;
                block = h.block;
                buffer = omega (arith, r, h.target);
              }),
          r.0,
          refl,
        )
