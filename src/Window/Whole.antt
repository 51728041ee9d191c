-- ===== src/Window/Whole.antt =====
-- xd3_decode_emit as a whole: its loop, and the checks behind it.
use swift_xdelta.Prelude.{
  ℕ, zero, suc, ◌+◌, ◌%◌, ◌<◌, ◌≡◌, refl, sym, ap, ◌∙◌, arith, inl, inr, Bool-cases, List, [], ◌∷◌,
  ◌||◌, ◌&&◌, not,
}
use swift_xdelta.Prelude.{
  Option, true, length, ◌==◌, if◌then◌else◌, Result, ok, err, OkAll, Reads, Rvalue, outside, ◌≢◌,
}
use swift_xdelta.AddrCache.{usize_mod}
use swift_xdelta.AddrCache.Reads.{IsReadable}
use swift_xdelta.Window.Reads.{decode_instruction-Reads}
use swift_xdelta.Adler.{adler32}
use swift_xdelta.CodeTable.{xd3_noop}
use swift_xdelta.Source.{Getblk}
use swift_xdelta.Source.Blocks.{IsClient}
use swift_xdelta.Window.{
  Window, Turn, moved, suspended, failed, unwritten, spent, decode_instruction,
}
use swift_xdelta.Window.Emit.{
  is_noop, is_empty, output_half, after_half1, output_both, next_pair, emit_loop, check_window,
  checked, decode_emit, refused,
}
use swift_xdelta.Window.Steps.{pending-noop}
use swift_xdelta.Window.Halves.{output_half-LoopOf}
use swift_xdelta.Window.Pairs.{BothParsed, decode_instruction-BothParsed}
use swift_xdelta.Window.Safety.{
  IsWindow, IsDecoding, BothDone, EmitOf, EmitOf-tgtlen, Continues, after_half1-EmitOf,
  CopyReady-same,
}

-- The rounds that a window has left: one for each byte of its instructions at most, and one for an
-- instruction that waits.
rounds : Window → ℕ
rounds w = length w.inst_sect + (if is_noop w.current1 && is_noop w.current2 then 0 else 1)

-- What the next instruction is worked on from.
Fetched : Window → Window → Type 0
Fetched w v = IsDecoding v × (length v.inst_sect < rounds w) × (v.tgtlen ≡ w.tgtlen)

IsWindow-BothParsed : (w v : Window) → IsWindow w → BothDone w → BothParsed w v → IsWindow v
IsWindow-BothParsed w v h (nop1, nop2) p =
    let r = h.roomy in
    let s = p.same in
    let len : length v.out ≡ length w.out = ap length s.out in
    let at : w.position ≡ w.cpylen + length w.out = omega (
      arith,
      h.position,
      pending-noop w.current1 nop1,
      pending-noop w.current2 nop2,
      r.room,
      r.fits,
    ) in
    record {
      roomy = record {
        room = omega (arith, len, s.space_out, r.room);
        fits = omega (arith, s.cpylen, s.space_out, r.fits);
        blocks = omega (arith, ap (λ t. t.blksize) s.src, s.space_out, r.blocks);
        source = rw s.src r.source;
      };
      half1 =
          CopyReady-same w.cpylen v.cpylen _ _ v.current1 v.current1 (sym s.cpylen)
            (omega (arith, at, len, s.cpylen)) refl p.ready1;
      half2 =
          CopyReady-same w.cpylen v.cpylen _ _ v.current2 v.current2 (sym s.cpylen)
            (ap (λ t. t % usize_mod) (omega (arith, at, len, s.cpylen))) refl p.ready2;
      position = p.position ∙ ap (λ t. t % usize_mod) (omega (arith, at, len, s.cpylen));
    }

parsed-Reads :
    (w : Window) (m : Result Window)
    → IsDecoding w
    → BothDone w
    → OkAll (λ v. BothParsed w v × (length v.inst_sect < length w.inst_sect)) m
    → Reads (λ v. IsReadable v.acache) m
    → Reads (Fetched w) m
unfolding Fetched rounds
parsed-Reads w (err e) h done p r = r
parsed-Reads w (ok v) h done (p, fewer) r = (
  record { window = IsWindow-BothParsed w v h.window done p; cache = r },
  omega arith,
  p.same.tgtlen,
)

next_pair-Fetched : (w : Window) → IsDecoding w → Reads (Fetched w) (next_pair w)
unfolding next_pair
next_pair-Fetched w h = elim (Bool-cases (is_noop w.current1 && is_noop w.current2)) [
  | inl idle ↦ rw idle (
      parsed-Reads w (decode_instruction w) h (ground arith)
        (decode_instruction-BothParsed w (omega (arith, h.window.position)))
        (decode_instruction-Reads w h.cache))
  | inr busy ↦ rw busy (unfold Fetched in (h, unfold rounds in rw busy (omega arith), refl))
]

refused-EmitOf : (w : Window) (e : Rvalue) → e ≢ outside → EmitOf w (refused e)
unfolding EmitOf
refused-EmitOf w outside ne = ne refl
refused-EmitOf w other ne = tt

output_both-EmitOf :
    (more : Window → Turn Window) (client : Option Getblk) (w : Window) (m : Result Window)
    → IsClient client
    → Reads (Fetched w) m
    → ((v : Window) → IsDecoding v → rounds v < rounds w → EmitOf v (more v))
    → EmitOf w (output_both more client m)
unfolding output_both Fetched
output_both-EmitOf more client w (err e) hc f ih = refused-EmitOf w e f
output_both-EmitOf more client w (ok v) hc (h, fewer, t) ih =
    EmitOf-tgtlen w v (after_half1 more client (output_half client v v.current1)) t (
      after_half1-EmitOf more client v (output_half client v v.current1) hc h
        (output_half-LoopOf client v v.current1 hc h.window.roomy h.window.half1)
        (unfold Continues in
          λ u hu (nop1, nop2) si st.
            EmitOf-tgtlen v u (more u) st
              (ih u hu (unfold rounds in omega (arith, idle u nop1 nop2, ap length si, fewer)))))
  where
    idle :
        (u : Window)
        → u.current1.type ≡ xd3_noop
        → u.current2.type ≡ xd3_noop
        → ◌≡◌ {A = ℕ} (if is_noop u.current1 && is_noop u.current2 then 0 else 1) 0
    idle u a b = ground arith

is_empty→[] : (bs : List ℕ) → is_empty bs ≡ true → bs ≡ []
is_empty→[] [] e = refl
is_empty→[] (b ∷ bs) e = cc

emit_loop-EmitOf :
    (fuel : ℕ) (client : Option Getblk) (w : Window)
    → IsClient client
    → IsDecoding w
    → rounds w < fuel
    → EmitOf w (emit_loop fuel client w)
unfolding emit_loop
emit_loop-EmitOf zero client w hc h few = absurd (omega arith)
emit_loop-EmitOf (suc fuel) client w hc h few =
    elim (Bool-cases
      (not (is_empty w.inst_sect) || not (is_noop w.current1) || not (is_noop w.current2))) [
        | inl some_left ↦ rw some_left (
            output_both-EmitOf (emit_loop fuel client) client w (next_pair w) hc
              (next_pair-Fetched w h)
              λ v hv fewer. emit_loop-EmitOf fuel client v hc hv (omega arith))
        | inr all_done ↦
            rw all_done
              (unfold EmitOf in (h, ground arith, is_empty→[] w.inst_sect (ground arith), refl))
      ]

-- How xd3_decode_emit may end. A window that it finishes has the target length that was asked for,
-- all three sections used up, and the checksum that the delta gives, where it is to be checked. One
-- that waits for a source block keeps the invariant. It neither reads memory that nothing has written
-- nor runs out of fuel.
unfoldable pub EndsWell : Window → Turn Window → Type 0
EndsWell w (moved v) =
    IsDecoding v
    × BothDone v
    × (length v.out ≡ w.tgtlen)
    × (v.inst_sect ≡ [])
    × (v.data_sect ≡ [])
    × (v.addr_sect ≡ [])
    × (v.checks_adler32 ≡ true → adler32 1 v.out ≡ v.adler32)
EndsWell w (suspended e v) = IsDecoding v × (v.tgtlen ≡ w.tgtlen)
EndsWell w (failed e) = Unit
EndsWell w unwritten = ⊥
EndsWell w spent = ⊥

check_window-EndsWell :
    (w v : Window)
    → IsDecoding v
    → BothDone v
    → v.inst_sect ≡ []
    → v.tgtlen ≡ w.tgtlen
    → EndsWell w (check_window v)
unfolding check_window EndsWell
check_window-EndsWell w v h done none t = elim (Bool-cases (not (length v.out == v.tgtlen))) [
  | inl wrong ↦ rw wrong tt
  | inr right ↦ rw right (elim (Bool-cases (not (is_empty v.data_sect))) [
    | inl extra ↦ rw extra tt
    | inr used ↦ rw used (elim (Bool-cases (not (is_empty v.addr_sect))) [
      | inl extra ↦ rw extra tt
      | inr used' ↦
          rw used' (elim (Bool-cases (v.checks_adler32 && not (adler32 1 v.out == v.adler32))) [
            | inl bad ↦ rw bad tt
            | inr good ↦ rw good (
              h,
              done,
              ground arith,
              none,
              is_empty→[] v.data_sect (ground arith),
              is_empty→[] v.addr_sect (ground arith),
              λ on. ground arith,
            )
          ])
    ])
  ])
]

checked-EndsWell : (w : Window) (r : Turn Window) → EmitOf w r → EndsWell w (checked r)
unfolding checked EmitOf
checked-EndsWell w (moved v) (h, done, none, t) = check_window-EndsWell w v h done none t
checked-EndsWell w (suspended e v) h = unfold EndsWell in h
checked-EndsWell w (failed e) h = unfold EndsWell in tt
checked-EndsWell w unwritten h = absurd h
checked-EndsWell w spent h = absurd h

-- From a window that keeps the invariant, fresh or left waiting for a source block, with an address
-- cache for the default code table whose arrays have their lengths, and with a client that keeps its
-- contract, xd3_decode_emit ends, never reads memory that nothing has written, and reads the cache
-- inside its arrays only: it fails, or waits for a source block with the invariant kept, or finishes, with an output
-- within its buffer and of exactly the length asked for, every section used up, and the checksum right
-- where it is to be checked.
pub decode_emit-EndsWell :
    (client : Option Getblk) (w : Window)
    → IsClient client
    → IsDecoding w
    → EndsWell w (decode_emit client w)
unfolding decode_emit
decode_emit-EndsWell client w hc h =
    checked-EndsWell w (emit_loop (length w.inst_sect + 2) client w)
      (emit_loop-EmitOf (length w.inst_sect + 2) client w hc h (unfold rounds in ground arith))
