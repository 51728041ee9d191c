-- ===== src/Window/Turns.antt =====
-- The copy from the source in xd3_decode_output_halfinst, and the turn as a whole.
use swift_xdelta.Prelude.{
  ℕ, ◌+◌, ◌-◌, ◌%◌, ◌≤◌, ◌<◌, ◌≡◌, ◌≢◌, refl, arith, inl, inr, not, ◌&&◌, ◌||◌, Option, none, some,
  List, ◌++◌,
}
use swift_xdelta.Prelude.{
  length, take, drop, length-append, length-take, length-drop, Bool-cases, if_both, ltb, leb, ◌==◌,
  Result, ok, err, toofarback,
}
use swift_xdelta.AddrCache.{usize_mod}
use swift_xdelta.CodeTable.{xd3_noop, xd3_add, xd3_run, xd3_cpy}
use swift_xdelta.Source.{Source, Getblk, getblk, blksize_add}
use swift_xdelta.Source.Blocks.{
  IsSource, IsClient, HasBlock, Answered, getblk-Answered, blksize_add-lt,
}
use swift_xdelta.Window.{
  Hinst, Window, moved, output_halfinst, copy_half, copy_source, with_block, copy_block,
  wrote_block, block_bytes,
}
use swift_xdelta.Window.Steps.{
  CopyReady, IsRoomy, Kept, StepOf, pending-size, pending-other, written, run_byte-StepOf,
  add_bytes-StepOf, copy_target-StepOf,
}

module _ (w : Window) (i : Hinst) (roomy : IsRoomy w) (fits : length w.out + i.size ≤ w.space_out)
    (some_type : i.type ≢ xd3_noop) where
  -- A part of a copy from the source, of fewer bytes than it has left.
  part :
      (s : Source) (bs : List ℕ) (n : ℕ)
      → IsSource s
      → s.blksize ≡ w.src.blksize
      → length bs ≡ n
      → 0 < n
      → n < i.size
      → i.addr < w.cpylen
      → (i.addr + i.size) % usize_mod ≤ w.cpylen
      → StepOf w i (
          moved (
            record w { src = s; out = w.out ++ bs },
            record i { size = i.size - n; addr = (i.addr + n) % usize_mod },
          ))
  unfolding StepOf
  part s bs n hs same len pos less inside within =
      let longer = length-append w.out bs in
      let no_wrap : (i.addr + i.size) % usize_mod ≡ i.addr + i.size = omega (arith, roomy.fits) in
      let no_wrap' : (i.addr + n) % usize_mod ≡ i.addr + n = omega (arith, roomy.fits) in
      (
        record {
          roomy = record {
            room = omega (arith, len, longer);
            fits = roomy.fits;
            blocks = omega (arith, roomy.blocks, same);
            source = hs;
          };
          ready = λ c. (omega (arith, no_wrap', longer), λ lt. omega (arith, no_wrap, no_wrap'));
          total = omega (
            arith,
            len,
            longer,
            pending-size w i roomy fits some_type,
            pending-other (record i { size = i.size - n; addr = (i.addr + n) % usize_mod })
                some_type,
          );
          frame = record {
            inst_sect = refl;
            acache = refl;
            position = refl;
            cpylen = refl;
            tgtlen = refl;
            space_out = refl;
            current1 = refl;
            current2 = refl;
          };
        },
        inr (omega arith),
      )

  block_bytes-some :
      (c : Option (List ℕ)) (bs : List ℕ) (from n : ℕ)
      → c ≡ some bs
      → from + n ≤ length bs
      → (part : List ℕ) × (block_bytes c from n ≡ some part) × (length part ≡ n)
  unfolding block_bytes
  block_bytes-some none bs from n e h = cc
  block_bytes-some (some cs) bs from n e h =
      let same : cs ≡ bs = cc in
      let inside : from + n ≤ length cs = rw same h in
      (
        take n (drop from cs),
        ground arith,
        length-take n (drop from cs) (omega (arith, length-drop from cs)),
      )

  copy_block-StepOf :
      (s : Source) (blkoff : ℕ)
      → IsSource s
      → s.blksize ≡ w.src.blksize
      → HasBlock s.curblk s.onblk s.blksize
      → blkoff < s.blksize
      → i.addr < w.cpylen
      → (i.addr + i.size) % usize_mod ≤ w.cpylen
      → StepOf w i (copy_block (record w { src = s }) i s blkoff)
  unfolding copy_block wrote_block
  copy_block-StepOf s blkoff hs same (bs, cur, has, small) off inside within =
      let no_wrap : (blkoff + i.size) % usize_mod ≡ blkoff + i.size = omega (arith, roomy.blocks) in
      rw no_wrap (elim (Bool-cases (not (s.onblk == s.blksize) && ltb s.onblk (blkoff + i.size))) [
        | inl short ↦ rw short (unfold StepOf in tt)
        | inr enough ↦ elim (Bool-cases (leb (blkoff + i.size) s.blksize)) [
          | inl whole ↦
              let (p, e, len) = block_bytes-some s.curblk bs blkoff i.size cur (ground arith) in
              rw (enough, whole, e)
                (written w i roomy fits some_type (w.out ++ p) w.data_sect s _ refl hs same
                  (omega (arith, len, length-append w.out p)))
          | inr more ↦
              let (p, e, len) =
                block_bytes-some s.curblk bs blkoff (s.blksize - blkoff) cur (ground arith) in
              rw (enough, more, e)
                (part s p (s.blksize - blkoff) hs same len (omega arith) (ground arith) inside
                  within)
        ]
      ])

  suspended-Kept :
      (s : Source)
      → IsSource s
      → s.blksize ≡ w.src.blksize
      → CopyReady w.cpylen (w.cpylen + length w.out) i
      → Kept w i (record w { src = s }) i
  suspended-Kept s hs same ready = record {
    roomy = record {
      room = roomy.room;
      fits = roomy.fits;
      blocks = omega (arith, roomy.blocks, same);
      source = hs;
    };
    ready = ready;
    total = refl;
    frame = record {
      inst_sect = refl;
      acache = refl;
      position = refl;
      cpylen = refl;
      tgtlen = refl;
      space_out = refl;
      current1 = refl;
      current2 = refl;
    };
  }

  with_block-StepOf :
      (blkoff : ℕ) (r : Result (Unit {0}) × Source)
      → Answered w.src r
      → blkoff < w.src.blksize
      → CopyReady w.cpylen (w.cpylen + length w.out) i
      → xd3_cpy ≤ i.type
      → i.addr < w.cpylen
      → StepOf w i (with_block w i blkoff r)
  unfolding with_block StepOf
  with_block-StepOf blkoff (err toofarback, s) (hs, same) off ready cpy inside =
      suspended-Kept s hs same ready
  with_block-StepOf blkoff (err e, s) (hs, same) off ready cpy inside =
      suspended-Kept s hs same ready
  with_block-StepOf blkoff (ok u, s) (hs, same, has) off ready cpy inside =
      copy_block-StepOf s blkoff hs same has (omega arith) inside ((ready cpy).1 inside)

  copy_half-StepOf :
      (client : Option Getblk)
      → IsClient client
      → CopyReady w.cpylen (w.cpylen + length w.out) i
      → xd3_cpy ≤ i.type
      → StepOf w i (copy_half client w i)
  unfolding copy_half copy_source
  copy_half-StepOf client hc ready cpy = elim (Bool-cases (ltb i.addr w.cpylen)) [
    | inl inside ↦
        let at = blksize_add w.src.cpyoff_blocks w.src.cpyoff_blkoff w.src i.addr in
        rw inside (
          if_both (StepOf w i) w.copies_target _ _ (unfold StepOf in tt) (
            with_block-StepOf at.1 (getblk client w.src at.0)
              (getblk-Answered client w.src at.0 hc roomy.source)
              (blksize_add-lt w.src.cpyoff_blocks w.src.cpyoff_blkoff w.src i.addr roomy.source)
              ready cpy (ground arith)))
    | inr here ↦ rw here (copy_target-StepOf w i roomy fits some_type (ready cpy).0 (ground arith))
  ]

-- For a client that keeps its contract, a window whose output fits its buffer, and a half that is no
-- NOOP and whose copy, if it is one, is ready at the output's end: a turn never reads memory that
-- nothing has written. Where it does not fail, the output still fits, what is written and what is
-- still to write stay the same in sum, a copy that is not done is ready again, and the sections of
-- instructions, the position and the other half are left alone. Where it is not waiting for a source
-- block, the half is done or has fewer bytes left.
pub output_halfinst-StepOf :
    (client : Option Getblk) (w : Window) (i : Hinst)
    → IsClient client
    → IsRoomy w
    → CopyReady w.cpylen (w.cpylen + length w.out) i
    → i.type ≢ xd3_noop
    → StepOf w i (output_halfinst client w i)
unfolding output_halfinst
output_halfinst-StepOf client w i hc roomy ready some_type =
    elim (Bool-cases
      (ltb (usize_mod - 1 - length w.out) i.size || ltb w.space_out (length w.out + i.size))) [
        | inl over ↦ rw over (unfold StepOf in tt)
        | inr fits ↦
            let fits' : length w.out + i.size ≤ w.space_out = ground arith in
            rw fits (elim (Bool-cases (i.type == xd3_run)) [
              | inl run ↦ rw run (run_byte-StepOf w i roomy fits' some_type w.data_sect)
              | inr other ↦ rw other (elim (Bool-cases (i.type == xd3_add)) [
                | inl add ↦ rw add (add_bytes-StepOf w i roomy fits' some_type)
                | inr copy ↦
                    rw copy
                      (copy_half-StepOf w i roomy fits' some_type client hc ready (ground arith))
              ])
            ])
      ]
