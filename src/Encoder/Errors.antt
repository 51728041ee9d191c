-- ===== src/Encoder/Errors.antt =====
-- The encoder's instructions fail only where the output sections do.
use swift_xdelta.Prelude.{
  ℕ, ◌+◌, ◌≤◌, ◌<◌, ◌≡◌, refl, ap, ◌∙◌, arith, ◌⊎◌, inl, inr, true, Bool-cases, Option, none, some,
  Option-cases, List, [], ◌∷◌, length, ltb, Rvalue, ErrAll,
}
use swift_xdelta.Integer.{xoff_mod}
use swift_xdelta.Sink.{Sink, FailsWith}
use swift_xdelta.AddrCache.{Cache}
use swift_xdelta.CodeTable.{Rinst, xd3_add, choose_instruction}
use swift_xdelta.Source.{Getblk}
use swift_xdelta.Window.{Hinst, Window}
use swift_xdelta.Encoder.{
  Encoder, ◌>>>◌, emit_single, put_operands, finish_encoding, iopt_add, add_encoding, flush_iout,
  add_finalize,
}
use swift_xdelta.Encoder.Buffer.{flush_loop, flush_instructions, encode_instr, compact_used}
use swift_xdelta.Encoder.Matches.{IsMatch}
use swift_xdelta.Encoder.Halves.{IsFor}
use swift_xdelta.Encoder.Copies.{put_operands-Written}
use swift_xdelta.Encoder.Queue.{Inv}
use swift_xdelta.Encoder.Sequence.{
  Follows, iopt_add-Inv, add_encoding-Inv, Inv-lists, flush_loop-Inv,
}
use swift_xdelta.CodeTable.Choice.{IsInst, choose_instruction-PrevCoded, choose_instruction-none}
use swift_xdelta.Encoder.Compact.{compact_used-Follows}
use swift_xdelta.Encoder.Cuts.{AreOrdered}
use swift_xdelta.Encoder.RoundTrip.{Asks, IsStart, Inv-start, AllBehind-zero}
use swift_xdelta.Encoder.Writes.{
  prev-size, chain-ErrAll, emit_single-ErrAll, queue-ErrAll, put_operands-ErrAll,
}

module _ (k : Sink) (P : Rvalue → Type 0) (fails : FailsWith k P) (client : Option Getblk)
    (b : Window) (bs : List ℕ) (base : IsFor bs b) (c0 : Cache) (g1 g2 : Hinst) where
  abbrev In : ℕ → Encoder k → Type 0
  In n e = Inv k client b bs c0 g1 g2 n e

  finish_encoding-ErrAll :
      (n : ℕ) (e : Encoder k) (inst : Rinst)
      → In n e
      → IsMatch bs inst ⊎ ((inst.type ≡ xd3_add) × (inst.pos + inst.size ≤ length bs))
      → ErrAll P (finish_encoding e inst).0
  unfolding finish_encoding
  finish_encoding-ErrAll n e inst inv kind =
      chain-ErrAll k P fails (put_operands e inst) _
        (put_operands-ErrAll k P fails client b bs base e inst inv.ready kind)
        λ r done.
          let w = put_operands-Written k client b bs e inst r base inv.ready done kind in
          let e1 = (put_operands e inst).1 in
          let i0 : Rinst = record r { code2 = 0 } in
          let real : IsInst i0 = record { real = w.real.real; known = w.real.known } in
          queue-ErrAll k P fails _ (choose_instruction e1.iout i0) w.ready.valid λ p is.
            elim (Option-cases e.iout) [
              | inl empty ↦
                  let (f0, f1, f2) = choose_instruction-none i0 real in
                  let o = ap (λ t. (choose_instruction t i0).0) (w.still.iout ∙ empty) ∙ f0 in cc
              | inr (p0, waits) ↦
                  let h = rw waits at inv.pending in
                  let (f0, f1, f2) = choose_instruction-PrevCoded p0 i0 h.real real h.some_size in
                  let same = prev-size p0 i0 p _ (rw (w.still.iout ∙ waits) f0) is in
                  omega (arith, h.to, inv.offset, inv.bound, base.word)
            ]

  iopt_add-ErrAll :
      (n pos : ℕ) (e : Encoder k) (iadd : Rinst)
      → In n e
      → pos ≤ length bs
      → ErrAll P (iopt_add e pos iadd).0
  unfolding iopt_add
  iopt_add-ErrAll n pos e iadd inv fits = elim (Bool-cases (ltb e.unencoded_offset pos)) [
    | inl gap ↦
        let l : e.unencoded_offset < pos = ground arith in
        rw gap (finish_encoding-ErrAll n e _ inv (inr (refl, omega arith)))
    | inr no_gap ↦ rw no_gap tt
  ]

  add_encoding-ErrAll :
      (n : ℕ) (e : Encoder k) (iadd inst : Rinst)
      → In n e
      → IsMatch bs inst
      → n ≤ inst.pos
      → ErrAll P (add_encoding e iadd inst).0
  unfolding add_encoding
  add_encoding-ErrAll n e iadd inst inv m before =
      let inside = m.inside in
      chain-ErrAll k P fails (iopt_add e inst.pos iadd) _
        (iopt_add-ErrAll n inst.pos e iadd inv (omega arith))
        λ u done.
          finish_encoding-ErrAll inst.pos _ inst
            (iopt_add-Inv k client b bs c0 g1 g2 base n inst.pos e iadd inv before (omega arith)
              done)
            (inl m)

  flush_loop-ErrAll :
      (used : List Rinst) (flushed n : ℕ) (e : Encoder k) (iadd : Rinst)
      → In n e
      → Follows bs n used
      → ErrAll P (flush_loop true iadd flushed e used).0
  unfolding flush_loop
  flush_loop-ErrAll [] flushed n e iadd inv f = tt
  flush_loop-ErrAll (i ∷ is) flushed n e iadd inv (m, before, f) =
      let e' : Encoder k = record e { iopt_used = is } in
      let inv' = Inv-lists k client b bs c0 g1 g2 base n e is e.iopt_free inv in
      chain-ErrAll k P fails (add_encoding e' iadd i) _
        (add_encoding-ErrAll n e' iadd i inv' m before)
        λ u done.
          flush_loop-ErrAll is (flushed + 1) (i.pos + i.size) _ iadd
            (add_encoding-Inv k client b bs c0 g1 g2 base n e' iadd i inv' m before done) f

  flush_iout-ErrAll :
      (n : ℕ) (e : Encoder k) (o : Option Rinst) → In n e → e.iout ≡ o → ErrAll P (flush_iout e o).0
  unfolding flush_iout
  flush_iout-ErrAll n e none inv empty = tt
  flush_iout-ErrAll n e (some p) inv waits =
      let h = rw waits at inv.pending in
      chain-ErrAll k P fails (emit_single e p p.code1) _
        (emit_single-ErrAll k P fails e p p.code1 inv.ready.valid
          (omega (arith, h.to, inv.offset, inv.bound, base.word)))
        λ u done. tt

  add_finalize-ErrAll :
      (n : ℕ) (e : Encoder k) (iadd : Rinst) → In n e → ErrAll P (add_finalize e iadd).0
  unfolding add_finalize
  add_finalize-ErrAll n e iadd inv =
      let len : length e.next_in ≡ length bs = ap length inv.ready.input in
      chain-ErrAll k P fails (iopt_add e (length e.next_in) iadd) _
        (iopt_add-ErrAll n (length e.next_in) e iadd inv (omega arith))
        λ u done.
          flush_iout-ErrAll (length e.next_in) _ _
            (iopt_add-Inv k client b bs c0 g1 g2 base n (length e.next_in) e iadd inv
              (omega (arith, inv.bound)) (omega arith) done)
            refl

  pub flushed-ErrAll :
      (n : ℕ) (e : Encoder k) (used free : List Rinst) (iadd : Rinst)
      → In n e
      → Follows bs n used
      → ErrAll P
          (flush_loop true iadd 0 (record e { iopt_used = used; iopt_free = free }) used >>> λ u e.
            add_finalize e iadd).0
  flushed-ErrAll n e used free iadd inv f =
      let e' : Encoder k = record e { iopt_used = used; iopt_free = free } in
      let inv' = Inv-lists k client b bs c0 g1 g2 base n e used free inv in
      chain-ErrAll k P fails (flush_loop true iadd 0 e' used) _
        (flush_loop-ErrAll used 0 n e' iadd inv' f)
        λ u done.
          let (m, inv2) = flush_loop-Inv k client b bs c0 g1 g2 base used 0 n e' iadd inv' f done in
          add_finalize-ErrAll m _ iadd inv2

-- An encoder as in the round trip, and an output whose calls fail, if they do, with codes of `P` only:
-- the state ENC_INSTR fails, if it does, with a code of `P`. So it ends with ENOMEM or without an
-- error over an output that fails with ENOMEM only, and without an error over one that never fails.
pub encode_instr-ErrAll :
    (k : Sink) (P : Rvalue → Type 0) (client : Option Getblk) (b : Window) (bs : List ℕ)
    (e : Encoder k) (iadd : Rinst)
    → FailsWith k P
    → Asks bs b
    → IsStart k client b bs e
    → length bs < xoff_mod
    → AreOrdered bs e.iopt_used
    → ErrAll P (encode_instr iadd e).0
unfolding encode_instr flush_instructions
encode_instr-ErrAll k P client b bs e iadd fails asks s small ordered =
    let (used, free) = compact_used true e.iopt_used e.iopt_free in
    flushed-ErrAll k P fails client b bs asks.for e.acache b.current1 b.current2 0 e used free iadd
      (Inv-start k client b bs asks e s)
      (compact_used-Follows bs 0 e.iopt_used e.iopt_free small ordered (AllBehind-zero e.iopt_used))
