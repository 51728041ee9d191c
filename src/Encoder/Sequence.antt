-- ===== src/Encoder/Sequence.antt =====
-- The encoder's calls one after another: xd3_iopt_add, xd3_iopt_add_encoding, the second loop of
-- xd3_iopt_flush_instructions and xd3_iopt_add_finalize keep the invariant.
use swift_xdelta.Prelude.{
  ℕ, ◌+◌, ◌-◌, ◌≤◌, ◌≡◌, refl, sym, ap, ◌∙◌, arith, ◌⊎◌, inl, inr, Bool-cases, true, Option, none,
  some, List, [], ◌∷◌, ◌++◌, append-nil, length, ltb, ok,
}
use swift_xdelta.Sink.{Sect, Sink}
use swift_xdelta.AddrCache.{Cache}
use swift_xdelta.CodeTable.{Rinst, xd3_add}
use swift_xdelta.Source.{Getblk}
use swift_xdelta.Window.{Hinst, Window}
use swift_xdelta.Encoder.{
  Encoder, ◌>>>◌, put_operands, finish_encoding, iopt_add, add_encoding, flush_iout, emit_single,
  free_nonadd, add_finalize,
}
use swift_xdelta.Encoder.Matches.{IsMatch}
use swift_xdelta.Encoder.Halves.{IsFor}
use swift_xdelta.Encoder.Operands.{chained}
use swift_xdelta.Encoder.Copies.{put_operands-Written}
use swift_xdelta.Encoder.Codes.{emit_single-Coded}
use swift_xdelta.Encoder.Queue.{Inv, Told, Told-single}
use swift_xdelta.Encoder.Finish.{chosen-Inv, Told-same}
use swift_xdelta.Encoder.Buffer.{flush_loop}

-- Matches in order, none of which overlaps the one before: the first starts at `n` or behind it.
abbrev pub Follows : List ℕ → ℕ → List Rinst → Type 0
Follows bs n [] = Unit
Follows bs n (i ∷ is) = IsMatch bs i × (n ≤ i.pos) × Follows bs (i.pos + i.size) is

module _ (k : Sink) (client : Option Getblk) (b : Window) (bs : List ℕ) (c0 : Cache) (g1 g2 : Hinst)
    (base : IsFor bs b) where
  abbrev In : ℕ → Encoder k → Type 0
  In n e = Inv k client b bs c0 g1 g2 n e

  pub finish_encoding-Inv :
      (n : ℕ) (e : Encoder k) (inst : Rinst)
      → In n e
      → IsMatch bs inst ⊎ ((inst.type ≡ xd3_add) × (inst.pos + inst.size ≤ length bs))
      → inst.pos ≡ n
      → 1 ≤ inst.size
      → inst.pos + inst.size ≤ length bs
      → (finish_encoding e inst).0 ≡ ok tt
      → In (inst.pos + inst.size) (finish_encoding e inst).1
  unfolding finish_encoding
  finish_encoding-Inv n e inst inv kind at some_size fits done =
      let c = chained (put_operands e inst) _ tt done in
      let w = put_operands-Written k client b bs e inst c.value base inv.ready c.first kind in
      let size = w.size in
      let pos = w.pos in
      let to : inst.pos + inst.size ≡ c.value.pos + c.value.size = omega arith in
      rw (c.whole, to)
        (chosen-Inv k client b bs c0 g1 g2 base n e inv inst c.value _ w (omega (arith, inv.offset))
          (omega arith) (omega arith) c.rest)

  pub iopt_add-Inv :
      (n pos : ℕ) (e : Encoder k) (iadd : Rinst)
      → In n e
      → n ≤ pos
      → pos ≤ length bs
      → (iopt_add e pos iadd).0 ≡ ok tt
      → In pos (iopt_add e pos iadd).1
  unfolding iopt_add
  iopt_add-Inv n pos e iadd inv before fits done =
      let at = inv.offset in
      elim (Bool-cases (ltb e.unencoded_offset pos)) [
        | inl gap ↦
            let to : e.unencoded_offset + (pos - e.unencoded_offset) ≡ pos = omega arith in
            let add : Rinst = record iadd {
              type = xd3_add;
              pos = e.unencoded_offset;
              size = pos - e.unencoded_offset;
            } in
            rw gap (
              rw to at (
                finish_encoding-Inv n e add inv (inr (refl, omega arith)) (omega arith)
                  (ground arith) (omega arith) (rw gap at done)))
        | inr no_gap ↦ let same : pos ≡ n = ground arith in rw no_gap (rw same inv)
      ]

  pub add_encoding-Inv :
      (n : ℕ) (e : Encoder k) (iadd inst : Rinst)
      → In n e
      → IsMatch bs inst
      → n ≤ inst.pos
      → (add_encoding e iadd inst).0 ≡ ok tt
      → In (inst.pos + inst.size) (add_encoding e iadd inst).1
  unfolding add_encoding
  add_encoding-Inv n e iadd inst inv m before done =
      let inside = m.inside in
      let c = chained (iopt_add e inst.pos iadd) _ tt done in
      let inv' = iopt_add-Inv n inst.pos e iadd inv before (omega arith) c.first in
      rw c.whole (finish_encoding-Inv inst.pos _ inst inv' (inl m) refl m.some_size inside c.rest)

  -- The lists of the buffer do not matter.
  pub Inv-lists :
      (n : ℕ) (e : Encoder k) (used free : List Rinst)
      → In n e
      → In n (record e { iopt_used = used; iopt_free = free })
  Inv-lists n e used free inv =
      let r = inv.ready in
      record {
        ready = record {
          valid = r.valid;
          cache = r.cache;
          near = r.near;
          same = r.same;
          settled = r.settled;
          input = r.input;
          offset = r.offset;
        };
        q = inv.q;
        cache = inv.cache;
        d = inv.d;
        a = inv.a;
        pd = inv.pd;
        pa = inv.pa;
        pending = inv.pending;
        adds = inv.adds;
        addr = inv.addr;
        told = inv.told;
        offset = inv.offset;
        bound = inv.bound;
      }

  pub flush_loop-Inv :
      (used : List Rinst) (flushed n : ℕ) (e : Encoder k) (iadd : Rinst)
      → In n e
      → Follows bs n used
      → (flush_loop true iadd flushed e used).0 ≡ ok tt
      → (m : ℕ) × In m (flush_loop true iadd flushed e used).1
  unfolding flush_loop
  flush_loop-Inv [] flushed n e iadd inv f done = (n, inv)
  flush_loop-Inv (i ∷ is) flushed n e iadd inv (m, before, f) done =
      let e' : Encoder k = record e { iopt_used = is } in
      let c = chained (add_encoding e' iadd i) _ tt done in
      rw c.whole (
        flush_loop-Inv is (flushed + 1) (i.pos + i.size) _ iadd
          (add_encoding-Inv n e' iadd i (Inv-lists n e is e.iopt_free inv) m before c.first) f
          c.rest)

  -- All of the target is written, with no instruction waiting.
  pub record Told-all (e : Encoder k) : Type 0 where
    pub cache : Cache
    pub told :
        Told k client b bs c0 g1 g2
          (k.holds e.out Sect.inst)
          (k.holds e.out Sect.adds)
          (k.holds e.out Sect.addr)
          cache
          (length bs)

  flush_iout-Told :
      (e : Encoder k) (o : Option Rinst)
      → In (length bs) e
      → e.iout ≡ o
      → (flush_iout e o).0 ≡ ok tt
      → Told-all (flush_iout e o).1
  unfolding flush_iout free_nonadd
  flush_iout-Told e none inv empty done =
      let (eq, epd, epa, ec) = rw empty at inv.pending in
      record {
        cache = inv.cache;
        told =
            Told-same k client b bs c0 g1 g2 refl
              (inv.adds ∙ ap (λ t. inv.d ++ t) epd ∙ append-nil inv.d)
              (inv.addr ∙ ap (λ t. inv.a ++ t) epa ∙ append-nil inv.a) refl (sym (eq ∙ inv.offset))
              inv.told;
      }
  flush_iout-Told e (some p) inv waits done =
      let h = rw waits at inv.pending in
      let word = base.word in
      let to = h.to in
      let offset = inv.offset in
      let c = chained (emit_single e p p.code1) _ tt done in
      let (sz, sized, x) =
        emit_single-Coded k e p p.code1 inv.ready.valid (omega arith) h.some_size h.coded c.first in
      rw (c.whole, x.made)
        (record {
          cache = e.acache;
          told =
              Told-same k client b bs c0 g1 g2 x.wrote
                (x.keeps.other Sect.adds (λ e. cc) ∙ inv.adds)
                (x.keeps.other Sect.addr (λ e. cc) ∙ inv.addr) refl (omega (arith, h.at))
                (Told-single k client b bs c0 g1 g2 p.code1 inv.told (rw h.at h.half)
                  (omega (arith, h.real.real)) (omega arith) sized h.coded);
        })

  add_finalize-Told :
      (n : ℕ) (e : Encoder k) (iadd : Rinst)
      → In n e
      → (add_finalize e iadd).0 ≡ ok tt
      → Told-all (add_finalize e iadd).1
  unfolding add_finalize
  add_finalize-Told n e iadd inv done =
      let c = chained (iopt_add e (length e.next_in) iadd) _ tt done in
      let len : length e.next_in ≡ length bs = ap length inv.ready.input in
      let inv' =
        iopt_add-Inv n (length bs) e iadd inv inv.bound (omega arith) (rw len at c.first) in
      rw (c.whole, len) (flush_iout-Told _ _ inv' refl (rw len at c.rest))

  pub flushed-Told :
      (n : ℕ) (e : Encoder k) (used free : List Rinst) (iadd : Rinst)
      → In n e
      → Follows bs n used
      → (flush_loop true iadd 0 (record e { iopt_used = used; iopt_free = free }) used >>> λ u e.
          add_finalize e iadd).0
        ≡ ok tt
      → Told-all
          (flush_loop true iadd 0 (record e { iopt_used = used; iopt_free = free }) used >>> λ u e.
            add_finalize e iadd).1
  flushed-Told n e used free iadd inv f done =
      let c =
        chained (flush_loop true iadd 0 (record e { iopt_used = used; iopt_free = free }) used) _ tt
          done in
      let (m, inv') = flush_loop-Inv used 0 n _ iadd (Inv-lists n e used free inv) f c.first in
      rw c.whole (add_finalize-Told m _ iadd inv' c.rest)
