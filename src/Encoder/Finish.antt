-- ===== src/Encoder/Finish.antt =====
-- xd3_iopt_finish_encoding keeps what the encoder has written in step with the decoder.
use swift_xdelta.Prelude.{
  ℕ, ◌+◌, ◌%◌, ◌≤◌, ◌≡◌, refl, sym, ap, ◌∙◌, arith, inl, inr, true, false, Option, none, some, List,
  [], ◌∷◌, ◌++◌, append-nil, length, ◌==◌, ok, Option-cases,
}
use swift_xdelta.Sink.{Sect, Sink}
use swift_xdelta.AddrCache.{usize_mod, Cache}
use swift_xdelta.CodeTable.{Rinst, single, choose_instruction}
use swift_xdelta.CodeTable.Entries.{entry, immediate}
use swift_xdelta.CodeTable.Choice.{
  IsInst, PrevCoded, unpaired, paired, choose_instruction-PrevCoded, choose_instruction-none,
}
use swift_xdelta.Source.{Getblk}
use swift_xdelta.Window.{Hinst, Window}
use swift_xdelta.Encoder.{
  Encoder, emit_single, emit_double, free_nonadd, queue, queue_single, queue_double,
}
use swift_xdelta.Encoder.Halves.{IsFor}
use swift_xdelta.Encoder.Operands.{chained, Written}
use swift_xdelta.Encoder.Codes.{emit_single-Coded, emit_double-Coded}
use swift_xdelta.Encoder.Queue.{Held, Told, Told-single, Told-double, Inv}

module _ (k : Sink) (client : Option Getblk) (b : Window) (bs : List ℕ) (c0 : Cache)
    (g1 g2 : Hinst) where
  pub Told-same :
      {i i' d d' a a' : List ℕ} {c c' : Cache} {q q' : ℕ}
      → i' ≡ i
      → d' ≡ d
      → a' ≡ a
      → c' ≡ c
      → q' ≡ q
      → Told k client b bs c0 g1 g2 i d a c q
      → Told k client b bs c0 g1 g2 i' d' a' c' q'
  Told-same ei ed ea ec eq t = rw (ei, ed, ea, ec, eq) t

  module _ (base : IsFor bs b) (n : ℕ) (e : Encoder k) (inv : Inv k client b bs c0 g1 g2 n e)
      (inst r : Rinst) (e1 : Encoder k) (w : Written k client b bs e inst e1 r)
      (at : r.pos ≡ e.unencoded_offset) (fits : r.pos + r.size ≤ length bs)
      (some_size : 1 ≤ r.size) where
    abbrev moved_on : Encoder k
    moved_on = record e1 { unencoded_offset = (e1.unencoded_offset + r.size) % usize_mod }

    abbrev chosen : ℕ → Rinst
    chosen code = record r { code1 = code; code2 = 0 }

    off : (e1.unencoded_offset + r.size) % usize_mod ≡ r.pos + r.size
    off = omega (arith, w.still.unencoded_offset, base.word)

    -- The instruction as it is left in `iout`.
    held :
        (code : ℕ)
        → entry code ≡ single r.type (immediate r.type r.size)
        → Held k client b bs c0 g1 g2
            (chosen code)
            r.pos
            ((e1.unencoded_offset + r.size) % usize_mod)
            w.pd
            w.pa
            e.acache
            e1.acache
    held code is = record {
      half = w.half;
      real = record { real = w.real.real; known = w.real.known };
      some_size = some_size;
      single_code = refl;
      coded = is;
      at = refl;
      to = off;
    }

    -- No instruction was waiting.
    after_none :
        (x : Option Rinst × Rinst) (code : ℕ)
        → e.iout ≡ none
        → x.0 ≡ none
        → x.1 ≡ chosen code
        → entry code ≡ single r.type (immediate r.type r.size)
        → Inv k client b bs c0 g1 g2 (r.pos + r.size) (queue moved_on x).1
    unfolding queue
    after_none (some p, i) code empty e0 e1' is = cc
    after_none (none, i) code empty e0 e1' is =
        let (eq, epd, epa, ec) = rw empty at inv.pending in
        record {
          ready = record {
            valid = w.ready.valid;
            cache = w.ready.cache;
            near = w.ready.near;
            same = w.ready.same;
            settled = w.ready.settled;
            input = w.ready.input;
            offset = w.ready.offset;
          };
          q = r.pos;
          cache = e.acache;
          d = k.holds e.out Sect.adds;
          a = k.holds e.out Sect.addr;
          pd = w.pd;
          pa = w.pa;
          pending = rw e1' (held code is);
          adds = w.adds;
          addr = w.addr;
          told =
              Told-same w.inst_sect (inv.adds ∙ ap (λ t. inv.d ++ t) epd ∙ append-nil inv.d)
                (inv.addr ∙ ap (λ t. inv.a ++ t) epa ∙ append-nil inv.a) (sym ec) (at ∙ sym eq)
                inv.told;
          offset = off;
          bound = fits;
        }

    -- The code of the instruction that was waiting is written alone.
    after_single :
        (p i : Rinst) (code : ℕ)
        → e.iout ≡ some p
        → i ≡ chosen code
        → entry code ≡ single r.type (immediate r.type r.size)
        → (queue_single (record moved_on { iout = some p }) p i).0 ≡ ok tt
        → Inv k client b bs c0 g1 g2
            (r.pos + r.size)
            (queue_single (record moved_on { iout = some p }) p i).1
    unfolding queue_single free_nonadd
    after_single p i code waits e1' is done =
        let h = rw waits at inv.pending in
        let word = base.word in
        let to = h.to in
        let c = chained (emit_single (record moved_on { iout = some p }) p p.code1) _ tt done in
        let (sz, sized, x) =
          emit_single-Coded k (record moved_on { iout = some p }) p p.code1 w.ready.valid
            (omega arith) h.some_size h.coded c.first in
        rw (c.whole, x.made)
          (record {
            ready = record {
              valid = x.keeps.valid;
              cache = w.ready.cache;
              near = w.ready.near;
              same = w.ready.same;
              settled = w.ready.settled;
              input = w.ready.input;
              offset = w.ready.offset;
            };
            q = r.pos;
            cache = e.acache;
            d = k.holds e.out Sect.adds;
            a = k.holds e.out Sect.addr;
            pd = w.pd;
            pa = w.pa;
            pending = rw e1' (held code is);
            adds = x.keeps.other Sect.adds (λ e. cc) ∙ w.adds;
            addr = x.keeps.other Sect.addr (λ e. cc) ∙ w.addr;
            told =
                Told-same (x.wrote ∙ ap (λ t. t ++ (p.code1 ∷ sz)) w.inst_sect) inv.adds inv.addr
                  refl (omega (arith, h.at))
                  (Told-single k client b bs c0 g1 g2 p.code1 inv.told (rw h.at h.half)
                    (omega (arith, h.real.real)) (omega arith) sized h.coded);
            offset = off;
            bound = fits;
          })

    -- The two have a code of their own.
    after_double :
        (p i : Rinst) (code : ℕ)
        → e.iout ≡ some p
        → entry code ≡ record { type1 = p.type; size1 = p.size; type2 = r.type; size2 = r.size }
        → (queue_double
            (record moved_on { iout = some (record p { code2 = code }) })
            (record p { code2 = code })
            i).0
          ≡ ok tt
        → Inv k client b bs c0 g1 g2
            (r.pos + r.size)
            (queue_double
              (record moved_on { iout = some (record p { code2 = code }) })
              (record p { code2 = code })
              i).1
    unfolding queue_double free_nonadd
    after_double p i code waits is done =
        let h = rw waits at inv.pending in
        let word = base.word in
        let to = h.to in
        let p' : Rinst = record p { code2 = code } in
        let c = chained (emit_double (record moved_on { iout = some p' }) code) _ tt done in
        let x =
          emit_double-Coded k (record moved_on { iout = some p' }) code w.ready.valid c.first in
        let next : r.pos ≡ inv.q + p.size = omega (arith, h.at) in
        rw (c.whole, x.made)
          (record {
            ready = record {
              valid = x.keeps.valid;
              cache = w.ready.cache;
              near = w.ready.near;
              same = w.ready.same;
              settled = w.ready.settled;
              input = w.ready.input;
              offset = w.ready.offset;
            };
            q = r.pos + r.size;
            cache = e1.acache;
            d = k.holds e.out Sect.adds ++ w.pd;
            a = k.holds e.out Sect.addr ++ w.pa;
            pd = [];
            pa = [];
            pending = (sym off, refl, refl, refl);
            adds = x.keeps.other Sect.adds (λ e. cc) ∙ w.adds ∙ sym (append-nil _);
            addr = x.keeps.other Sect.addr (λ e. cc) ∙ w.addr ∙ sym (append-nil _);
            told =
                Told-same (x.wrote ∙ ap (λ t. t ++ (code ∷ [])) w.inst_sect)
                  (ap (λ t. t ++ w.pd) inv.adds) (ap (λ t. t ++ w.pa) inv.addr) refl
                  (ap (λ t. t + r.size) next)
                  (Told-double k client b bs c0 g1 g2 code inv.told (rw (sym h.at) at h.half)
                    (rw next at w.half) (omega (arith, h.real.real)) (omega (arith, w.real.real))
                    h.some_size some_size (omega arith) (omega arith) is);
            offset = off;
            bound = fits;
          })

    queued :
        (p : Rinst) (x : Option Rinst × Rinst) (code : ℕ)
        → e.iout ≡ some p
        → p.code2 ≡ 0
        → PrevCoded p (chosen r.code1) x.0
        → x.1 ≡ chosen code
        → entry code ≡ single r.type (immediate r.type r.size)
        → (queue moved_on x).0 ≡ ok tt
        → Inv k client b bs c0 g1 g2 (r.pos + r.size) (queue moved_on x).1
    unfolding queue
    queued p (_, i) code waits none_yet unpaired e1' is done =
        let alone : (p.code2 == 0) ≡ true = ground arith in
        rw alone (after_single p i code waits e1' is (rw alone at done))
    queued p (_, i) code waits none_yet (paired both large both_is) e1' is done =
        let some_code : (both == 0) ≡ false = ground arith in
        rw some_code (after_double p i both waits both_is (rw some_code at done))

    pub chosen-Inv :
        (queue moved_on (choose_instruction e1.iout (chosen r.code1))).0 ≡ ok tt
        → Inv k client b bs c0 g1 g2
            (r.pos + r.size)
            (queue moved_on (choose_instruction e1.iout (chosen r.code1))).1
    chosen-Inv done =
        let i0 = chosen r.code1 in
        let real : IsInst i0 = record { real = w.real.real; known = w.real.known } in
        let x = choose_instruction e1.iout i0 in
        elim (Option-cases e.iout) [
          | inl empty ↦
              let o = w.still.iout ∙ empty in
              let (f0, f1, f2) = choose_instruction-none i0 real in
              after_none x _ empty (ap (λ t. (choose_instruction t i0).0) o ∙ f0)
                (ap (λ t. (choose_instruction t i0).1) o ∙ f1) f2
          | inr (p, waits) ↦
              let o = w.still.iout ∙ waits in
              let h = rw waits at inv.pending in
              let (f0, f1, f2) = choose_instruction-PrevCoded p i0 h.real real h.some_size in
              queued p x _ waits h.single_code (rw o f0)
                (ap (λ t. (choose_instruction t i0).1) o ∙ f1) f2 done
        ]
