-- ===== src/Encoder/Writes.antt =====
-- The operands and codes of an instruction fail to be written only where the output sections fail.
use swift_xdelta.Prelude.{
  ℕ, ◌+◌, ◌%◌, ◌≤◌, ◌<◌, ◌≡◌, refl, sym, ap, ◌∙◌, arith, ◌⊎◌, inl, inr, Bool-cases, Option, none,
  some, List, [], ◌∷◌, length, take, drop, if_both, ◌==◌, Rvalue, Result, ok, err, ErrAll,
}
use swift_xdelta.Sink.{Sect, Sink, FailsWith, emit-ErrAll, emit_size-ErrAll}
use swift_xdelta.AddrCache.{usize_mod}
use swift_xdelta.AddrCache.Sections.{encode_address-ErrAll}
use swift_xdelta.CodeTable.{Rinst, xd3_add, xd3_run, xd3_cpy}
use swift_xdelta.CodeTable.Entries.{entry}
use swift_xdelta.Source.{Getblk}
use swift_xdelta.Window.{Window}
use swift_xdelta.Encoder.{
  Encoder, Call, ◌>>>◌, put, put_size, with_out, with_type, with_address, emit_single, emit_double,
  copy_addr, put_copy, put_run, put_add, put_operands, queue, queue_single, queue_double,
}
use swift_xdelta.Encoder.Matches.{IsMatch}
use swift_xdelta.Encoder.Halves.{IsFor}
use swift_xdelta.Encoder.Operands.{Ready}
use swift_xdelta.Encoder.Copies.{copy_addr-Addressed, Ready-Still}
use swift_xdelta.CodeTable.Choice.{PrevCoded, unpaired, paired}

pub prev-size :
    (prev inst p : Rinst) (o : Option Rinst)
    → PrevCoded prev inst o
    → o ≡ some p
    → p.size ≡ prev.size
prev-size prev inst p _ unpaired e = let same : prev ≡ p = cc in ap (λ t. t.size) (sym same)
prev-size prev inst p _ (paired code large is) e =
    let same : record prev { code2 = code } ≡ p = cc in ap (λ t. t.size) (sym same)

module _ (k : Sink) (P : Rvalue → Type 0) (fails : FailsWith k P) where
  pub chain-ErrAll :
      {A B : Type 0} (m : Call k A) (f : A → Encoder k → Call k B)
      → ErrAll P m.0
      → ((a : A) → m.0 ≡ ok a → ErrAll P (f a m.1).0)
      → ErrAll P (m >>> f).0
  chain-ErrAll (err x, e) f h more = h
  chain-ErrAll (ok a, e) f h more = more a refl

  put-ErrAll : (e : Encoder k) (s : Sect) (bs : List ℕ) → k.IsValid e.out → ErrAll P (put e s bs).0
  unfolding put with_out
  put-ErrAll e s bs v = emit-ErrAll k P fails e.out s bs v

  pub emit_single-ErrAll :
      (e : Encoder k) (i : Rinst) (code : ℕ)
      → k.IsValid e.out
      → i.size < usize_mod
      → ErrAll P (emit_single e i code).0
  unfolding emit_single
  emit_single-ErrAll e i code v word =
      chain-ErrAll (put e Sect.inst (code ∷ [])) _ (put-ErrAll e Sect.inst (code ∷ []) v) λ u done.
        elim (Bool-cases ((entry code).size1 == 0)) [
          | inl sized ↦ rw sized (
              unfold put_size in
              unfold with_out in
              emit_size-ErrAll k P fails (put e Sect.inst (code ∷ [])).1.out Sect.inst i.size
                (unfold put in unfold with_out in k.emit_valid e.out Sect.inst (code ∷ []) v) word)
          | inr there ↦ rw there tt
        ]

  pub queue-ErrAll :
      (e : Encoder k) (x : Option Rinst × Rinst)
      → k.IsValid e.out
      → ((p : Rinst) → x.0 ≡ some p → p.size < usize_mod)
      → ErrAll P (queue e x).0
  unfolding queue queue_single queue_double emit_double
  queue-ErrAll e (none, i) v small = tt
  queue-ErrAll e (some p, i) v small =
      if_both {A = Call k (Unit {0})} (λ r. ErrAll P r.0) (p.code2 == 0) _ _
        (chain-ErrAll (emit_single (record e { iout = some p }) p p.code1) _
          (emit_single-ErrAll (record e { iout = some p }) p p.code1 v (small p refl)) λ u done. tt)
        (chain-ErrAll (put (record e { iout = some p }) Sect.inst (p.code2 ∷ [])) _
          (put-ErrAll (record e { iout = some p }) Sect.inst (p.code2 ∷ []) v) λ u done. tt)

  with_type-ErrAll :
      (inst : Rinst) (status : Result ℕ) → ErrAll P status → ErrAll P (with_type inst status)
  unfolding with_type
  with_type-ErrAll inst (err x) h = h
  with_type-ErrAll inst (ok m) h = tt

  module _ (client : Option Getblk) (b : Window) (bs : List ℕ) (base : IsFor bs b) where
    put_copy-ErrAll :
        (e : Encoder k) (inst : Rinst)
        → Ready k client b bs e
        → inst.pos + inst.size ≤ length bs
        → inst.addr < inst.pos
        → inst.xtra ≡ 0
        → ErrAll P (put_copy e inst).0
    unfolding put_copy with_address
    put_copy-ErrAll e inst h fits before here =
        let word = base.word in
        let offset = h.offset in
        let x = copy_addr-Addressed k client b bs e inst h.settled refl refl here (omega arith) in
        let e1 = (copy_addr e inst e.src).1 in
        let r = Ready-Still k client b bs e e1 h x.out x.cache x.still in
        let taroff = x.still.taroff in
        let val : (copy_addr e inst e.src).0 ≡ b.cpylen + inst.addr = x.val ∙ omega arith in
        let at : (inst.pos + e1.taroff) % usize_mod ≡ b.cpylen + inst.pos = omega arith in
        rw (val, at)
          (with_type-ErrAll inst _ (
            encode_address-ErrAll k P fails e1.out e1.acache (b.cpylen + inst.addr)
              (b.cpylen + inst.pos) inst.type r.valid r.cache (omega arith) (omega arith)))

    pub put_operands-ErrAll :
        (e : Encoder k) (inst : Rinst)
        → Ready k client b bs e
        → IsMatch bs inst ⊎ ((inst.type ≡ xd3_add) × (inst.pos + inst.size ≤ length bs))
        → ErrAll P (put_operands e inst).0
    unfolding put_operands put_run put_add
    put_operands-ErrAll e inst h kind = elim (Bool-cases (inst.type == xd3_cpy)) [
      | inl copy ↦ rw copy (elim kind [
        | inl m ↦ elim m.kind [
          | inl (type, before, here, repeats) ↦ put_copy-ErrAll e inst h m.inside before here
          | inr (type, run) ↦ absurd (ground arith)
        ]
        | inr (type, fits) ↦ absurd (ground arith)
      ])
      | inr other ↦ rw other (
          if_both {A = Call k Rinst} (λ r. ErrAll P r.0) (inst.type == xd3_run) (put_run e inst) _
            (chain-ErrAll (put e Sect.adds (inst.xtra ∷ [])) _
              (put-ErrAll e Sect.adds (inst.xtra ∷ []) h.valid) λ u done. tt)
            (if_both {A = Call k Rinst} (λ r. ErrAll P r.0) (inst.type == xd3_add) (put_add e inst)
              _
              (chain-ErrAll (put e Sect.adds (take inst.size (drop inst.pos e.next_in))) _
                (put-ErrAll e Sect.adds (take inst.size (drop inst.pos e.next_in)) h.valid)
                λ u done. tt)
              tt))
    ]
