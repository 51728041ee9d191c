-- ===== src/Encoder/Codes.antt =====
-- The instruction codes that xd3_emit_single and xd3_emit_double write.
use swift_xdelta.Prelude.{
  ℕ, ◌≤◌, ◌<◌, ◌≡◌, refl, sym, ap, ◌∙◌, arith, inl, inr, Bool-cases, some, List, [], ◌∷◌, ◌++◌,
  append_assoc, ◌==◌, ok,
}
use swift_xdelta.Integer.{encode_integer}
use swift_xdelta.Integer.RoundTrip.{encode_integer-Encodes}
use swift_xdelta.Sink.{Sect, Sink, Keeps, emit-Keeps, emit_size, emit_size-Keeps, emit_size_lem}
use swift_xdelta.AddrCache.{usize_mod}
use swift_xdelta.CodeTable.{Rinst, single}
use swift_xdelta.CodeTable.Entries.{entry, immediate}
use swift_xdelta.Encoder.{Encoder, put, put_size, with_out, emit_single, emit_double}
use swift_xdelta.Encoder.Instructions.{Sized, in_code, behind}
use swift_xdelta.Encoder.Operands.{chained}

module _ (k : Sink) where
  -- Bytes in the section of the instructions, and nothing else.
  pub record Coded (e e' : Encoder k) (bytes : List ℕ) : Type 0 where
    pub out : k.Out
    pub made : e' ≡ record e { out = out }
    pub keeps : Keeps k e.out Sect.inst out
    pub wrote : k.holds out Sect.inst ≡ k.holds e.out Sect.inst ++ bytes

  put-Coded :
      (e : Encoder k) (bytes : List ℕ)
      → k.IsValid e.out
      → (put e Sect.inst bytes).0 ≡ ok tt
      → Coded e (put e Sect.inst bytes).1 bytes
  unfolding put with_out
  put-Coded e bytes v done = record {
    out = (k.emit e.out Sect.inst bytes).1;
    made = refl;
    keeps = emit-Keeps k e.out Sect.inst bytes v;
    wrote = k.emit_ok e.out Sect.inst bytes v done;
  }

  put_size-Coded :
      (e : Encoder k) (num : ℕ)
      → k.IsValid e.out
      → num < usize_mod
      → (put_size e Sect.inst num).0 ≡ ok tt
      → (sz : List ℕ) × (encode_integer num ≡ some sz) × Coded e (put_size e Sect.inst num).1 sz
  unfolding put_size with_out
  put_size-Coded e num v lt done =
      let (sz, is, more) = encode_integer-Encodes num lt in
      let lem = emit_size_lem k e.out Sect.inst num is in
      (
        sz,
        is,
        record {
          out = (emit_size k e.out Sect.inst num).1;
          made = refl;
          keeps = emit_size-Keeps k e.out Sect.inst num v;
          wrote = rw lem (k.emit_ok e.out Sect.inst sz v (rw lem at done));
        },
      )

  Coded-trans :
      (e e1 e2 : Encoder k) (xs ys : List ℕ)
      → Coded e e1 xs
      → Coded e1 e2 ys
      → Coded e e2 (xs ++ ys)
  Coded-trans e e1 e2 xs ys p q =
      let at : e1.out ≡ p.out = ap (λ t. t.out) p.made in
      let over : Encoder k → Encoder k = λ t. record t { out = q.out } in
      record {
        out = q.out;
        made = q.made ∙ ap over p.made;
        keeps = record {
          valid = q.keeps.valid;
          other = λ t ne. q.keeps.other t ne ∙ ap (λ o. k.holds o t) at ∙ p.keeps.other t ne;
        };
        wrote =
            q.wrote
            ∙ ap (λ o. k.holds o Sect.inst ++ ys) at
            ∙ ap (λ t. t ++ ys) p.wrote
            ∙ append_assoc (k.holds e.out Sect.inst) xs ys;
      }

  -- The size is behind the code where the table's entry has none.
  pub emit_single-Coded :
      (e : Encoder k) (i : Rinst) (code : ℕ)
      → k.IsValid e.out
      → i.size < usize_mod
      → 1 ≤ i.size
      → entry code ≡ single i.type (immediate i.type i.size)
      → (emit_single e i code).0 ≡ ok tt
      → (sz : List ℕ) × Sized i.size (immediate i.type i.size) sz
        × Coded e (emit_single e i code).1 (code ∷ sz)
  unfolding emit_single
  emit_single-Coded e i code v word some_size is done =
      let c = chained (put e Sect.inst (code ∷ [])) _ tt done in
      let p = put-Coded e (code ∷ []) v c.first in
      let s1 : (entry code).size1 ≡ immediate i.type i.size = ap (λ t. t.size1) is in
      rw c.whole (elim (Bool-cases ((entry code).size1 == 0)) [
        | inl none_there ↦
            let zero : immediate i.type i.size ≡ 0 = ground arith in
            let (sz, bytes, q) =
              put_size-Coded (put e Sect.inst (code ∷ [])).1 i.size
                (rw⁻¹ (ap (λ t. t.out) (sym p.made)) p.keeps.valid) word
                (rw none_there at c.rest) in
            (sz, rw zero (behind sz bytes), rw none_there (Coded-trans e _ _ (code ∷ []) sz p q))
        | inr there ↦
            let all : immediate i.type i.size ≡ i.size = ground arith in
            ([], rw all (in_code some_size), rw there p)
      ])

  pub emit_double-Coded :
      (e : Encoder k) (code : ℕ)
      → k.IsValid e.out
      → (emit_double e code).0 ≡ ok tt
      → Coded e (emit_double e code).1 (code ∷ [])
  unfolding emit_double
  emit_double-Coded e code v done = put-Coded e (code ∷ []) v done
