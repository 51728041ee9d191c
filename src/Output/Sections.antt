-- ===== src/Output/Sections.antt =====
-- The stream's four sections over one pool of pages, as a `Sink`, and the size of a section.
use swift_xdelta.Prelude.{ℕ, ◌+◌, ◌≡◌, ◌≢◌, refl, sym, ap, ◌∙◌, arith, Option, none, some}
use swift_xdelta.Prelude.{
  ◌⊎◌, inl, inr, take, List, [], ◌∷◌, ◌++◌, append-nil, length, length-append, length-take, All,
  All-append, Result, ok, err, ErrAll, internal, enomem,
}
use swift_xdelta.Output.{
  Page, Pool, Section, Emitted, emit_bytes, sizeof_pages, sizeof_output, freelist_output,
}
use swift_xdelta.Output.Pages.{IsPage, IsPool, IsSection, contents, pages_bytes, pages_bytes-append}
use swift_xdelta.Output.Emit.{Outcome}
use swift_xdelta.Output.Rounds.{emit_bytes-Outcome}
use swift_xdelta.Sink.{Sect, hdr, adds, inst, addr, Sink, FailsWith}

-- `enc_tails`, `enc_heads` and `enc_free`
pub record Outputs : Type 0 where
  pub pool : Pool
  pub hdr_out : Section
  pub data_out : Section
  pub inst_out : Section
  pub addr_out : Section

abbrev pub section_of : Outputs → Sect → Section
section_of o hdr = o.hdr_out
section_of o adds = o.data_out
section_of o inst = o.inst_out
section_of o addr = o.addr_out

abbrev pub put_back : Outputs → Sect → Emitted → Outputs
put_back o hdr e = record o { pool = e.pool; hdr_out = e.section }
put_back o adds e = record o { pool = e.pool; data_out = e.section }
put_back o inst e = record o { pool = e.pool; inst_out = e.section }
put_back o addr e = record o { pool = e.pool; addr_out = e.section }

pub record AreValid (o : Outputs) : Type 0 where
  pub pool : IsPool o.pool
  pub all : (s : Sect) → IsSection (section_of o s)

finish : Outputs → Sect → Option Emitted → Result (Unit {0}) × Outputs
finish o s none = (err internal, o)
finish o s (some e) = (e.status, put_back o s e)

unfoldable pub emit : Outputs → Sect → List ℕ → Result (Unit {0}) × Outputs
unfolding finish emit_bytes
emit o s bytes = finish o s (emit_bytes o.pool (section_of o s) bytes)

put_back-AreValid :
    (o : Outputs) (s : Sect) (e : Emitted)
    → AreValid o
    → IsPool e.pool
    → IsSection e.section
    → AreValid (put_back o s e)
put_back-AreValid o s e v hm hs = record { pool = pool s; all = all s }
  where
    pool : (s : Sect) → IsPool (put_back o s e).pool
    pool hdr = hm
    pool adds = hm
    pool inst = hm
    pool addr = hm

    all : (s t : Sect) → IsSection (section_of (put_back o s e) t)
    all hdr hdr = hs
    all hdr adds = v.all adds
    all hdr inst = v.all inst
    all hdr addr = v.all addr
    all adds hdr = v.all hdr
    all adds adds = hs
    all adds inst = v.all inst
    all adds addr = v.all addr
    all inst hdr = v.all hdr
    all inst adds = v.all adds
    all inst inst = hs
    all inst addr = v.all addr
    all addr hdr = v.all hdr
    all addr adds = v.all adds
    all addr inst = v.all inst
    all addr addr = hs

section_of-put_back :
    (o : Outputs) (s : Sect) (e : Emitted) → section_of (put_back o s e) s ≡ e.section
section_of-put_back o hdr e = refl
section_of-put_back o _ e = refl

section_of-put_back_ne :
    (o : Outputs) (s t : Sect) (e : Emitted)
    → s ≢ t
    → section_of (put_back o s e) t ≡ section_of o t
section_of-put_back_ne o hdr hdr e ne = absurd (ne refl)
section_of-put_back_ne o adds adds e ne = absurd (ne refl)
section_of-put_back_ne o inst inst e ne = absurd (ne refl)
section_of-put_back_ne o addr addr e ne = absurd (ne refl)
section_of-put_back_ne o _ _ e ne = refl

-- What `emit` does on valid outputs: the outcome of xd3_emit_bytes on the section, put back.
record EmittedBy (o : Outputs) (s : Sect) (bytes : List ℕ) : Type 0 where
  emitted : Emitted
  call : emit o s bytes ≡ (emitted.status, put_back o s emitted)
  outcome : Outcome (section_of o s) bytes emitted

emit-EmittedBy : (o : Outputs) (s : Sect) (bytes : List ℕ) → AreValid o → EmittedBy o s bytes
unfolding emit
emit-EmittedBy o s bytes v =
    let (e, done, outcome) = emit_bytes-Outcome o.pool (section_of o s) bytes v.pool (v.all s) in
    record { emitted = e; call = rw done; outcome = outcome }

pub emit_valid :
    (o : Outputs) (s : Sect) (bytes : List ℕ) → AreValid o → AreValid (emit o s bytes).1
emit_valid o s bytes v =
    let x = emit-EmittedBy o s bytes v in
    rw x.call (put_back-AreValid o s x.emitted v x.outcome.pool x.outcome.section)

pub emit_ok :
    (o : Outputs) (s : Sect) (bytes : List ℕ)
    → AreValid o
    → (emit o s bytes).0 ≡ ok tt
    → contents (section_of (emit o s bytes).1 s) ≡ contents (section_of o s) ++ bytes
emit_ok o s bytes v h =
    let x = emit-EmittedBy o s bytes v in
    let status : x.emitted.status ≡ ok tt = rw x.call at h in
    rw (x.call, section_of-put_back o s x.emitted) (written x.outcome status)
  where
    written :
        {e : Emitted}
        → Outcome (section_of o s) bytes e
        → e.status ≡ ok tt
        → contents e.section ≡ contents (section_of o s) ++ bytes
    written r st = elim r.ends [
      | inl done ↦
          r.written
          ∙ ap (λ t. contents (section_of o s) ++ t)
              (sym (r.split ∙ ap (λ t. r.done ++ t) done.1 ∙ append-nil r.done))
      | inr bad ↦ cc
    ]

pub emit_other :
    (o : Outputs) (s t : Sect) (bytes : List ℕ)
    → AreValid o
    → s ≢ t
    → contents (section_of (emit o s bytes).1 t) ≡ contents (section_of o t)
emit_other o s t bytes v ne =
    let x = emit-EmittedBy o s bytes v in rw (x.call, section_of-put_back_ne o s t x.emitted ne)

-- The page chains are such an output as the encoder's routines need.
abbrev pub page_sink : Sink
page_sink = record {
  Out = Outputs;
  IsValid = AreValid;
  holds = λ o s. contents (section_of o s);
  emit = emit;
  emit_valid = emit_valid;
  emit_ok = emit_ok;
  emit_other = emit_other;
}

sizeof_pages-length :
    (ps : List Page) (s : ℕ) → All IsPage ps → sizeof_pages ps s ≡ s + length (pages_bytes ps)
unfolding sizeof_pages
sizeof_pages-length [] s h = omega arith
sizeof_pages-length (p ∷ ps) s (hp, h) = omega (
  arith,
  sizeof_pages-length ps (s + p.next) h,
  length-append {0} (take p.next p.base) (pages_bytes ps),
  length-take {0} p.next p.base (omega (arith, hp.sized, hp.inside)),
)

-- xd3_sizeof_output counts the bytes that the section holds.
pub sizeof_output-contents : (s : Section) → IsSection s → sizeof_output s ≡ length (contents s)
unfolding sizeof_output
sizeof_output-contents s h =
    sizeof_pages-length (s.full ++ (s.tail ∷ [])) 0
      (All-append IsPage s.full (s.tail ∷ []) h.before (h.last, tt))
    ∙ rw (pages_bytes-append, append-nil) (omega arith)

-- Giving the pages of a section back to the free list keeps the pool well formed.
pub freelist_output-IsPool :
    (ps : List Page) (m : Pool) → All IsPage ps → IsPool m → IsPool (freelist_output ps m)
unfolding freelist_output
freelist_output-IsPool [] m h hm = hm
freelist_output-IsPool (p ∷ ps) m (hp, h) hm =
    freelist_output-IsPool ps (record m { free_list = record p { next = 0 } ∷ m.free_list }) h
      (record { sized = hp.sized; inside = omega arith; roomy = hp.roomy }, hm)

-- The page chains fail with ENOMEM only.
ends-enomem :
    (status : Result (Unit {0})) (undone : List ℕ)
    → ((status ≡ ok tt) × (undone ≡ [])) ⊎ (status ≡ err enomem)
    → ErrAll (λ code. code ≡ enomem) status
ends-enomem (ok u) undone ends = tt
ends-enomem (err code) undone (inl done) = cc
ends-enomem (err code) undone (inr bad) = cc

pub page_sink-FailsWith : FailsWith page_sink (λ code. code ≡ enomem)
unfolding FailsWith
page_sink-FailsWith o s bytes v =
    let x = emit-EmittedBy o s bytes v in
    rw x.call (ends-enomem x.emitted.status x.outcome.undone x.outcome.ends)
