-- ===== src/Encoder/Operands.antt =====
-- The operands that xd3_iopt_finish_encoding writes for an instruction, and how the decoder reads
-- them.
use swift_xdelta.Prelude.{ℕ, ◌+◌, ◌≤◌, ◌≡◌, refl, sym, ◌∙◌, arith, List, [], ◌∷◌, ◌++◌, append-nil}
use swift_xdelta.Prelude.{Bool, true, Option, none, some, length, take, drop, ok, err}
use swift_xdelta.Sink.{Sect, Sink, emit-Keeps}
use swift_xdelta.AddrCache.State.{IsCache}
use swift_xdelta.CodeTable.{xd3_add, xd3_run, Rinst}
use swift_xdelta.CodeTable.Choice.{IsInst}
use swift_xdelta.Source.{Source, Getblk}
use swift_xdelta.Window.{Window}
use swift_xdelta.Encoder.{Encoder, Call, Stats, ◌>>>◌, put, with_out, put_run, put_add}
use swift_xdelta.Encoder.Matches.{IsRun}
use swift_xdelta.Encoder.Halves.{IsFor, Half, run-Half, add-Half}

-- A chain that succeeds: what its first call returns, and the rest from there.
pub record Chained {k : Sink} {A B : Type 0} (m : Call k A) (f : A → Encoder k → Call k B) (b : B)
    : Type 0 where
  pub value : A
  pub first : m.0 ≡ ok value
  pub whole : (m >>> f) ≡ f value m.1
  pub rest : (f value m.1).0 ≡ ok b

pub chained :
    {k : Sink} {A B : Type 0} (m : Call k A) (f : A → Encoder k → Call k B) (b : B)
    → (m >>> f).0 ≡ ok b
    → Chained m f b
chained (err x, e) f b h = cc
chained (ok a, e) f b h = record { value = a; first = refl; whole = refl; rest = h }

-- What the operands leave alone.
pub record Still {k : Sink} (e e' : Encoder k) : Type 0 where
  pub iout : e'.iout ≡ e.iout
  pub next_in : e'.next_in ≡ e.next_in
  pub unencoded_offset : e'.unencoded_offset ≡ e.unencoded_offset
  pub taroff : e'.taroff ≡ e.taroff
  pub src : e'.src ≡ e.src
  pub decided : e'.srcwin_decided ≡ e.srcwin_decided

-- There is no source, or its window is decided.
pub data Settled : Option Source → Bool → ℕ → Type 0 where
  no_source : (decided : Bool) → Settled none decided 0
  decided : (s : Source) (taroff : ℕ) → Settled (some s) true taroff

module _ (k : Sink) (client : Option Getblk) (b : Window) (bs : List ℕ) where
  -- The encoder is within the window that has the target `bs`.
  pub record Ready (e : Encoder k) : Type 0 where
    pub valid : k.IsValid e.out
    pub cache : IsCache e.acache
    pub near : e.acache.s_near ≡ 4
    pub same : e.acache.s_same ≡ 3
    pub settled : Settled e.src e.srcwin_decided e.taroff
    pub input : e.next_in ≡ bs
    pub offset : e.taroff ≡ b.cpylen

  -- The operands of `inst` are written, and it has become `r`.
  pub record Written (e : Encoder k) (inst : Rinst) (e' : Encoder k) (r : Rinst) : Type 0 where
    pub pd : List ℕ
    pub pa : List ℕ
    pub half : Half client b bs r.type r.size r.pos pd pa e.acache e'.acache
    pub real : IsInst r
    pub size : r.size ≡ inst.size
    pub pos : r.pos ≡ inst.pos
    pub adds : k.holds e'.out Sect.adds ≡ k.holds e.out Sect.adds ++ pd
    pub addr : k.holds e'.out Sect.addr ≡ k.holds e.out Sect.addr ++ pa
    pub inst_sect : k.holds e'.out Sect.inst ≡ k.holds e.out Sect.inst
    pub ready : Ready e'
    pub still : Still e e'

  module _ (base : IsFor bs b) (e : Encoder k) (h : Ready e) (inst : Rinst) where
    -- Bytes in the data section.
    data-Written :
        (bytes : List ℕ) (s : Stats)
        → (k.emit e.out Sect.adds bytes).0 ≡ ok tt
        → IsInst inst
        → Half client b bs inst.type inst.size inst.pos bytes [] e.acache e.acache
        → Written e inst (record e { out = (k.emit e.out Sect.adds bytes).1; stats = s }) inst
    data-Written bytes s done real half =
        let keeps = emit-Keeps k e.out Sect.adds bytes h.valid in
        record {
          pd = bytes;
          pa = [];
          half = half;
          real = real;
          size = refl;
          pos = refl;
          adds = k.emit_ok e.out Sect.adds bytes h.valid done;
          addr = keeps.other Sect.addr (λ e. cc) ∙ sym (append-nil (k.holds e.out Sect.addr));
          inst_sect = keeps.other Sect.inst (λ e. cc);
          ready = record {
            valid = keeps.valid;
            cache = h.cache;
            near = h.near;
            same = h.same;
            settled = h.settled;
            input = h.input;
            offset = h.offset;
          };
          still = record {
            iout = refl;
            next_in = refl;
            unencoded_offset = refl;
            taroff = refl;
            src = refl;
            decided = refl;
          };
        }

    pub put_run-Written :
        (r : Rinst)
        → (put_run e inst).0 ≡ ok r
        → inst.type ≡ xd3_run
        → inst.pos + inst.size ≤ length bs
        → IsRun bs inst.xtra inst.pos inst.size
        → Written e inst (put_run e inst).1 r
    unfolding put_run put with_out
    put_run-Written r done type fits run =
        let c = chained (put e Sect.adds (inst.xtra ∷ [])) _ r done in
        let same : r ≡ inst = cc in
        rw c.whole (
          rw same (
            data-Written (inst.xtra ∷ []) _ c.first
              (record { real = omega arith; known = omega arith })
              (rw type (run-Half client b bs base inst.xtra inst.size inst.pos e.acache fits run))))

    pub put_add-Written :
        (r : Rinst)
        → (put_add e inst).0 ≡ ok r
        → inst.type ≡ xd3_add
        → inst.pos + inst.size ≤ length bs
        → Written e inst (put_add e inst).1 r
    unfolding put_add put with_out
    put_add-Written r done type fits =
        let bytes = take inst.size (drop inst.pos e.next_in) in
        let c = chained (put e Sect.adds bytes) _ r done in
        let same : r ≡ inst = cc in
        rw c.whole (
          rw same (
            data-Written bytes _ c.first (record { real = omega arith; known = omega arith })
              (rw (type, h.input) (add-Half client b bs base inst.size inst.pos e.acache fits))))
