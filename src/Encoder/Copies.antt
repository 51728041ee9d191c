-- ===== src/Encoder/Copies.antt =====
-- The addresses that xd3_iopt_finish_encoding writes for copies within the target, and how the
-- decoder reads them; and the operands of every instruction.
use swift_xdelta.Prelude.{
  ℕ, ◌+◌, ◌-◌, ◌%◌, ◌≤◌, ◌<◌, ◌≡◌, refl, sym, ap, ◌∙◌, arith, ◌⊎◌, inl, inr, List, [], append-nil,
}
use swift_xdelta.Prelude.{Bool, true, false, Option, length, ◌==◌, Result, ok, err}
use swift_xdelta.Sink.{Sect, Sink}
use swift_xdelta.AddrCache.{usize_mod, AddressOut, update_cache, encode_address}
use swift_xdelta.AddrCache.State.{update_cache-IsCache}
use swift_xdelta.AddrCache.RoundTrip.{decode-encode_address}
use swift_xdelta.AddrCache.Sections.{encode_address-Keeps}
use swift_xdelta.CodeTable.{xd3_add, xd3_run, xd3_cpy, Rinst}
use swift_xdelta.Source.{Source, Getblk}
use swift_xdelta.Window.{Window}
use swift_xdelta.Encoder.{
  Encoder, with_type, with_address, source_addr, copy_addr, decide_source, put_copy, put_operands,
}
use swift_xdelta.Encoder.Matches.{Repeats, IsMatch}
use swift_xdelta.Encoder.Halves.{IsFor, copy-Half}
use swift_xdelta.Encoder.Operands.{
  Still, Settled, no_source, decided, Ready, Written, put_run-Written, put_add-Written,
}

module _ (k : Sink) (client : Option Getblk) (b : Window) (bs : List ℕ) where
  module _ (base : IsFor bs b) (e : Encoder k) (h : Ready k client b bs e) (inst : Rinst) where
    with_type-ok :
        (status : Result ℕ) (r : Rinst)
        → with_type inst status ≡ ok r
        → (m : ℕ) × (status ≡ ok m) × (r ≡ record inst { type = m })
    unfolding with_type
    with_type-ok (ok m) r done = (m, refl, cc)
    with_type-ok (err x) r done = cc

    update_cache-sizes :
        (a : ℕ)
        → ((update_cache e.acache a).s_near ≡ e.acache.s_near)
          × ((update_cache e.acache a).s_same ≡ e.acache.s_same)
    unfolding update_cache
    update_cache-sizes a = (ground arith, ground arith)

    -- The address of a copy within the target.
    address-Written :
        (r : Rinst) (x : AddressOut k)
        → encode_address k e.out e.acache (b.cpylen + inst.addr) (b.cpylen + inst.pos) xd3_cpy ≡ x
        → (with_address e inst x).0 ≡ ok r
        → inst.pos + inst.size ≤ length bs
        → inst.addr < inst.pos
        → Repeats bs inst.addr inst.pos inst.size
        → Written k client b bs e inst (with_address e inst x).1 r
    unfolding with_address
    address-Written r x same done fits before repeats =
        let a = b.cpylen + inst.addr in
        let (m, status, made) = with_type-ok x.status r done in
        let word = base.word in
        let enc =
          decode-encode_address k e.out e.acache a (b.cpylen + inst.pos) xd3_cpy m h.valid h.cache
            (omega arith) (omega arith) (ap (λ t. t.status) same ∙ status) in
        let keeps = encode_address-Keeps k e.out e.acache a (b.cpylen + inst.pos) xd3_cpy h.valid in
        let sizes = update_cache-sizes a in
        let cache' : x.cache ≡ update_cache e.acache a = ap (λ t. t.cache) (sym same) ∙ enc.cache in
        let status' = ap (λ t. t.status) same in
        let st = enc.status in
        let taken : m ≡ (xd3_cpy + enc.bestm) % 256 = cc in
        let m_is : m ≡ xd3_cpy + enc.bestm = omega (arith, enc.in_table, h.near, h.same) in
        let mode : m - xd3_cpy ≡ enc.bestm = omega arith in
        rw made (record {
          pd = [];
          pa = enc.bytes;
          half = rw cache' (
              copy-Half client b bs base m inst.size inst.pos inst.addr enc.bytes e.acache
                (update_cache e.acache a) fits before (omega arith) repeats
                (λ rest. rw mode (enc.read_back rest)));
          real = record { real = omega arith; known = omega (arith, enc.in_table, h.near, h.same) };
          size = refl;
          pos = refl;
          adds =
              rw⁻¹ same
                (keeps.other Sect.adds (λ e. cc) ∙ sym (append-nil (k.holds e.out Sect.adds)));
          addr = rw⁻¹ same enc.written;
          inst_sect = rw⁻¹ same (keeps.other Sect.inst (λ e. cc));
          ready = record {
            valid = rw⁻¹ same keeps.valid;
            cache = rw cache' (update_cache-IsCache e.acache a h.cache (omega arith));
            near = rw cache' (sizes.0 ∙ h.near);
            same = rw cache' (sizes.1 ∙ h.same);
            settled = h.settled;
            input = h.input;
            offset = h.offset;
          };
          still = record {
            iout = refl;
            next_in = refl;
            unencoded_offset = refl;
            taroff = refl;
            src = refl;
            decided = refl;
          };
        })

  -- The address that a copy within the target is given.
  pub record Addressed (e : Encoder k) (inst : Rinst) (r : ℕ × Encoder k) : Type 0 where
    pub val : r.0 ≡ e.taroff + inst.addr
    pub out : r.1.out ≡ e.out
    pub cache : r.1.acache ≡ e.acache
    pub still : Still e r.1

  pub copy_addr-Addressed :
      (e : Encoder k) (inst : Rinst) {src : Option Source} {d : Bool} {t : ℕ}
      → Settled src d t
      → e.srcwin_decided ≡ d
      → e.taroff ≡ t
      → inst.xtra ≡ 0
      → e.taroff + inst.addr < usize_mod
      → Addressed e inst (copy_addr e inst src)
  unfolding copy_addr source_addr decide_source
  copy_addr-Addressed e inst (no_source d') ed et here word = record {
    val = omega arith;
    out = refl;
    cache = refl;
    still = record {
      iout = refl;
      next_in = refl;
      unencoded_offset = refl;
      taroff = refl;
      src = refl;
      decided = refl;
    };
  }
  copy_addr-Addressed e inst (decided s t') ed et here word =
      rw (ed, here)
        (record {
          val = omega arith;
          out = refl;
          cache = refl;
          still = record {
            iout = refl;
            next_in = refl;
            unencoded_offset = refl;
            taroff = refl;
            src = refl;
            decided = refl;
          };
        })

  pub Ready-Still :
      (e e1 : Encoder k)
      → Ready k client b bs e
      → e1.out ≡ e.out
      → e1.acache ≡ e.acache
      → Still e e1
      → Ready k client b bs e1
  Ready-Still e e1 h out cache still = record {
    valid = rw out h.valid;
    cache = rw cache h.cache;
    near = rw cache h.near;
    same = rw cache h.same;
    settled = rw (still.src, still.decided, still.taroff) h.settled;
    input = still.next_in ∙ h.input;
    offset = still.taroff ∙ h.offset;
  }

  Still-trans : (e e1 e2 : Encoder k) → Still e e1 → Still e1 e2 → Still e e2
  Still-trans e e1 e2 p q = record {
    iout = q.iout ∙ p.iout;
    next_in = q.next_in ∙ p.next_in;
    unencoded_offset = q.unencoded_offset ∙ p.unencoded_offset;
    taroff = q.taroff ∙ p.taroff;
    src = q.src ∙ p.src;
    decided = q.decided ∙ p.decided;
  }

  Written-Still :
      (e e1 e2 : Encoder k) (inst r : Rinst)
      → e1.out ≡ e.out
      → e1.acache ≡ e.acache
      → Still e e1
      → Written k client b bs e1 inst e2 r
      → Written k client b bs e inst e2 r
  Written-Still e e1 e2 inst r out cache still w = record {
    pd = w.pd;
    pa = w.pa;
    half = rw⁻¹ cache w.half;
    real = w.real;
    size = w.size;
    pos = w.pos;
    adds = rw⁻¹ out w.adds;
    addr = rw⁻¹ out w.addr;
    inst_sect = rw⁻¹ out w.inst_sect;
    ready = w.ready;
    still = Still-trans e e1 e2 still w.still;
  }

  put_copy-Written :
      (e : Encoder k) (inst r : Rinst)
      → IsFor bs b
      → Ready k client b bs e
      → (put_copy e inst).0 ≡ ok r
      → inst.type ≡ xd3_cpy
      → inst.pos + inst.size ≤ length bs
      → inst.addr < inst.pos
      → inst.xtra ≡ 0
      → Repeats bs inst.addr inst.pos inst.size
      → Written k client b bs e inst (put_copy e inst).1 r
  unfolding put_copy
  put_copy-Written e inst r base h done type fits before here repeats =
      let word = base.word in
      let offset = h.offset in
      let x = copy_addr-Addressed e inst h.settled refl refl here (omega arith) in
      let e1 = (copy_addr e inst e.src).1 in
      let taroff = x.still.taroff in
      let val : (copy_addr e inst e.src).0 ≡ b.cpylen + inst.addr = x.val ∙ omega arith in
      let at : (inst.pos + e1.taroff) % usize_mod ≡ b.cpylen + inst.pos = omega arith in
      let mode : ℕ → AddressOut k =
        λ t. encode_address k e1.out e1.acache (b.cpylen + inst.addr) (b.cpylen + inst.pos) t in
      rw (val, at)
        (Written-Still e e1 _ inst r x.out x.cache x.still (
          address-Written base e1 (Ready-Still e e1 h x.out x.cache x.still) inst r _
            (ap mode (sym type)) (rw (val, at) at done) fits before repeats))

  -- Copies and runs within the target, and what is added between them.
  pub put_operands-Written :
      (e : Encoder k) (inst r : Rinst)
      → IsFor bs b
      → Ready k client b bs e
      → (put_operands e inst).0 ≡ ok r
      → IsMatch bs inst ⊎ ((inst.type ≡ xd3_add) × (inst.pos + inst.size ≤ length bs))
      → Written k client b bs e inst (put_operands e inst).1 r
  unfolding put_operands
  put_operands-Written e inst r base h done (inr (type, fits)) =
      let no_copy : (inst.type == xd3_cpy) ≡ false = ground arith in
      let no_run : (inst.type == xd3_run) ≡ false = ground arith in
      let add : (inst.type == xd3_add) ≡ true = ground arith in
      rw (no_copy, no_run, add)
        (put_add-Written k client b bs base e h inst r (rw (no_copy, no_run, add) at done) type
          fits)
  put_operands-Written e inst r base h done (inl m) = elim m.kind [
    | inl (type, before, here, repeats) ↦
        let copy : (inst.type == xd3_cpy) ≡ true = ground arith in
        rw copy
          (put_copy-Written e inst r base h (rw copy at done) type m.inside before here repeats)
    | inr (type, run) ↦
        let no_copy : (inst.type == xd3_cpy) ≡ false = ground arith in
        let is_run : (inst.type == xd3_run) ≡ true = ground arith in
        rw (no_copy, is_run)
          (put_run-Written k client b bs base e h inst r (rw (no_copy, is_run) at done) type
            m.inside run)
  ]
