-- ===== src/Encoder/HeaderParts.antt =====
-- The parts of what xd3_emit_hdr writes.
use swift_xdelta.Prelude.{
  ℕ, ◌+◌, ◌*◌, ◌%◌, ◌^◌, ◌<◌, ◌≡◌, ◌≢◌, refl, sym, ap, ◌∙◌, arith, Bool, true, false, inl, inr,
  Bool-cases, none, some, Option-cases, List, [], ◌∷◌, ◌++◌, append_assoc, append-nil, length,
}
use swift_xdelta.Prelude.{◌==◌, if◌then◌else◌, ok}
use swift_xdelta.Integer.{uint32, uint64, xoff_mod, sizeof_integer, encode_integer, read_integer}
use swift_xdelta.Integer.RoundTrip.{read-encode}
use swift_xdelta.Sink.{Sect, Sink, Keeps, emit-Keeps, emit_size-Keeps, emit_size_lem}
use swift_xdelta.AddrCache.{usize_mod}
use swift_xdelta.Adler.{adler32}
use swift_xdelta.Encoder.{Encoder, Call, ◌>>>◌, put, put_size, with_out}
use swift_xdelta.Encoder.Operands.{chained}
use swift_xdelta.Encoder.Header.{
  Heading, put_each, put_appheader, put_file_header, put_offset, put_source_window, Lengths,
  enc_len, put_lengths, big_endian, put_cksum, lengths_of,
}

-- The integer `n`, as it is read back.
pub record Numeral (n : ℕ) : Type 0 where
  pub bytes : List ℕ
  pub encodes : encode_integer n ≡ some bytes
  pub size : length bytes ≡ sizeof_integer uint64 n
  pub reads : (more : List ℕ) → read_integer uint64 (bytes ++ more) ≡ ok (n, more)

pub numeral : (n : ℕ) → n < usize_mod → Numeral n
numeral n lt =
    let (bs, e, size, read) = read-encode uint64 n [] lt in
    record {
      bytes = bs;
      encodes = e;
      size = size;
      reads = λ more.
          let (bs', e', size', read') = read-encode uint64 n more lt in
          let same : bs ≡ bs' = cc in rw same read';
    }

-- The `xoff_t` `n`, as it is read back.
pub record Offset (n : ℕ) : Type 0 where
  pub bytes : List ℕ
  pub encodes : encode_integer n ≡ some bytes
  pub reads : (more : List ℕ) → read_integer uint32 (bytes ++ more) ≡ ok (n, more)

pub as_xoff : (n : ℕ) → n < xoff_mod → Offset n
as_xoff n lt =
    let (bs, e, size, read) = read-encode uint32 n [] lt in
    record {
      bytes = bs;
      encodes = e;
      reads = λ more.
          let (bs', e', size', read') = read-encode uint32 n more lt in
          let same : bs ≡ bs' = cc in rw same read';
    }

-- What the file starts with: the magic bytes, the indicator and the application header.
pub data FileBytes : Heading → List ℕ → Type 0 where
  later : (h : Heading) → h.current_window ≢ 0 → FileBytes h []
  plain :
      (h : Heading)
      → h.current_window ≡ 0
      → h.enc_appheader ≡ none
      → FileBytes h (0xd6 ∷ 0xc3 ∷ 0xc4 ∷ 0 ∷ 0 ∷ [])
  with_app :
      (h : Heading) (app : List ℕ) (n : Numeral (length app))
      → h.current_window ≡ 0
      → h.enc_appheader ≡ some app
      → FileBytes h (0xd6 ∷ 0xc3 ∷ 0xc4 ∷ 0 ∷ 4 ∷ n.bytes ++ app)

-- The source window, where it is used.
pub data SourceBytes (len base : ℕ) : Bool → List ℕ → Type 0 where
  unused : SourceBytes len base false []
  used : (l : Numeral len) (b : Offset base) → SourceBytes len base true (l.bytes ++ b.bytes)

abbrev pub cksum_bytes : Heading → List ℕ → Bool → List ℕ
cksum_bytes h next_in false = []
cksum_bytes h next_in true =
    big_endian (if h.flag_adler32 then adler32 1 next_in else h.recode_adler32)

-- The checksum of the window, where it is used: four bytes, the most significant first.
pub data CksumBytes (sum : ℕ) : Bool → List ℕ → Type 0 where
  no_cksum : CksumBytes sum false []
  with_cksum :
      (a b c d : ℕ)
      → a < 256
      → b < 256
      → c < 256
      → d < 256
      → ((a * 256 + b) * 256 + c) * 256 + d ≡ sum % 2 ^ 32
      → CksumBytes sum true (a ∷ b ∷ c ∷ d ∷ [])

abbrev pub sum_of : Heading → List ℕ → ℕ
sum_of h next_in = if h.flag_adler32 then adler32 1 next_in else h.recode_adler32

big_endian-CksumBytes : (sum : ℕ) → CksumBytes sum true (big_endian sum)
big_endian-CksumBytes sum =
    with_cksum _ _ _ _ (omega arith) (omega arith) (omega arith) (omega arith) (omega arith)

pub cksum_bytes-CksumBytes :
    (h : Heading) (next_in : List ℕ) (b : Bool)
    → CksumBytes (sum_of h next_in) b (cksum_bytes h next_in b)
cksum_bytes-CksumBytes h next_in false = no_cksum
cksum_bytes-CksumBytes h next_in true = big_endian-CksumBytes (sum_of h next_in)

module _ (k : Sink) (e0 : Encoder k) where
  -- Bytes in the section of the header, and nothing else.
  pub record Headed (e : Encoder k) (bytes : List ℕ) : Type 0 where
    pub out : k.Out
    pub made : e ≡ record e0 { out = out }
    pub keeps : Keeps k e0.out Sect.hdr out
    pub wrote : k.holds out Sect.hdr ≡ k.holds e0.out Sect.hdr ++ bytes

  Headed-out :
      (e : Encoder k) (xs ys : List ℕ) (o : k.Out)
      → Headed e xs
      → Keeps k e.out Sect.hdr o
      → k.holds o Sect.hdr ≡ k.holds e.out Sect.hdr ++ ys
      → Headed (record e { out = o }) (xs ++ ys)
  Headed-out e xs ys o h keeps wrote =
      let at : e.out ≡ h.out = ap (λ t. t.out) h.made in
      let over : Encoder k → Encoder k = λ t. record t { out = o } in
      record {
        out = o;
        made = ap over h.made;
        keeps = record {
          valid = keeps.valid;
          other = λ t ne. keeps.other t ne ∙ ap (λ o. k.holds o t) at ∙ h.keeps.other t ne;
        };
        wrote =
            wrote
            ∙ ap (λ o. k.holds o Sect.hdr ++ ys) at
            ∙ ap (λ t. t ++ ys) h.wrote
            ∙ append_assoc (k.holds e0.out Sect.hdr) xs ys;
      }

  Headed-valid : (e : Encoder k) (xs : List ℕ) → Headed e xs → k.IsValid e.out
  Headed-valid e xs h = rw (ap (λ t. t.out) h.made) h.keeps.valid

  -- A call that adds `ys` to the header.
  unfoldable pub Adds : (Encoder k → Call k (Unit {0})) → List ℕ → Type 0
  Adds f ys =
      (e : Encoder k) (xs : List ℕ) → Headed e xs → (f e).0 ≡ ok tt → Headed (f e).1 (xs ++ ys)

  pub put-Adds : (bs : List ℕ) → Adds (λ e. put e Sect.hdr bs) bs
  unfolding Adds put with_out
  put-Adds bs e xs h done =
      let v = Headed-valid e xs h in
      Headed-out e xs bs _ h (emit-Keeps k e.out Sect.hdr bs v) (k.emit_ok e.out Sect.hdr bs v done)

  size-Adds :
      (num : Encoder k → ℕ) (bs : List ℕ)
      → ((o : k.Out) → encode_integer (num (record e0 { out = o })) ≡ some bs)
      → Adds (λ e. put_size e Sect.hdr (num e)) bs
  unfolding Adds put_size with_out
  size-Adds num bs is e xs h done =
      let v = Headed-valid e xs h in
      let num' : encode_integer (num e) ≡ some bs =
        ap (λ t. encode_integer (num t)) h.made ∙ is h.out in
      let lem = emit_size_lem k e.out Sect.hdr (num e) num' in
      Headed-out e xs bs _ h (emit_size-Keeps k e.out Sect.hdr (num e) v)
        (rw lem (k.emit_ok e.out Sect.hdr bs v (rw lem at done)))

  pub then-Adds :
      (f g : Encoder k → Call k (Unit {0})) (xs ys : List ℕ)
      → Adds f xs
      → Adds g ys
      → Adds (λ e. f e >>> λ u e. g e) (xs ++ ys)
  unfolding Adds
  then-Adds f g xs ys p q e zs h done =
      let c = chained (f e) _ tt done in
      rw (c.whole, sym (append_assoc zs xs ys)) (q (f e).1 (zs ++ xs) (p e zs h c.first) c.rest)

  nothing-Adds : Adds (λ e. (ok tt, e)) []
  unfolding Adds
  nothing-Adds e xs h done = rw (append-nil xs) h

  put_each-Adds : (bs : List ℕ) → Adds (λ e. put_each e bs) bs
  unfolding put_each
  put_each-Adds [] = nothing-Adds
  put_each-Adds (b ∷ bs) =
      then-Adds (λ e. put e Sect.hdr (b ∷ [])) (λ e. put_each e bs) (b ∷ []) bs (put-Adds (b ∷ []))
        (put_each-Adds bs)

  pub source-Adds :
      (b : Bool)
      → e0.srclen < usize_mod
      → e0.srcbase < xoff_mod
      → (bytes : List ℕ) × SourceBytes e0.srclen e0.srcbase b bytes
        × Adds (λ e. put_source_window e b) bytes
  unfolding put_source_window put_offset
  source-Adds false l r = ([], unused, nothing-Adds)
  source-Adds true l r =
      let len = numeral e0.srclen l in
      let base = as_xoff e0.srcbase r in
      let whole : e0.srcbase % xoff_mod ≡ e0.srcbase = omega arith in
      (
        len.bytes ++ base.bytes,
        used len base,
        then-Adds (λ e. put_size e Sect.hdr e.srclen) (λ e. put_offset e Sect.hdr e.srcbase)
            len.bytes base.bytes (size-Adds (λ e. e.srclen) len.bytes (λ o. len.encodes))
            (size-Adds (λ e. e.srcbase % xoff_mod) base.bytes
              (λ o. ap encode_integer whole ∙ base.encodes)),
      )

  pub cksum-Adds :
      (h : Heading) (b : Bool) → Adds (λ e. put_cksum e h b) (cksum_bytes h e0.next_in b)
  unfolding put_cksum Adds
  cksum-Adds h false = nothing-Adds
  cksum-Adds h true = λ e xs x done.
      let same : e.next_in ≡ e0.next_in = ap (λ t. t.next_in) x.made in
      let sum : List ℕ → List ℕ =
        λ t. big_endian (if h.flag_adler32 then adler32 1 t else h.recode_adler32) in
      let moved : xs ++ sum e0.next_in ≡ xs ++ sum e.next_in = ap (λ t. xs ++ sum t) (sym same) in
      rw moved (put-Adds (sum e.next_in) e xs x done)

  pub file-Adds :
      (h : Heading)
      → ((app : List ℕ) → h.enc_appheader ≡ some app → length app < usize_mod)
      → (bytes : List ℕ) × FileBytes h bytes × Adds (λ e. put_file_header e h) bytes
  unfolding put_file_header put_appheader
  file-Adds h small = elim (Bool-cases (h.current_window == 0)) [
    | inr past ↦ ([], later h (ground arith), rw past nothing-Adds)
    | inl start ↦ elim (Option-cases h.enc_appheader) [
      | inl without ↦
          let magic : List ℕ = 0xd6 ∷ 0xc3 ∷ 0xc4 ∷ 0 ∷ 0 ∷ [] in
          (
            magic,
            plain h (ground arith) without,
            rw (start, without)
                (then-Adds (λ e. put_each e magic) (λ e. (ok tt, e)) magic [] (put_each-Adds magic)
                  nothing-Adds),
          )
      | inr (app, given) ↦
          let magic : List ℕ = 0xd6 ∷ 0xc3 ∷ 0xc4 ∷ 0 ∷ 4 ∷ [] in
          let n = numeral (length app) (small app given) in
          (
            0xd6 ∷ 0xc3 ∷ 0xc4 ∷ 0 ∷ 4 ∷ n.bytes ++ app,
            with_app h app n (ground arith) given,
            rw (start, given)
                (then-Adds (λ e. put_each e magic)
                  (λ e. put_size e Sect.hdr (length app) >>> λ u e. put e Sect.hdr app) magic
                  (n.bytes ++ app) (put_each-Adds magic)
                  (then-Adds (λ e. put_size e Sect.hdr (length app)) (λ e. put e Sect.hdr app)
                    n.bytes app (size-Adds (λ e. length app) n.bytes (λ o. n.encodes))
                    (put-Adds app))),
          )
    ]
  ]

  number-Adds : (m : ℕ) (x : Numeral m) → Adds (λ e. put_size e Sect.hdr m) x.bytes
  number-Adds m x = size-Adds (λ e. m) x.bytes (λ o. x.encodes)

  pub lengths-Adds :
      (l : Lengths) (b : Bool) (n : Numeral (enc_len l b)) (t : Numeral l.tgt_len)
      (d : Numeral l.data_len) (i : Numeral l.inst_len) (a : Numeral l.addr_len)
      → Adds
          (λ e. put_lengths e l b)
          (((((n.bytes ++ t.bytes) ++ (0 ∷ [])) ++ d.bytes) ++ i.bytes) ++ a.bytes)
  unfolding put_lengths
  lengths-Adds l b n t d i a =
      then-Adds _ (λ e. put_size e Sect.hdr l.addr_len) _ a.bytes
        (then-Adds _ (λ e. put_size e Sect.hdr l.inst_len) _ i.bytes
          (then-Adds _ (λ e. put_size e Sect.hdr l.data_len) _ d.bytes
            (then-Adds _ (λ e. put e Sect.hdr (0 ∷ [])) _ (0 ∷ [])
              (then-Adds (λ e. put_size e Sect.hdr (enc_len l b))
                (λ e. put_size e Sect.hdr l.tgt_len) n.bytes t.bytes (number-Adds (enc_len l b) n)
                (number-Adds l.tgt_len t))
              (put-Adds (0 ∷ [])))
            (number-Adds l.data_len d))
          (number-Adds l.inst_len i))
        (number-Adds l.addr_len a)

  pub lengths_of-Headed : (e : Encoder k) (xs : List ℕ) → Headed e xs → lengths_of e ≡ lengths_of e0
  unfolding lengths_of
  lengths_of-Headed e xs h =
      let at : (s : Sect) → s ≢ Sect.hdr → k.holds e.out s ≡ k.holds e0.out s =
        λ s ne. ap (λ t. k.holds t.out s) h.made ∙ h.keeps.other s (λ eq. ne (sym eq)) in
      let next : length e.next_in ≡ length e0.next_in = ap (λ t. length t.next_in) h.made in
      let d : length (k.holds e.out Sect.adds) ≡ length (k.holds e0.out Sect.adds) =
        ap length (at Sect.adds (λ e. cc)) in
      let i : length (k.holds e.out Sect.inst) ≡ length (k.holds e0.out Sect.inst) =
        ap length (at Sect.inst (λ e. cc)) in
      let a : length (k.holds e.out Sect.addr) ≡ length (k.holds e0.out Sect.addr) =
        ap length (at Sect.addr (λ e. cc)) in
      rw (next, d, i, a) refl
