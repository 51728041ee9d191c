-- ===== src/Encoder/Declared.antt =====
-- What xd3_emit_hdr writes as a whole, and the length that it declares.
use swift_xdelta.Prelude.{
  ℕ, ◌+◌, ◌^◌, ◌≤◌, ◌<◌, ◌≡◌, ◌≢◌, refl, sym, ap, ◌∙◌, arith, Bool, true, false, some, List, [],
  ◌∷◌, ◌++◌, append_assoc, append-nil, length, length-append,
}
use swift_xdelta.Prelude.{if◌then◌else◌, ok}
use swift_xdelta.Integer.{uint64, xoff_mod, sizeof_integer}
use swift_xdelta.Sink.{Sect, Sink}
use swift_xdelta.AddrCache.{usize_mod}
use swift_xdelta.Decoder.Header.{has_bit, invalid_bits}
use swift_xdelta.Encoder.{Encoder, put}
use swift_xdelta.Encoder.Header.{
  Heading, use_adler32, win_ind, put_file_header, used_source, put_source_window, Lengths, enc_len,
  put_lengths, put_cksum, lengths_of, emit_hdr,
}
use swift_xdelta.Encoder.HeaderParts.{
  Numeral, numeral, CksumBytes, sum_of, cksum_bytes-CksumBytes, FileBytes, SourceBytes, cksum_bytes,
  Headed, Adds, put-Adds, then-Adds, source-Adds, cksum-Adds, file-Adds, lengths-Adds,
  lengths_of-Headed,
}

sizeof-le : (n : ℕ) → sizeof_integer uint64 n ≤ 10
unfolding sizeof_integer
sizeof-le n = ground arith

-- The window's indicator as the decoder tests it: VCD_SOURCE, VCD_ADLER32, and no other bit.
pub record Indicates (source cksum : Bool) (ind : ℕ) : Type 0 where
  pub source_bit : has_bit ind 1 ≡ source
  pub cksum_bit : has_bit ind 4 ≡ cksum
  pub target_bit : has_bit ind 2 ≡ false
  pub valid : has_bit ind invalid_bits ≡ false

win_ind-Indicates : (source cksum : Bool) → Indicates source cksum (win_ind source cksum)
win_ind-Indicates true true = record {
  source_bit = refl;
  cksum_bit = refl;
  target_bit = refl;
  valid = refl;
}
win_ind-Indicates true false = record {
  source_bit = refl;
  cksum_bit = refl;
  target_bit = refl;
  valid = refl;
}
win_ind-Indicates false true = record {
  source_bit = refl;
  cksum_bit = refl;
  target_bit = refl;
  valid = refl;
}
win_ind-Indicates false false = record {
  source_bit = refl;
  cksum_bit = refl;
  target_bit = refl;
  valid = refl;
}

-- What follows the length that is declared.
abbrev pub behind_len : List ℕ → List ℕ → List ℕ → List ℕ → List ℕ → List ℕ
behind_len tgt adds inst addr cksum = tgt ++ (0 ∷ adds ++ (inst ++ (addr ++ cksum)))

-- The header that a call has written: each part of it, and the length of the delta encoding, which is
-- that of all that follows it in the header and in the sections.
pub record HeadOf (k : Sink) (e : Encoder k) (h : Heading) (o : k.Out) : Type 0 where
  pub file : List ℕ
  pub is_file : FileBytes h file
  pub source : List ℕ
  pub is_source : SourceBytes e.srclen e.srcbase (used_source e.src e.srclen) source
  pub indicator : ℕ
  pub is_indicator : Indicates (used_source e.src e.srclen) (use_adler32 h) indicator
  pub cksum : List ℕ
  pub is_cksum : CksumBytes (sum_of h e.next_in) (use_adler32 h) cksum
  pub len : ℕ
  pub len_read : Numeral len
  pub tgt : Numeral (length e.next_in)
  pub adds : Numeral (length (k.holds e.out Sect.adds))
  pub inst : Numeral (length (k.holds e.out Sect.inst))
  pub addr : Numeral (length (k.holds e.out Sect.addr))
  pub wrote :
      k.holds o Sect.hdr
      ≡ k.holds e.out Sect.hdr
        ++ (file
            ++ (indicator ∷ source
                ++ (len_read.bytes ++ behind_len tgt.bytes adds.bytes inst.bytes addr.bytes cksum)))
  pub others : (s : Sect) → Sect.hdr ≢ s → k.holds o s ≡ k.holds e.out s
  pub all :
      len
      ≡ length (behind_len tgt.bytes adds.bytes inst.bytes addr.bytes cksum)
        + length (k.holds e.out Sect.adds)
        + length (k.holds e.out Sect.inst)
        + length (k.holds e.out Sect.addr)

length-cksum_bytes :
    (h : Heading) (next_in : List ℕ) (b : Bool)
    → length (cksum_bytes h next_in b) ≡ (if b then 4 else 0)
length-cksum_bytes h next_in false = refl
length-cksum_bytes h next_in true = refl

module _ (k : Sink) (e : Encoder k) (h : Heading) (next : length e.next_in < usize_mod)
    (sections : length (k.holds e.out Sect.adds)
        + length (k.holds e.out Sect.inst)
        + length (k.holds e.out Sect.addr)
      < 2 ^ 63) where
  declared :
      (t : Numeral (length e.next_in)) (d : Numeral (length (k.holds e.out Sect.adds)))
      (i : Numeral (length (k.holds e.out Sect.inst)))
      (a : Numeral (length (k.holds e.out Sect.addr))) (b : Bool)
      → enc_len (lengths_of e) b
        ≡ length (behind_len t.bytes d.bytes i.bytes a.bytes (cksum_bytes h e.next_in b))
          + length (k.holds e.out Sect.adds)
          + length (k.holds e.out Sect.inst)
          + length (k.holds e.out Sect.addr)
  unfolding enc_len lengths_of
  declared t d i a b =
      let cksum = cksum_bytes h e.next_in b in
      omega (
        arith,
        t.size,
        d.size,
        i.size,
        a.size,
        sizeof-le (length e.next_in),
        sizeof-le (length (k.holds e.out Sect.adds)),
        sizeof-le (length (k.holds e.out Sect.inst)),
        sizeof-le (length (k.holds e.out Sect.addr)),
        length-cksum_bytes h e.next_in b,
        small b,
        length-append t.bytes (0 ∷ d.bytes ++ (i.bytes ++ (a.bytes ++ cksum))),
        length-append d.bytes (i.bytes ++ (a.bytes ++ cksum)),
        length-append i.bytes (a.bytes ++ cksum),
        length-append a.bytes cksum,
      )
    where
      small : (b : Bool) → ◌≤◌ (if b then 4 else 0) 4
      small b = ground arith

  lengths_of-Adds :
      (b : Bool) (bytes : List ℕ)
      → Adds k e (λ e'. put_lengths e' (lengths_of e) b) bytes
      → Adds k e (λ e'. put_lengths e' (lengths_of e') b) bytes
  unfolding Adds
  lengths_of-Adds b bytes adds e' xs x done =
      let same = lengths_of-Headed k e e' xs x in rw same (adds e' xs x (rw same at done))

  Headed-self : k.IsValid e.out → Headed k e e []
  Headed-self v = record {
    out = e.out;
    made = refl;
    keeps = record { valid = v; other = λ t ne. refl };
    wrote = sym (append-nil (k.holds e.out Sect.hdr));
  }

enc_len-lt : (l : Lengths) (b : Bool) → enc_len l b < usize_mod
unfolding enc_len
enc_len-lt l b = omega arith

regroup :
    (file source n t d i a cksum : List ℕ) (w : ℕ)
    → (((file ++ (w ∷ [])) ++ source) ++ (((((n ++ t) ++ (0 ∷ [])) ++ d) ++ i) ++ a)) ++ cksum
      ≡ file ++ (w ∷ source ++ (n ++ behind_len t d i a cksum))
regroup file source n t d i a cksum w = simp append_assoc refl

-- From valid outputs, with lengths that together fit a `usize_t` and a source base that is an `xoff_t`: a
-- call of xd3_emit_hdr without an
-- error adds to the header's section, and to no other, the file's header before the first window, the
-- window's indicator and source window, the length of the delta encoding, and then the lengths and the
-- checksum; the decoder reads each of the lengths back as a `usize_t` and the source base as
-- an `xoff_t`, finds the bits for a source and for a checksum in the indicator exactly where they are
-- used, and no other, and the checksum in its four bytes, the most significant first; and the length that is declared is that of
-- all that follows it, in the header and in the three sections together.
pub emit_hdr-HeadOf :
    (k : Sink) (e : Encoder k) (h : Heading)
    → k.IsValid e.out
    → length e.next_in < usize_mod
    → e.srclen < usize_mod
    → e.srcbase < xoff_mod
    → length (k.holds e.out Sect.adds)
        + length (k.holds e.out Sect.inst)
        + length (k.holds e.out Sect.addr)
      < 2 ^ 63
    → ((app : List ℕ) → h.enc_appheader ≡ some app → length app < usize_mod)
    → (emit_hdr e h).0 ≡ ok tt
    → HeadOf k e h (emit_hdr e h).1.out
unfolding emit_hdr Adds
emit_hdr-HeadOf k e h v next srclen srcbase sections app done =
    let b = use_adler32 h in
    let used = used_source e.src e.srclen in
    let (file, is_file, a1) = file-Adds k e h app in
    let (source, is_source, a3) = source-Adds k e used srclen srcbase in
    let t = numeral (length e.next_in) next in
    let d = numeral (length (k.holds e.out Sect.adds)) (omega arith) in
    let i = numeral (length (k.holds e.out Sect.inst)) (omega arith) in
    let a = numeral (length (k.holds e.out Sect.addr)) (omega arith) in
    let n = numeral (enc_len (lengths_of e) b) (enc_len-lt (lengths_of e) b) in
    let whole =
      then-Adds k e _ (λ e. put_cksum e h b) _ _
        (then-Adds k e _ (λ e. put_lengths e (lengths_of e) b) _ _
          (then-Adds k e _ (λ e. put_source_window e used) _ _
            (then-Adds k e (λ e. put_file_header e h) (λ e. put e Sect.hdr (win_ind used b ∷ [])) _
              _ a1 (put-Adds k e (win_ind used b ∷ [])))
            a3)
          (lengths_of-Adds k e h next sections b _ (lengths-Adds k e (lengths_of e) b n t d i a)))
        (cksum-Adds k e h b) in
    let x = whole e [] (Headed-self k e h next sections v) done in
    let at : (emit_hdr e h).1.out ≡ x.out = ap (λ t. t.out) x.made in
    record {
      file = file;
      is_file = is_file;
      source = source;
      is_source = is_source;
      indicator = win_ind used b;
      is_indicator = win_ind-Indicates used b;
      cksum = cksum_bytes h e.next_in b;
      is_cksum = cksum_bytes-CksumBytes h e.next_in b;
      len = enc_len (lengths_of e) b;
      len_read = n;
      tgt = t;
      adds = d;
      inst = i;
      addr = a;
      wrote =
          ap (λ o. k.holds o Sect.hdr) at
          ∙ x.wrote
          ∙ ap (λ t. k.holds e.out Sect.hdr ++ t)
              (regroup file source n.bytes t.bytes d.bytes i.bytes a.bytes
                (cksum_bytes h e.next_in b) (win_ind used b));
      others = λ s ne. ap (λ o. k.holds o s) at ∙ x.keeps.other s ne;
      all = declared k e h next sections t d i a b;
    }
