-- ===== src/Encoder/Header.antt =====
-- xdelta3/xdelta3.c: what stands before the sections of a window (xd3_emit_hdr), without a secondary
-- compressor. A `usize_t` has 64 bits.
use swift_xdelta.Prelude.{
  ℕ, ◌+◌, ◌/◌, ◌%◌, ◌^◌, Bool, true, false, ◌||◌, Option, none, some, List, [], ◌∷◌, length,
}
use swift_xdelta.Prelude.{ltb, ◌==◌, if◌then◌else◌, ok}
use swift_xdelta.Integer.{uint64, xoff_mod, sizeof_integer}
use swift_xdelta.Sink.{Sect, Sink}
use swift_xdelta.AddrCache.{usize_mod}
use swift_xdelta.Adler.{adler32}
use swift_xdelta.Source.{Source}
use swift_xdelta.Encoder.{Encoder, Call, ◌>>>◌, put, put_size}

-- The fields of `xd3_stream` that the header uses beside the instructions'. A null `enc_appheader`
-- is `none`.
pub record Heading : Type 0 where
  pub current_window : ℕ
  pub enc_appheader : Option (List ℕ)
  pub flag_adler32 : Bool
  pub flag_adler32_recode : Bool
  pub recode_adler32 : ℕ

abbrev pub use_adler32 : Heading → Bool
use_adler32 h = h.flag_adler32 || h.flag_adler32_recode

-- `ret = xd3_emit_byte (...)` for one byte after another.
unfoldable pub put_each : {k : Sink} → Encoder k → List ℕ → Call k (Unit {0})
put_each e [] = (ok tt, e)
put_each e (b ∷ bs) = put e Sect.hdr (b ∷ []) >>> λ u e. put_each e bs

abbrev pub hdr_ind : Option (List ℕ) → ℕ
hdr_ind none = 0
hdr_ind (some bs) = 4

unfoldable pub put_appheader : {k : Sink} → Encoder k → Option (List ℕ) → Call k (Unit {0})
put_appheader e none = (ok tt, e)
put_appheader e (some bs) = put_size e Sect.hdr (length bs) >>> λ u e. put e Sect.hdr bs

-- `if (stream->current_window == 0)`
unfoldable pub put_file_header : {k : Sink} → Encoder k → Heading → Call k (Unit {0})
put_file_header e h =
    if h.current_window == 0
    then (put_each e (0xd6 ∷ 0xc3 ∷ 0xc4 ∷ 0 ∷ hdr_ind h.enc_appheader ∷ []) >>> λ u e.
        put_appheader e h.enc_appheader)
    else (ok tt, e)

-- xd3_encoder_used_source
unfoldable pub used_source : Option Source → ℕ → Bool
used_source none srclen = false
used_source (some s) srclen = ltb 0 srclen

abbrev pub win_ind : Bool → Bool → ℕ
win_ind source cksum = (if source then 1 else 0) + (if cksum then 4 else 0)

-- xd3_emit_offset: an `xoff_t` has 32 bits, and is written as an integer of 32 bits.
unfoldable pub put_offset : {k : Sink} → Encoder k → Sect → ℕ → Call k (Unit {0})
put_offset e s num = put_size e s (num % xoff_mod)

unfoldable pub put_source_window : {k : Sink} → Encoder k → Bool → Call k (Unit {0})
put_source_window e false = (ok tt, e)
put_source_window e true = put_size e Sect.hdr e.srclen >>> λ u e. put_offset e Sect.hdr e.srcbase

-- The five lengths; what xd3_sizeof_output counts of a section is the length of what it holds.
pub record Lengths : Type 0 where
  pub tgt_len : ℕ
  pub data_len : ℕ
  pub inst_len : ℕ
  pub addr_len : ℕ

unfoldable pub enc_len : Lengths → Bool → ℕ
enc_len l cksum =
    (1
      + (sizeof_integer uint64 l.tgt_len
          + sizeof_integer uint64 l.data_len
          + sizeof_integer uint64 l.inst_len
          + sizeof_integer uint64 l.addr_len)
      + l.data_len
      + l.inst_len
      + l.addr_len
      + (if cksum then 4 else 0))
    % usize_mod

unfoldable pub put_lengths : {k : Sink} → Encoder k → Lengths → Bool → Call k (Unit {0})
put_lengths e l cksum =
    put_size e Sect.hdr (enc_len l cksum)
    >>> (λ u e. put_size e Sect.hdr l.tgt_len)
    >>> (λ u e. put e Sect.hdr (0 ∷ []))
    >>> (λ u e. put_size e Sect.hdr l.data_len)
    >>> (λ u e. put_size e Sect.hdr l.inst_len)
    >>> (λ u e. put_size e Sect.hdr l.addr_len)

abbrev pub big_endian : ℕ → List ℕ
big_endian a32 = a32 / 2 ^ 24 % 256 ∷ a32 / 2 ^ 16 % 256 ∷ a32 / 2 ^ 8 % 256 ∷ a32 % 256 ∷ []

unfoldable pub put_cksum : {k : Sink} → Encoder k → Heading → Bool → Call k (Unit {0})
put_cksum e h false = (ok tt, e)
put_cksum e h true =
    put e Sect.hdr (big_endian (if h.flag_adler32 then adler32 1 e.next_in else h.recode_adler32))

unfoldable pub lengths_of : {k : Sink} → Encoder k → Lengths
lengths_of {k} e = record {
  tgt_len = length e.next_in;
  data_len = length (k.holds e.out Sect.adds);
  inst_len = length (k.holds e.out Sect.inst);
  addr_len = length (k.holds e.out Sect.addr);
}

unfoldable pub emit_hdr : {k : Sink} → Encoder k → Heading → Call k (Unit {0})
unfolding lengths_of
emit_hdr e h =
    let source = used_source e.src e.srclen in
    put_file_header e h
    >>> (λ u e. put e Sect.hdr (win_ind source (use_adler32 h) ∷ []))
    >>> (λ u e. put_source_window e source)
    >>> (λ u e. put_lengths e (lengths_of e) (use_adler32 h))
    >>> (λ u e. put_cksum e h (use_adler32 h))
