-- ===== src/Decoder/Header.antt =====
-- xdelta3/xdelta3-decode.h: the header states of xd3_decode_input, each up to where it falls through to
-- the next, and their switch. No secondary compressor is configured.
use swift_xdelta.Prelude.{
  ℕ, ◌+◌, ◌-◌, ◌%◌, Bool, true, not, ◌&&◌, ◌||◌, List, [], ◌∷◌, ltb, leb, ◌==◌, if◌then◌else◌,
  get_or, bit_and, replicate, ◌*◌,
}
use swift_xdelta.Prelude.{internal, invalid_input, enomem, unimplemented}
use swift_xdelta.Integer.{xoff_mod}
use swift_xdelta.AddrCache.{usize_mod, Cache, init_cache}
use swift_xdelta.CodeTable.{rfc3284_desc}
use swift_xdelta.Decoder.{
  State, Stream, Outcome, M, ◌>>=◌, ◌>>◌, modify, fail_if, return_, when, goto, byte, bytes, size,
  alloc,
}

-- VCDIFF_MAGIC1, VCDIFF_MAGIC2, VCDIFF_MAGIC3
abbrev pub vcdiff_magic : List ℕ
vcdiff_magic = 0xd6 ∷ 0xc3 ∷ 0xc4 ∷ []

abbrev pub has_bit : ℕ → ℕ → Bool
has_bit x bits = not (bit_and x bits == 0)

-- VCD_INVHDR, VCD_INVWIN and VCD_INVDEL
abbrev pub invalid_bits : ℕ
invalid_bits = 0xfffffff8

-- SRCORTGT: not where both bits are set
abbrev pub srcortgt : ℕ → Bool
srcortgt ind = (bit_and ind 3 == 1) || (bit_and ind 3 == 2)

abbrev pub codetable : Stream → Bool
codetable s = has_bit s.hdr_ind 2

unfoldable pub step_vchead : M (Unit {0})
step_vchead = do
  bytes (λ s. s.magic) (λ b s. record s { magic = b }) (λ s. 4)
  fail_if
      (λ s.
        not (get_or s.magic 0 0 == 0xd6)
        || not (get_or s.magic 1 0 == 0xc3)
        || not (get_or s.magic 2 0 == 0xc4))
      invalid_input
  fail_if (λ s. not (get_or s.magic 3 0 == 0)) invalid_input
  goto State.hdrind

unfoldable pub step_hdrind : M (Unit {0})
step_hdrind = do
  b ← byte
  modify λ s. record s { hdr_ind = b }
  fail_if (λ s. has_bit s.hdr_ind invalid_bits) invalid_input
  goto State.secondid

-- FGK_CASE, DJW_CASE and LZMA_CASE return XD3_INTERNAL in this configuration.
unfoldable pub secondary : M (Unit {0})
secondary = do
  b ← byte
  modify λ s. record s { secondid = b; state = State.tablen }
  fail_if (λ s. (s.secondid == 16) || (s.secondid == 1) || (s.secondid == 2)) internal
  return_ invalid_input

unfoldable pub step_secondid : M (Unit {0})
unfolding secondary
step_secondid = when (λ s. has_bit s.hdr_ind 1) secondary

unfoldable pub table_length : M (Unit {0})
table_length = do v ← size; modify λ s. record s { codetblsz = v }

unfoldable pub step_tablen : M (Unit {0})
unfolding table_length
step_tablen = do
  when codetable table_length
  goto State.near
  fail_if (λ s. codetable s && leb s.codetblsz 2) enomem
  when codetable (modify λ s. record s { codetblsz = s.codetblsz - 2 })

unfoldable pub near_modes : M (Unit {0})
near_modes = do b ← byte; modify λ s. record s { acache = record s.acache { s_near = b } }

unfoldable pub step_near : M (Unit {0})
unfolding near_modes
step_near = do when codetable near_modes; goto State.same

unfoldable pub same_modes : M (Unit {0})
same_modes = do b ← byte; modify λ s. record s { acache = record s.acache { s_same = b } }

unfoldable pub step_same : M (Unit {0})
unfolding same_modes
step_same = do when codetable same_modes; goto State.tabdat

unfoldable pub alloc_array : (Stream → ℕ) → M (Unit {0})
alloc_array modes s = if ltb 0 (modes s) then got s else Outcome.done tt s
  where
    got : M (Unit {0})
    got = alloc >>= λ a. fail_if (λ s. not a) enomem

-- The new arrays. Their memory is as the allocator left it, and xd3_init_cache writes all of it before
-- anything is read; the model has zeros there.
abbrev pub with_arrays : Cache → Cache
with_arrays c = record c {
  near_array = replicate c.s_near 0;
  same_array = replicate (c.s_same * 256) 0;
}

-- xd3_alloc_cache; where memory runs out, the arrays are not used again.
unfoldable pub alloc_cache : M (Unit {0})
unfolding alloc_array
alloc_cache = do
  alloc_array λ s. s.acache.s_near
  alloc_array λ s. s.acache.s_same
  modify λ s. record s { acache = with_arrays s.acache }

unfoldable pub step_tabdat : M (Unit {0})
step_tabdat = do
  fail_if codetable unimplemented
  modify λ s. record s {
    acache = record s.acache { s_near = rfc3284_desc.near_modes; s_same = rfc3284_desc.same_modes };
  }
  alloc_cache
  goto State.applen

abbrev pub appheader_bit : Stream → Bool
appheader_bit s = has_bit s.hdr_ind 4

unfoldable pub appheader_size : M (Unit {0})
appheader_size = do v ← size; modify λ s. record s { appheadsz = v }

unfoldable pub step_applen : M (Unit {0})
unfolding appheader_size
step_applen = do when appheader_bit appheader_size; goto State.appdat

-- The buffer is taken once, with a byte more for the terminating 0.
unfoldable pub appheader_buffer : M (Unit {0})
appheader_buffer = do
  a ← alloc
  fail_if (λ s. not a) enomem
  modify λ s. record s { has_appheader = true }

unfoldable pub appheader_ready : M (Unit {0})
appheader_ready = do
  fail_if (λ s. ltb (usize_mod - 1 - s.appheadsz) 1) invalid_input
  when (λ s. not s.has_appheader) appheader_buffer

unfoldable pub appheader_bytes : M (Unit {0})
unfolding appheader_buffer
appheader_bytes = do
  appheader_ready
  bytes (λ s. s.appheader) (λ b s. record s { appheader = b }) (λ s. s.appheadsz)

unfoldable pub step_appdat : M (Unit {0})
unfolding appheader_bytes
step_appdat = do
  when appheader_bit appheader_bytes
  modify λ s. record s { hdrsize = s.inp.total_in; state = State.winind }

-- xd3_decode_init_window
unfoldable pub init_window : Stream → Stream
init_window s = record s { cpylen = 0; cpyoff = 0; cksum = []; acache = init_cache s.acache }

-- XOFF_T_OVERFLOW: its second argument becomes an `xoff_t`.
abbrev pub xoff_overflow : ℕ → ℕ → Bool
xoff_overflow a b = ltb (xoff_mod - 1 - a) (b % xoff_mod)

unfoldable pub step_winind : M (Unit {0})
unfolding init_window
step_winind = do
  b ← byte
  modify λ s. record s { win_ind = b; current_window = s.window_count }
  fail_if (λ s. xoff_overflow s.winstart s.tgtlen) invalid_input
  modify λ s. record s { winstart = (s.winstart + s.tgtlen) % xoff_mod }
  fail_if (λ s. has_bit s.win_ind invalid_bits) invalid_input
  modify init_window
  goto State.cpylen
