-- ===== src/Decoder/Lengths.antt =====
-- xdelta3/xdelta3-decode.h: the states of xd3_decode_input for a window's lengths and checksum, and
-- the switch over all header states.
use swift_xdelta.Prelude.{
  ℕ, ◌+◌, ◌-◌, ◌*◌, ◌%◌, ◌^◌, not, ◌&&◌, List, ltb, ◌==◌, if◌then◌else◌, get_or, bit_or,
}
use swift_xdelta.Prelude.{invalid_input, gotheader, winstart}
use swift_xdelta.Integer.{uint64, sizeof_integer}
use swift_xdelta.AddrCache.{usize_mod}
use swift_xdelta.Window.Setup.{hardmaxwinsize}
use swift_xdelta.Decoder.{
  State, Stream, Outcome, M, ◌>>=◌, ◌>>◌, modify, fail_if, when, goto, byte, bytes, size, offset,
}
use swift_xdelta.Decoder.Header.{
  has_bit, invalid_bits, srcortgt, xoff_overflow, step_vchead, step_hdrind, step_secondid,
  step_tablen, step_near, step_same, step_tabdat, step_applen, step_appdat, step_winind,
}

unfoldable pub copy_length : M (Unit {0})
copy_length = do v ← size; modify λ s. record s { cpylen = v }

unfoldable pub step_cpylen : M (Unit {0})
unfolding copy_length
step_cpylen = do
  when (λ s. srcortgt s.win_ind) copy_length
  goto State.cpyoff
  modify λ s. record s { position = s.cpylen }

unfoldable pub copy_offset : M (Unit {0})
copy_offset = do v ← offset; modify λ s. record s { cpyoff = v }

unfoldable pub step_cpyoff : M (Unit {0})
unfolding copy_offset
step_cpyoff = do
  when (λ s. srcortgt s.win_ind) copy_offset
  goto State.enclen
  fail_if (λ s. xoff_overflow s.cpyoff s.cpylen) invalid_input
  fail_if (λ s. has_bit s.win_ind 2 && ltb s.winstart ((s.cpyoff + s.cpylen) % usize_mod))
      invalid_input

unfoldable pub step_enclen : M (Unit {0})
step_enclen = do v ← size; modify λ s. record s { enclen = v; state = State.tgtlen }

unfoldable pub step_tgtlen : M (Unit {0})
step_tgtlen = do
  v ← size
  modify λ s. record s { tgtlen = v; state = State.delind }
  fail_if (λ s. ltb (usize_mod - 1 - s.cpylen) s.tgtlen) invalid_input
  fail_if (λ s. ltb hardmaxwinsize s.tgtlen) invalid_input
  modify λ s. record s { maxpos = (s.cpylen + s.tgtlen) % usize_mod }

-- `stream->sec_type` is NULL in this configuration.
unfoldable pub step_delind : M (Unit {0})
step_delind = do
  b ← byte
  modify λ s. record s { del_ind = b; state = State.datalen }
  fail_if (λ s. has_bit s.del_ind invalid_bits) invalid_input
  fail_if (λ s. not (s.del_ind == 0)) invalid_input

unfoldable pub step_datalen : M (Unit {0})
step_datalen = do
  v ← size
  modify λ s. record s { data_sect = record s.data_sect { size = v }; state = State.instlen }

unfoldable pub step_instlen : M (Unit {0})
step_instlen = do
  v ← size
  modify λ s. record s { inst_sect = record s.inst_sect { size = v }; state = State.addrlen }

unfoldable pub step_addrlen : M (Unit {0})
step_addrlen = do
  v ← size
  modify λ s. record s { addr_sect = record s.addr_sect { size = v }; state = State.cksum }

-- `dec_adler32 << 8 | dec_cksum[i]`, four times, in a `uint32_t`
pub shift_byte : ℕ → ℕ → ℕ
shift_byte a b = bit_or (a * 2 ^ 8 % 2 ^ 32) b

unfoldable pub shift_bytes : ℕ → List ℕ → ℕ
shift_bytes a c =
    shift_byte (shift_byte (shift_byte (shift_byte a (get_or c 0 0)) (get_or c 1 0)) (get_or c 2 0))
      (get_or c 3 0)

unfoldable pub window_cksum : M (Unit {0})
unfolding shift_bytes shift_byte
window_cksum = do
  bytes (λ s. s.cksum) (λ b s. record s { cksum = b }) (λ s. 4)
  modify λ s. record s { adler32 = shift_bytes s.adler32 s.cksum }

unfoldable pub sizeof_size : ℕ → ℕ
sizeof_size = sizeof_integer uint64

-- The length that `dec_enclen` has to have.
unfoldable pub enclen_check : Stream → ℕ
unfolding sizeof_size
enclen_check s =
    (1
      + sizeof_size s.tgtlen
      + sizeof_size s.data_sect.size
      + sizeof_size s.inst_sect.size
      + sizeof_size s.addr_sect.size
      + s.data_sect.size
      + s.inst_sect.size
      + s.addr_sect.size
      + (if has_bit s.win_ind 4 then 4 else 0))
    % usize_mod

-- The return gives the application a chance to see the header.
unfoldable pub header_done : M (Unit {0})
header_done s = Outcome.stop (if s.current_window == 0 then gotheader else winstart) s

unfoldable pub step_cksum : M (Unit {0})
unfolding window_cksum enclen_check header_done
step_cksum = do
  when (λ s. has_bit s.win_ind 4) window_cksum
  goto State.sect_data
  fail_if (λ s. not (s.enclen == enclen_check s)) invalid_input
  header_done

-- The cases of the switch, each falling through to the next.
unfoldable pub from_addrlen : M (Unit {0})
from_addrlen = do step_addrlen; step_cksum

unfoldable pub from_instlen : M (Unit {0})
from_instlen = do step_instlen; from_addrlen

unfoldable pub from_datalen : M (Unit {0})
from_datalen = do step_datalen; from_instlen

unfoldable pub from_delind : M (Unit {0})
from_delind = do step_delind; from_datalen

unfoldable pub from_tgtlen : M (Unit {0})
from_tgtlen = do step_tgtlen; from_delind

unfoldable pub from_enclen : M (Unit {0})
from_enclen = do step_enclen; from_tgtlen

unfoldable pub from_cpyoff : M (Unit {0})
from_cpyoff = do step_cpyoff; from_enclen

unfoldable pub from_cpylen : M (Unit {0})
from_cpylen = do step_cpylen; from_cpyoff

unfoldable pub from_winind : M (Unit {0})
from_winind = do step_winind; from_cpylen

unfoldable pub from_appdat : M (Unit {0})
from_appdat = do step_appdat; from_winind

unfoldable pub from_applen : M (Unit {0})
from_applen = do step_applen; from_appdat

unfoldable pub from_tabdat : M (Unit {0})
from_tabdat = do step_tabdat; from_applen

unfoldable pub from_same : M (Unit {0})
from_same = do step_same; from_tabdat

unfoldable pub from_near : M (Unit {0})
from_near = do step_near; from_same

unfoldable pub from_tablen : M (Unit {0})
from_tablen = do step_tablen; from_near

unfoldable pub from_secondid : M (Unit {0})
from_secondid = do step_secondid; from_tablen

unfoldable pub from_hdrind : M (Unit {0})
from_hdrind = do step_hdrind; from_secondid

unfoldable pub from_vchead : M (Unit {0})
from_vchead = do step_vchead; from_hdrind

-- `switch (stream->dec_state)`; the states behind the header go to `after`.
unfoldable pub header_case : M (Unit {0}) → State → M (Unit {0})
header_case after State.vchead = from_vchead
header_case after State.hdrind = from_hdrind
header_case after State.secondid = from_secondid
header_case after State.tablen = from_tablen
header_case after State.near = from_near
header_case after State.same = from_same
header_case after State.tabdat = from_tabdat
header_case after State.applen = from_applen
header_case after State.appdat = from_appdat
header_case after State.winind = from_winind
header_case after State.cpylen = from_cpylen
header_case after State.cpyoff = from_cpyoff
header_case after State.enclen = from_enclen
header_case after State.tgtlen = from_tgtlen
header_case after State.delind = from_delind
header_case after State.datalen = from_datalen
header_case after State.instlen = from_instlen
header_case after State.addrlen = from_addrlen
header_case after State.cksum = step_cksum
header_case after other = after

unfoldable pub decode_header : M (Unit {0}) → M (Unit {0})
unfolding header_case
decode_header after s = header_case after s.state s
