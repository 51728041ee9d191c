-- ===== src/Encoder.antt =====
-- xdelta3/xdelta3.c: the encoder's instructions on their way to the output sections
-- (xd3_srcwin_setup, xd3_emit_single, xd3_emit_double, xd3_iopt_finish_encoding, xd3_iopt_add,
-- xd3_iopt_add_encoding, xd3_iopt_add_finalize). A `usize_t` has 64 bits and an `xoff_t` 32.
mod Runs
pub mod Buffer
pub mod Slots
pub mod Matches
pub mod Halves
pub mod Instructions
pub mod Operands
pub mod Copies
pub mod Codes
pub mod Queue
pub mod Finish
pub mod Sequence
pub mod Cuts
pub mod Compact
pub mod Parts
pub mod RoundTrip
pub mod Writes
pub mod Errors
pub mod Push
pub mod Counts
pub mod Header
pub mod HeaderParts
pub mod Declared
use swift_xdelta.Prelude.{
  ℕ, zero, suc, ◌+◌, ◌-◌, ◌*◌, ◌/◌, ◌%◌, ◌^◌, ◌&&◌, ◌||◌, not, Bool, true, false, Option, none,
  some, List, [], ◌∷◌,
}
use swift_xdelta.Prelude.{ltb, leb, ◌==◌, if◌then◌else◌, take, drop, length, Result, ok, err}
use swift_xdelta.Integer.{xoff_mod}
use swift_xdelta.Sink.{Sect, Sink, emit_size}
use swift_xdelta.AddrCache.{usize_mod, Cache, AddressOut, encode_address}
use swift_xdelta.CodeTable.{xd3_add, xd3_run, xd3_cpy, Rinst, choose_instruction}
use swift_xdelta.CodeTable.Entries.{entry}
use swift_xdelta.Source.{Source}

-- `xd3_encode_state`
pub data EncState : Type 0 where
  enc_init enc_input enc_search enc_instr enc_flush enc_postout enc_postwin enc_aborted : EncState

abbrev pub is_instr : EncState → Bool
is_instr enc_instr = true
is_instr _ = false

-- The statistics `n_scpy` to `l_add`.
pub record Stats : Type 0 where
  pub n_scpy : ℕ
  pub n_tcpy : ℕ
  pub n_add : ℕ
  pub n_run : ℕ
  pub l_scpy : ℕ
  pub l_tcpy : ℕ
  pub l_add : ℕ
  pub l_run : ℕ

-- `xd3_stream`, what the instructions use of it. `next_in` has the `avail_in` bytes of the window;
-- `srcbase` and `srclen` are fields of the source. The two lists of the instruction buffer are given
-- from the front for `iopt_used` and from the back for `iopt_free`.
pub record Encoder (k : Sink) : Type 0 where
  pub out : k.Out
  pub acache : Cache
  pub next_in : List ℕ
  pub unencoded_offset : ℕ
  pub iout : Option Rinst
  pub iopt_used : List Rinst
  pub iopt_free : List Rinst
  pub iopt_size : ℕ
  pub iopt_unlimited : Bool
  pub i_slots_used : ℕ
  pub enc_state : EncState
  pub taroff : ℕ
  pub src : Option Source
  pub srcbase : ℕ
  pub srclen : ℕ
  pub srcwin_decided : Bool
  pub srcwin_decided_early : Bool
  pub srcwin_cksum_pos : ℕ
  pub match_minaddr : ℕ
  pub match_maxaddr : ℕ
  pub stats : Stats

-- What a call returns, and the stream that it leaves.
abbrev pub Call : Sink → Type 0 → Type 0
Call k A = Result A × Encoder k

infixl 5 ◌>>>◌
abbrev pub ◌>>>◌ : {k : Sink} {A B : Type 0} → Call k A → (A → Encoder k → Call k B) → Call k B
(err x, e) >>> next = (err x, e)
(ok a, e) >>> next = next a e

-- xd3_source_eof
unfoldable pub source_eof : Source → ℕ
source_eof s = (s.max_blkno * 2 ^ s.shiftby + s.onlastblk) % xoff_mod

abbrev max : ℕ → ℕ → ℕ
max a b = if ltb a b then b else a

abbrev pub least : ℕ → ℕ → ℕ
least a b = if ltb a b then a else b

-- The length is an `xoff_t`, which is never more than USIZE_T_MAX, so there is no error.
unfoldable pub guess_srclen : ℕ → ℕ → Source → ℕ → ℕ
guess_srclen len avail_in s srcbase =
    let wide = max len ((avail_in + avail_in / 4) % usize_mod) in
    if s.eof_known then least wide ((source_eof s + xoff_mod - srcbase) % xoff_mod) else wide

-- The label `done`.
abbrev with_window : {k : Sink} → Encoder k → ℕ → ℕ → Encoder k
with_window e base len = record e {
  srcwin_decided = true;
  srcbase = base;
  srclen = len;
  taroff = len;
}

unfoldable pub srcwin_setup : {k : Sink} → Encoder k → Source → Encoder k
srcwin_setup e s =
    let len = (e.match_maxaddr + xoff_mod - e.match_minaddr) % xoff_mod in
    if is_instr e.enc_state && e.match_maxaddr == 0
    then with_window e e.srcbase e.srclen
    else if is_instr e.enc_state
    then with_window e e.match_minaddr len
    else with_window e e.match_minaddr (guess_srclen len (length e.next_in) s e.match_minaddr)

-- `& HDR_TAIL`, `& DATA_TAIL`, `& INST_TAIL` or `& ADDR_TAIL`, written to.
with_out : {k : Sink} → Encoder k → Result (Unit {0}) × k.Out → Call k (Unit {0})
with_out e (r, o) = (r, record e { out = o })

unfoldable pub put : {k : Sink} → Encoder k → Sect → List ℕ → Call k (Unit {0})
unfolding with_out
put {k} e s bytes = with_out e (k.emit e.out s bytes)

unfoldable pub put_size : {k : Sink} → Encoder k → Sect → ℕ → Call k (Unit {0})
unfolding with_out
put_size {k} e s num = with_out e (emit_size k e.out s num)

unfoldable pub emit_single : {k : Sink} → Encoder k → Rinst → ℕ → Call k (Unit {0})
emit_single e single code = put e Sect.inst (code ∷ []) >>> λ u e.
    if (entry code).size1 == 0 then put_size e Sect.inst single.size else (ok tt, e)

-- The instructions themselves are used by the assertions only.
unfoldable pub emit_double : {k : Sink} → Encoder k → ℕ → Call k (Unit {0})
emit_double e code = put e Sect.inst (code ∷ [])

abbrev pub scpy : Stats → ℕ → Stats
scpy s size = record s { n_scpy = (s.n_scpy + 1) % xoff_mod; l_scpy = (s.l_scpy + size) % xoff_mod }

abbrev pub tcpy : Stats → ℕ → Stats
tcpy s size = record s { n_tcpy = (s.n_tcpy + 1) % xoff_mod; l_tcpy = (s.l_tcpy + size) % xoff_mod }

abbrev pub run_counted : Stats → ℕ → Stats
run_counted s size = record s {
  n_run = (s.n_run + 1) % xoff_mod;
  l_run = (s.l_run + size) % xoff_mod;
}

abbrev pub add_counted : Stats → ℕ → Stats
add_counted s size = record s {
  n_add = (s.n_add + 1) % xoff_mod;
  l_add = (s.l_add + size) % xoff_mod;
}

unfoldable pub decide_source : {k : Sink} → Encoder k → Source → Encoder k
decide_source e s =
    if e.srcwin_decided
    then record e {
      srcwin_decided_early = not s.eof_known || ltb e.srcwin_cksum_pos (source_eof s);
    }
    else srcwin_setup e s

-- The address to encode: within the source window, or behind it.
unfoldable pub source_addr : {k : Sink} → Encoder k → Rinst → ℕ × Encoder k
source_addr e inst =
    if inst.xtra == 0
    then ((e.taroff + inst.addr) % usize_mod, record e { stats = tcpy e.stats inst.size })
    else (
      (inst.addr + xoff_mod - e.srcbase) % xoff_mod,
      record e { stats = scpy e.stats inst.size },
    )

unfoldable pub copy_addr : {k : Sink} → Encoder k → Rinst → Option Source → ℕ × Encoder k
copy_addr e inst none = (inst.addr, record e { stats = tcpy e.stats inst.size })
copy_addr e inst (some s) = source_addr (decide_source e s) inst

with_type : Rinst → Result ℕ → Result Rinst
with_type inst (err x) = err x
with_type inst (ok type) = ok (record inst { type = type })

with_address : {k : Sink} → Encoder k → Rinst → AddressOut k → Call k Rinst
unfolding with_type
with_address e inst r = (with_type inst r.status, record e { out = r.out; acache = r.cache })

unfoldable pub put_copy : {k : Sink} → Encoder k → Rinst → Call k Rinst
unfolding with_address with_type
put_copy {k} e inst =
    let (addr, e1) = copy_addr e inst e.src in
    with_address e1 inst
      (encode_address k e1.out e1.acache addr ((inst.pos + e1.taroff) % usize_mod) inst.type)

unfoldable pub put_run : {k : Sink} → Encoder k → Rinst → Call k Rinst
put_run e inst = put e Sect.adds (inst.xtra ∷ []) >>> λ u e.
    (ok inst, record e { stats = run_counted e.stats inst.size })

unfoldable pub put_add : {k : Sink} → Encoder k → Rinst → Call k Rinst
put_add e inst = put e Sect.adds (take inst.size (drop inst.pos e.next_in)) >>> λ u e.
    (ok inst, record e { stats = add_counted e.stats inst.size })

-- `switch (inst->type)`
unfoldable pub put_operands : {k : Sink} → Encoder k → Rinst → Call k Rinst
put_operands e inst =
    if inst.type == xd3_cpy
    then put_copy e inst
    else if inst.type == xd3_run
    then put_run e inst
    else if inst.type == xd3_add
    then put_add e inst
    else (ok inst, e)

unfoldable pub free_nonadd : {k : Sink} → Encoder k → Rinst → Encoder k
free_nonadd e i = record e {
  iopt_free = if i.type == xd3_add then e.iopt_free else i ∷ e.iopt_free;
}

-- Behind XD3_CHOOSE_INSTRUCTION: what it left of `iout`, and of the instruction.
unfoldable pub queue_single : {k : Sink} → Encoder k → Rinst → Rinst → Call k (Unit {0})
queue_single e prev inst = emit_single e prev prev.code1 >>> λ u e.
    (ok tt, record (free_nonadd e prev) { iout = some inst })

unfoldable pub queue_double : {k : Sink} → Encoder k → Rinst → Rinst → Call k (Unit {0})
queue_double e prev inst = emit_double e prev.code2 >>> λ u e.
    (ok tt, record (free_nonadd (free_nonadd e prev) inst) { iout = none })

unfoldable pub queue : {k : Sink} → Encoder k → Option Rinst × Rinst → Call k (Unit {0})
queue e (none, inst) = (ok tt, record e { iout = some inst })
queue e (some prev, inst) =
    if prev.code2 == 0
    then queue_single (record e { iout = some prev }) prev inst
    else queue_double (record e { iout = some prev }) prev inst

unfoldable pub finish_encoding : {k : Sink} → Encoder k → Rinst → Call k (Unit {0})
finish_encoding e inst = put_operands e inst >>> λ inst e.
    queue (record e { unencoded_offset = (e.unencoded_offset + inst.size) % usize_mod })
      (choose_instruction e.iout (record inst { code2 = 0 }))

-- `iadd` is on the stack, and its other fields are not set.
unfoldable pub iopt_add : {k : Sink} → Encoder k → ℕ → Rinst → Call k (Unit {0})
iopt_add e pos iadd =
    if ltb e.unencoded_offset pos
    then finish_encoding e
        (record iadd { type = xd3_add; pos = e.unencoded_offset; size = pos - e.unencoded_offset })
    else (ok tt, e)

unfoldable pub add_encoding : {k : Sink} → Encoder k → Rinst → Rinst → Call k (Unit {0})
add_encoding e iadd inst = iopt_add e inst.pos iadd >>> λ u e. finish_encoding e inst

flush_iout : {k : Sink} → Encoder k → Option Rinst → Call k (Unit {0})
flush_iout e none = (ok tt, e)
flush_iout e (some i) =
    emit_single e i i.code1 >>> λ u e. (ok tt, record (free_nonadd e i) { iout = none })

unfoldable pub add_finalize : {k : Sink} → Encoder k → Rinst → Call k (Unit {0})
unfolding flush_iout
add_finalize e iadd = iopt_add e (length e.next_in) iadd >>> λ u e. flush_iout e e.iout
