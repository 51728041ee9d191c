-- ===== src/Encoder/RoundTrip.antt =====
-- What the encoder writes of a window's instructions, decoded by xd3_decode_emit.
use swift_xdelta.Prelude.{
  ℕ, ◌+◌, ◌<◌, ◌≡◌, refl, sym, arith, inl, inr, Bool-cases, true, false, not, ◌&&◌, Option, none,
  List, [], ◌∷◌, append-nil, length, take, ◌==◌, ok,
}
use swift_xdelta.Integer.{xoff_mod}
use swift_xdelta.Sink.{Sect, Sink}
use swift_xdelta.AddrCache.{Cache}
use swift_xdelta.CodeTable.{Rinst, xd3_noop}
use swift_xdelta.Adler.{adler32}
use swift_xdelta.Source.{Getblk}
use swift_xdelta.Window.{Window, moved}
use swift_xdelta.Window.Emit.{check_window, checked, decode_emit}
use swift_xdelta.Encoder.{Encoder}
use swift_xdelta.Encoder.Matches.{take-all}
use swift_xdelta.Encoder.Halves.{win, IsFor}
use swift_xdelta.Encoder.Instructions.{Leads, here, emit_loop-Leads}
use swift_xdelta.Encoder.Operands.{Ready}
use swift_xdelta.Encoder.Queue.{Inv}
use swift_xdelta.Encoder.Sequence.{Told-all, flushed-Told}
use swift_xdelta.Encoder.Buffer.{compact_used, flush_instructions, encode_instr}
use swift_xdelta.Encoder.Compact.{AllBehind, compact_used-Follows}
use swift_xdelta.Encoder.Cuts.{AreOrdered}

-- The decoder's window asks for the target `bs`.
pub record Asks (bs : List ℕ) (b : Window) : Type 0 where
  pub for : IsFor bs b
  pub tgtlen : b.tgtlen ≡ length bs
  pub cksum : b.checks_adler32 ≡ true → adler32 1 bs ≡ b.adler32
  pub idle1 : b.current1.type ≡ xd3_noop
  pub idle2 : b.current2.type ≡ xd3_noop

-- An encoder that has written nothing of its window.
pub record IsStart (k : Sink) (client : Option Getblk) (b : Window) (bs : List ℕ) (e : Encoder k)
    : Type 0 where
  pub ready : Ready k client b bs e
  pub no_iout : e.iout ≡ none
  pub offset : e.unencoded_offset ≡ 0
  pub no_inst : k.holds e.out Sect.inst ≡ []
  pub no_adds : k.holds e.out Sect.adds ≡ []
  pub no_addr : k.holds e.out Sect.addr ≡ []

-- The window with what is in the sections, to be decoded from its start with the cache `c`.
abbrev pub sent : (k : Sink) → Window → Cache → k.Out → Window
sent k b c o =
    win b (k.holds o Sect.inst) (k.holds o Sect.adds) (k.holds o Sect.addr) c b.cpylen [] b.current1
      b.current2

-- The window decodes to the target.
pub record Decodes (client : Option Getblk) (w : Window) (bs : List ℕ) : Type 0 where
  pub last : Window
  pub ends : decode_emit client w ≡ moved last
  pub out : last.out ≡ bs

pub AllBehind-zero : (is : List Rinst) → AllBehind 0 is
unfolding AllBehind
AllBehind-zero [] = tt
AllBehind-zero (i ∷ is) = omega arith

module _ (k : Sink) (client : Option Getblk) (b : Window) (bs : List ℕ) (asks : Asks bs b) where
  pub Inv-start :
      (e : Encoder k)
      → IsStart k client b bs e
      → Inv k client b bs e.acache b.current1 b.current2 0 e
  Inv-start e s = record {
    ready = s.ready;
    q = 0;
    cache = e.acache;
    d = [];
    a = [];
    pd = [];
    pa = [];
    pending = rw s.no_iout (sym s.offset, refl, refl, refl);
    adds = s.no_adds;
    addr = s.no_addr;
    told = record {
      h1 = b.current1;
      h2 = b.current2;
      idle1 = asks.idle1;
      idle2 = asks.idle2;
      leads = λ i d a.
          let zero : b.cpylen + 0 ≡ b.cpylen = omega arith in
          rw (s.no_inst, zero) (here (win b i d a e.acache b.cpylen [] b.current1 b.current2));
    };
    offset = s.offset;
    bound = omega arith;
  }

  -- The checks behind the loop hold.
  Decodes-all :
      (c : Cache) (e : Encoder k)
      → Told-all k client b bs c b.current1 b.current2 asks.for e
      → Decodes client (sent k b c e.out) bs
  unfolding decode_emit checked check_window
  Decodes-all c e t =
      let i = k.holds e.out Sect.inst in
      let d = k.holds e.out Sect.adds in
      let a = k.holds e.out Sect.addr in
      let whole : take (length bs) bs ≡ bs = take-all bs in
      let v = win b [] [] [] t.cache (b.cpylen + length bs) bs t.told.h1 t.told.h2 in
      let leads : Leads client (sent k b c e.out) v =
        rw (append-nil i, append-nil d, append-nil a, whole) at (t.told.leads [] [] []) in
      let loop =
        emit_loop-Leads client (sent k b c e.out) v (length i + 2) leads refl t.told.idle1
          t.told.idle2 (omega arith) in
      let long : (length bs == b.tgtlen) ≡ true = ground (arith, asks.tgtlen) in
      record { last = v; ends = rw (loop, long, good) refl; out = refl }
    where
      good : (b.checks_adler32 && not (adler32 1 bs == b.adler32)) ≡ false
      good = elim (Bool-cases b.checks_adler32) [
        | inl on ↦
            let same : (adler32 1 bs == b.adler32) ≡ true = ground (arith, asks.cksum on) in
            rw (on, same) refl
        | inr unused ↦ rw unused refl
      ]

-- An encoder that has written nothing of a window, whose source, if it has one, has its window
-- decided: the buffer has copies within the target and runs, each right for the target, that start and
-- end one behind the other. If the state ENC_INSTR ends without an error, xd3_decode_emit decodes
-- what the three sections then hold, from the same cache, without an error, and to the target.
pub decode_emit-encode_instr :
    (k : Sink) (client : Option Getblk) (b : Window) (bs : List ℕ) (e : Encoder k) (iadd : Rinst)
    → Asks bs b
    → IsStart k client b bs e
    → length bs < xoff_mod
    → AreOrdered bs e.iopt_used
    → (encode_instr iadd e).0 ≡ ok tt
    → Decodes client (sent k b e.acache (encode_instr iadd e).1.out) bs
unfolding encode_instr flush_instructions
decode_emit-encode_instr k client b bs e iadd asks s small ordered done =
    let (used, free) = compact_used true e.iopt_used e.iopt_free in
    Decodes-all k client b bs asks e.acache _ (
      flushed-Told k client b bs e.acache b.current1 b.current2 asks.for 0 e used free iadd
        (Inv-start k client b bs asks e s)
        (compact_used-Follows bs 0 e.iopt_used e.iopt_free small ordered
          (AllBehind-zero e.iopt_used))
        done)
