-- ===== src/Decoder.antt =====
-- xdelta3/xdelta3-decode.h: the state of the decoder between calls, and the ways in which
-- xd3_decode_input reads its input (xd3_decode_byte, xd3_decode_bytes, xd3_decode_size,
-- xd3_decode_offset). A `usize_t` has 64 bits and an `xoff_t` 32.
mod Runs
pub mod Header
pub mod Lengths
pub mod Resume
pub mod Readers
pub mod Numbers
pub mod Steps
pub mod AppHeader
pub mod Leads
pub mod Entry
pub mod Chunks
pub mod Calls
pub mod Sections
pub mod Body
pub mod Keeping
pub mod Reading
pub mod Ready
pub mod Whole
pub mod Retaining
pub mod Retained
pub mod Awaiting
pub mod Ends
pub mod Fresh
pub mod Taking
pub mod Taken
use swift_xdelta.Prelude.{ℕ, ◌+◌, ◌%◌, Bool, List, [], ◌∷◌, ◌++◌, length, ltb, if◌then◌else◌}
use swift_xdelta.Prelude.{Rvalue, Result, ok, err, input, true, false}
use swift_xdelta.Integer.{Width, uint32, uint64, Input, Decoded, decode_integer, xoff_mod}
use swift_xdelta.AddrCache.{Cache}
use swift_xdelta.Source.{Source}
use swift_xdelta.Window.{Hinst}

-- `xd3_decode_state`
pub data State : Type 0 where
  vchead hdrind secondid tablen near same tabdat applen appdat winind cpylen cpyoff : State
  enclen tgtlen delind datalen instlen addrlen cksum sect_data sect_inst sect_addr : State
  emit finish aborted : State

-- `xd3_desect`. `buf` is what has been read of the section, and then what stands from its `buf` up
-- to its `buf_max`; `has_copied` is whether there is a buffer of `alloc1` bytes.
pub record Desect : Type 0 where
  pub size : ℕ
  pub pos : ℕ
  pub buf : List ℕ
  pub has_copied : Bool
  pub alloc1 : ℕ

-- `xd3_stream`, what the decoder uses of it. A buffer with its position is the list of the
-- bytes that are in it. `answers` is what the allocator answers to the calls to come, memory or
-- NULL; it answers NULL when the list is used up.
-- The `has_` fields tell pointers from NULL. `encoding` is `enc_state != 0`.
pub record Stream : Type 0 where
  pub inp : Input
  pub state : State
  pub part32 : ℕ
  pub part64 : ℕ
  pub magic : List ℕ
  pub hdr_ind : ℕ
  pub secondid : ℕ
  pub codetblsz : ℕ
  pub acache : Cache
  pub appheadsz : ℕ
  pub has_appheader : Bool
  pub appheader : List ℕ
  pub hdrsize : ℕ
  pub answers : List Bool
  pub win_ind : ℕ
  pub current_window : ℕ
  pub window_count : ℕ
  pub winstart : ℕ
  pub cpylen : ℕ
  pub cpyoff : ℕ
  pub position : ℕ
  pub enclen : ℕ
  pub tgtlen : ℕ
  pub maxpos : ℕ
  pub del_ind : ℕ
  pub data_sect : Desect
  pub inst_sect : Desect
  pub addr_sect : Desect
  pub cksum : List ℕ
  pub adler32 : ℕ
  pub winbytes : ℕ
  pub just_hdr : Bool
  pub skip_window : Bool
  pub skip_emit : Bool
  pub adler32_nover : Bool
  pub encoding : Bool
  pub current1 : Hinst
  pub current2 : Hinst
  pub out : List ℕ
  pub has_next_out : Bool
  pub space_out : ℕ
  pub total_out : ℕ
  pub has_lastwin : Bool
  pub lastspace : ℕ
  pub lastlen : ℕ
  pub laststart : ℕ
  pub has_src : Bool
  pub src : Source

-- A part of the function goes on, or the function returns.
pub data Outcome {ℓ} (A : Type ℓ) : Type ℓ where
  done : A → Stream → Outcome A
  stop : Rvalue → Stream → Outcome A

abbrev pub M {ℓ} : Type ℓ → Type ℓ
M A = Stream → Outcome A

abbrev pub then_do {ℓ κ} : {A : Type ℓ} {B : Type κ} → (A → M B) → Outcome A → Outcome B
then_do f (done a s) = f a s
then_do f (stop e s) = stop e s

infixl 5 ◌>>=◌ ◌>>◌
abbrev pub ◌>>=◌ {ℓ κ} : {A : Type ℓ} {B : Type κ} → M A → (A → M B) → M B
◌>>=◌ m f s = then_do f (m s)

abbrev pub ◌>>◌ {ℓ κ} : {A : Type ℓ} {B : Type κ} → M A → M B → M B
◌>>◌ m k s = then_do (λ a. k) (m s)

abbrev pub modify : (Stream → Stream) → M (Unit {0})
modify f s = done tt (f s)

-- `if (test) { return e; }`
abbrev pub fail_if : (Stream → Bool) → Rvalue → M (Unit {0})
fail_if test e s = if test s then stop e s else done tt s

abbrev pub return_ {ℓ} : {A : Type ℓ} → Rvalue → M A
return_ e s = stop e s

-- `if (test) { … }`
abbrev pub when : (Stream → Bool) → M (Unit {0}) → M (Unit {0})
when test m s = if test s then m s else done tt s

abbrev pub goto : State → M (Unit {0})
goto σ = modify (λ s. record s { state = σ })

unfoldable pub next_byte : Stream → List ℕ → Outcome ℕ
next_byte s [] = stop input s
next_byte s (b ∷ rest) =
    done b
      (record s { inp = record { next_in = rest; total_in = (s.inp.total_in + 1) % xoff_mod } })

-- xd3_decode_byte
unfoldable pub byte : M ℕ
unfolding next_byte
byte s = next_byte s s.inp.next_in

-- The rounds of xd3_decode_bytes, byte by byte: `*pos` is the length of what is in the buffer.
pub record Gathered : Type 0 where
  pub full : Bool
  pub left : Input
  pub buf : List ℕ

unfoldable pub gather : ℕ → List ℕ → ℕ → List ℕ → Gathered
gather size [] total buf = record {
  full = if ltb (length buf) size then false else true;
  left = record { next_in = []; total_in = total };
  buf = buf;
}
gather size (b ∷ inp) total buf =
    let more = gather size inp ((total + 1) % xoff_mod) (buf ++ b ∷ []) in
    if ltb (length buf) size
    then more
    else record { full = true; left = record { next_in = b ∷ inp; total_in = total }; buf = buf }

unfoldable pub gathered : (List ℕ → Stream → Stream) → Stream → Gathered → Outcome (Unit {0})
gathered put s g = if g.full then done tt s' else stop input s'
  where
    s' : Stream
    s' = put g.buf (record s { inp = g.left })

-- xd3_decode_bytes, into the buffer that `get` and `put` name
unfoldable pub bytes : (Stream → List ℕ) → (List ℕ → Stream → Stream) → (Stream → ℕ) → M (Unit {0})
unfolding gathered
bytes get put size s = gathered put s (gather (size s) s.inp.next_in s.inp.total_in (get s))

unfoldable pub integer_read : (ℕ → Stream → Stream) → Stream → Input → ℕ → Result ℕ → Outcome ℕ
integer_read put s left part (ok v) = done v (put part (record s { inp = left }))
integer_read put s left part (err e) = stop e (put part (record s { inp = left }))

unfoldable pub from_decoded : (ℕ → Stream → Stream) → Stream → Decoded → Outcome ℕ
from_decoded put s d = integer_read put s d.left d.part d.result

-- xd3_decode_size and xd3_decode_offset
unfoldable pub size : M ℕ
unfolding from_decoded integer_read
size s = from_decoded (λ p t. record t { part64 = p }) s (decode_integer uint64 s.inp s.part64)

unfoldable pub offset : M ℕ
unfolding from_decoded integer_read
offset s = from_decoded (λ p t. record t { part32 = p }) s (decode_integer uint32 s.inp s.part32)

-- xd3_alloc: whether there is memory.
unfoldable pub answer : Stream → List Bool → Outcome Bool
answer s [] = done false s
answer s (a ∷ rest) = done a (record s { answers = rest })

unfoldable pub alloc : M Bool
unfolding answer
alloc s = answer s s.answers
