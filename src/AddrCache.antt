-- ===== src/AddrCache.antt =====
-- xdelta3/xdelta3.c: the VCDIFF address cache (xd3_init_cache, xd3_update_cache) and the address
-- codec over it (xd3_encode_address, xd3_decode_address). A `usize_t` has 64 bits.
mod Runs
pub mod State
pub mod Reads
pub mod Search
pub mod RoundTrip
pub mod Sections
use swift_xdelta.Prelude.{
  ℕ, zero, suc, ◌+◌, ◌-◌, ◌*◌, ◌/◌, ◌%◌, ◌^◌, bit_and, Bool, true, false, List, [], ◌∷◌, ◌&&◌,
}
use swift_xdelta.Prelude.{ltb, leb, ◌==◌, if◌then◌else◌, get_or, set, Result, ok, err, ◌>>=◌}
use swift_xdelta.Prelude.{input, invalid_input, outside}
use swift_xdelta.Integer.{Width, uint64, read_integer}
use swift_xdelta.Sink.{Sect, Sink, emit_size}

abbrev pub usize_mod : ℕ
usize_mod = 2 ^ 64

-- `xd3_addr_cache`
pub record Cache : Type 0 where
  pub s_near : ℕ
  pub s_same : ℕ
  pub next_slot : ℕ
  pub near_array : List ℕ
  pub same_array : List ℕ

-- `memset` of the first `n` words with 0, in an array that has them.
abbrev pub clear : ℕ → List ℕ → List ℕ
clear zero xs = xs
clear (suc n) [] = []
clear (suc n) (x ∷ xs) = 0 ∷ clear n xs

init_near : Cache → Cache
init_near c =
    if ltb 0 c.s_near
    then record c { near_array = clear c.s_near c.near_array; next_slot = 0 }
    else c

init_same : Cache → Cache
init_same c =
    if ltb 0 c.s_same then record c { same_array = clear (c.s_same * 256) c.same_array } else c

unfoldable pub init_cache : Cache → Cache
unfolding init_near init_same
init_cache c = init_same (init_near c)

update_near : Cache → ℕ → Cache
update_near c addr =
    if ltb 0 c.s_near
    then record c {
      near_array = set c.near_array c.next_slot addr;
      next_slot = (c.next_slot + 1) % c.s_near;
    }
    else c

update_same : Cache → ℕ → Cache
update_same c addr =
    if ltb 0 c.s_same
    then record c { same_array = set c.same_array (addr % (c.s_same * 256)) addr }
    else c

unfoldable pub update_cache : Cache → ℕ → Cache
unfolding update_near update_same
update_cache c addr = update_same (update_near c addr) addr

-- What the search for the smallest integer has found: `bestd` and `bestm`.
pub record Best : Type 0 where
  pub bestd : ℕ
  pub bestm : ℕ

-- SMALLEST_INT, `((x) & ~127U) == 0`. The mask is an unsigned int, and is widened with zeros.
abbrev pub smallest_int : ℕ → Bool
smallest_int x = bit_and x 0xffffff80 == 0

-- `for (i = 0; i < acache->s_near; i += 1)`, with the rounds left; true where it jumps to `good`.
unfoldable pub search_near : ℕ → List ℕ → ℕ → ℕ → Best → Bool × Best
search_near zero near addr i b = (false, b)
search_near (suc rounds) near addr i b =
    let d = addr - get_or near i 0 in
    let found : Best = record { bestd = d; bestm = i + 2 } in
    let on = search_near rounds near addr (i + 1) found in
    let past = search_near rounds near addr (i + 1) b in
    if leb (get_or near i 0) addr && ltb d b.bestd
    then (if smallest_int d then (true, found) else on)
    else past

-- How the address is written: a byte, or an integer of variable length.
pub data Form : Type 0 where
  byte integer : ℕ → Form

abbrev good : Best → ℕ × Form
good b = (b.bestm, integer b.bestd)

-- From the test of the same addresses on.
choose_same : Cache → ℕ → Bool × Best → ℕ × Form
choose_same c addr (true, b) = good b
choose_same c addr (false, b) =
    let d = addr % (c.s_same * 256) in
    if ltb 0 c.s_same && get_or c.same_array d 0 == addr
    then (c.s_near + 2 + d / 256, byte (d % 256))
    else good b

abbrev choose_near : Cache → ℕ → Best → ℕ × Form
unfolding choose_same
choose_near c addr b = choose_same c addr (search_near c.s_near c.near_array addr 0 b)

-- `bestm` and what is written, for VCD_SELF, VCD_HERE, the near and the same addresses in turn.
unfoldable pub choose_mode : Cache → ℕ → ℕ → ℕ × Form
unfolding choose_same
choose_mode c addr here =
    let self : Best = record { bestd = addr; bestm = 0 } in
    let d = (here + usize_mod - addr) % usize_mod in
    let from_here : Best = record { bestd = d; bestm = 1 } in
    if smallest_int addr
    then good self
    else if ltb d addr
    then (if smallest_int d then good from_here else choose_near c addr from_here)
    else choose_near c addr self

-- The status and the new `*mode` (a `uint8_t`), the output, and the cache.
pub record AddressOut (k : Sink) : Type 0 where
  pub status : Result ℕ
  pub out : k.Out
  pub cache : Cache

emit_form : (k : Sink) → k.Out → Form → Result (Unit {0}) × k.Out
emit_form k o (byte b) = k.emit o Sect.addr (b ∷ [])
emit_form k o (integer d) = emit_size k o Sect.addr d

finish_address : (k : Sink) → Cache → ℕ → ℕ → Result (Unit {0}) × k.Out → AddressOut k
finish_address k c a mode (err e, o) = record { status = err e; out = o; cache = c }
finish_address k c a mode (ok u, o) = record {
  status = ok (mode % 256);
  out = o;
  cache = update_cache c a;
}

unfoldable pub encode_address : (k : Sink) → k.Out → Cache → ℕ → ℕ → ℕ → AddressOut k
unfolding finish_address emit_form
encode_address k o c a here mode =
    let (bestm, form) = choose_mode c a here in
    finish_address k c a (mode + bestm) (emit_form k o form)

-- What an array has at an index.
unfoldable pub element : List ℕ → ℕ → Result ℕ
element [] i = err outside
element (x ∷ xs) zero = ok x
element (x ∷ xs) (suc i) = element xs i

unfoldable pub from_near : Result ℕ → ℕ → Result ℕ
from_near near val = near >>= λ a. ok ((val + a) % usize_mod)

-- The address that a value stands for in the modes with an integer.
unfoldable pub resolve : Cache → ℕ → ℕ → ℕ → Result ℕ
unfolding from_near
resolve c here mode val =
    if mode == 0
    then ok val
    else if mode == 1
    then ok ((here + usize_mod - val) % usize_mod)
    else from_near (element c.near_array (mode - 2)) val

-- The value, what is left of the section, and the cache.
pub record AddressIn : Type 0 where
  pub val : ℕ
  pub rest : List ℕ
  pub cache : Cache

-- The address is found, and the cache updated by it.
abbrev pub finish_decode : Cache → List ℕ → ℕ → Result AddressIn
finish_decode c rest val = ok (record { val = val; rest = rest; cache = update_cache c val })

-- A byte of the section is a `uint8_t`.
unfoldable pub take_same : Cache → ℕ → List ℕ → Result AddressIn
take_same c at [] = err invalid_input
take_same c at (b ∷ rest) = element c.same_array (at * 256 + b % 256) >>= finish_decode c rest

unfoldable pub decode_address : Cache → ℕ → ℕ → List ℕ → Result AddressIn
unfolding take_same
decode_address c here mode inp =
    if ltb mode (2 + c.s_near)
    then (do
      (val, rest) ← read_integer uint64 inp
      resolve c here mode val >>= finish_decode c rest)
    else take_same c (mode - (2 + c.s_near)) inp
