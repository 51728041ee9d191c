-- ===== src/Output.antt =====
-- xdelta3/xdelta3.c: the encoder's output sections, chains of pages from a free list or from the
-- stream's allocator (xd3_alloc_output, xd3_emit_byte, xd3_emit_bytes, xd3_sizeof_output,
-- xd3_freelist_output). A section is the chain from its head; its last page is the tail that the
-- calls write to. The allocator is the application's: what it answers is a parameter of the state.
mod Runs
pub mod Pages
pub mod Emit
pub mod Rounds
pub mod Sections
use swift_xdelta.Prelude.{
  ℕ, zero, suc, ◌+◌, ◌-◌, min, Bool, Option, none, some, List, [], ◌∷◌, ◌++◌,
}
use swift_xdelta.Prelude.{length, set, take, drop, ◌==◌, if◌then◌else◌, Result, ok, err, enomem}

-- `xd3_output`, without its link. `base` is the page's memory.
pub record Page : Type 0 where
  pub base : List ℕ
  pub next : ℕ
  pub avail : ℕ

-- XD3_ALLOCSIZE
abbrev pub alloc_size : ℕ
alloc_size = 16384

-- Memory that the allocator hands out: `size` bytes with contents of its own.
pub memory : ℕ → (ℕ → ℕ) → List ℕ
memory zero g = []
memory (suc size) g = g 0 ∷ memory size (λ i. g (i + 1))

-- `enc_free`, and what the allocator answers to the calls to come: memory, or NULL. It answers NULL
-- when the list is used up.
pub record Pool : Type 0 where
  pub free_list : List Page
  pub answers : List (Option (ℕ → ℕ))

next_answer : ℕ → List (Option (ℕ → ℕ)) → Pool → Option (List ℕ) × Pool
next_answer size [] m = (none, m)
next_answer size (none ∷ rest) m = (none, record m { answers = rest })
next_answer size (some g ∷ rest) m = (some (memory size g), record m { answers = rest })

pub xd3_alloc : Pool → ℕ → Option (List ℕ) × Pool
unfolding next_answer
xd3_alloc m size = next_answer size m.answers m

-- The block for the bytes; where there is none, the block of the struct is given back.
alloc_base : Option (List ℕ) × Pool → Option Page × Pool
alloc_base (none, m) = (none, m)
alloc_base (some base, m) = (some (record { base = base; next = 0; avail = alloc_size }), m)

-- The block for the struct.
alloc_page : Option (List ℕ) × Pool → Option Page × Pool
unfolding xd3_alloc alloc_base
alloc_page (none, m) = (none, m)
alloc_page (some block, m) = alloc_base (xd3_alloc m alloc_size)

-- `sizeof (xd3_output)` on a 64-bit system
abbrev struct_size : ℕ
struct_size = 32

from_free_list : List Page → Pool → Option Page × Pool
unfolding alloc_page xd3_alloc
from_free_list [] m = alloc_page (xd3_alloc m struct_size)
from_free_list (p ∷ rest) m = (some (record p { next = 0 }), record m { free_list = rest })

pub alloc_output : Pool → Option Page × Pool
unfolding from_free_list
alloc_output m = from_free_list m.free_list m

-- The pages before the tail, and the tail.
pub record Section : Type 0 where
  pub full : List Page
  pub tail : Page

-- `output->base[output->next++] = code`
put_byte : Page → ℕ → Page
put_byte p code = record p { base = set p.base p.next code; next = p.next + 1 }

-- `old_output->next_page = output`, and the new page becomes the tail.
abbrev pub link : Section → Page → Section
link s p = record { full = s.full ++ (s.tail ∷ []); tail = p }

abbrev pub put_in_tail : Section → ℕ → Section
unfolding put_byte
put_in_tail s code = record s { tail = put_byte s.tail code }

-- What a call returns, the pool after it, and the section with its tail.
pub record Emitted : Type 0 where
  pub status : Result (Unit {0})
  pub pool : Pool
  pub section : Section

emit_byte_on : Section → ℕ → Option Page × Pool → Emitted
unfolding put_byte
emit_byte_on s code (none, m) = record { status = err enomem; pool = m; section = s }
emit_byte_on s code (some p, m) = record {
  status = ok tt;
  pool = m;
  section = put_in_tail (link s p) code;
}

pub emit_byte : Pool → Section → ℕ → Emitted
unfolding emit_byte_on put_byte alloc_output
emit_byte m s code =
    if s.tail.next == s.tail.avail
    then emit_byte_on s code (alloc_output m)
    else record { status = ok tt; pool = m; section = put_in_tail s code }

-- `memcpy (base + at, bytes, ...)`
pub copy_to : List ℕ → ℕ → List ℕ → List ℕ
copy_to base at [] = base
copy_to base at (b ∷ bytes) = copy_to (set base at b) (at + 1) bytes

abbrev pub room : Page → ℕ
room p = p.avail - p.next

pub fill_page : Page → List ℕ → Page
unfolding copy_to
fill_page p bytes = record p { base = copy_to p.base p.next bytes; next = p.next + length bytes }

-- One round of xd3_emit_bytes on a tail that may be full: the section, and the bytes still to write.
fill_tail : Section → List ℕ → Section × List ℕ
unfolding fill_page
fill_tail s bytes =
    let n = min (room s.tail) (length bytes) in
    (record s { tail = fill_page s.tail (take n bytes) }, drop n bytes)

with_room : Section → Option Page × Pool → Option Section × Pool
with_room s (none, m) = (none, m)
with_room s (some p, m) = (some (link s p), m)

pub make_room : Pool → Section → Option Section × Pool
unfolding with_room alloc_output
make_room m s = if s.tail.next == s.tail.avail then with_room s (alloc_output m) else (some s, m)

-- The test of `do ... while (size > 0)`; `again` is the next round.
after_copy : (Pool → Section → List ℕ → Option Emitted) → Pool → Section × List ℕ → Option Emitted
after_copy again m (t, []) = some (record { status = ok tt; pool = m; section = t })
after_copy again m (t, b ∷ left) = again m t (b ∷ left)

emit_round :
    (Pool → Section → List ℕ → Option Emitted)
    → Section
    → List ℕ
    → Option Section × Pool
    → Option Emitted
unfolding after_copy fill_tail
emit_round again s bytes (none, m) = some (record { status = err enomem; pool = m; section = s })
emit_round again s bytes (some s', m) = after_copy again m (fill_tail s' bytes)

-- The fuel counts rounds; `none` means that it ran out.
unfoldable pub emit_bytes_loop : ℕ → Pool → Section → List ℕ → Option Emitted
unfolding emit_round make_room
emit_bytes_loop zero m s bytes = none
emit_bytes_loop (suc fuel) m s bytes = emit_round (emit_bytes_loop fuel) s bytes (make_room m s)

-- Each round but the first writes a byte at least.
unfoldable pub emit_bytes : Pool → Section → List ℕ → Option Emitted
unfolding emit_bytes_loop
emit_bytes m s bytes = emit_bytes_loop (length bytes + 1) m s bytes

-- `for (; output; output = output->next_page) s += output->next`
sizeof_pages : List Page → ℕ → ℕ
sizeof_pages [] s = s
sizeof_pages (p ∷ ps) s = sizeof_pages ps (s + p.next)

pub sizeof_output : Section → ℕ
unfolding sizeof_pages
sizeof_output o = sizeof_pages (o.full ++ (o.tail ∷ [])) 0

-- Every page goes to the front of the free list in turn, emptied.
pub freelist_output : List Page → Pool → Pool
freelist_output [] m = m
freelist_output (p ∷ ps) m =
    freelist_output ps (record m { free_list = record p { next = 0 } ∷ m.free_list })
