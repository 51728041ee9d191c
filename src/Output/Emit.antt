-- ===== src/Output/Emit.antt =====
-- xd3_emit_byte appends to the section, or fails for want of memory; what one copy into its tail does.
use swift_xdelta.Prelude.{ℕ, ◌+◌, ◌≤◌, ◌<◌, ◌≡◌, refl, sym, ap, ◌∙◌, arith}
use swift_xdelta.Prelude.{Option, none, some, List, [], ◌∷◌, ◌++◌, append_assoc, append-nil}
use swift_xdelta.Prelude.{length, All-append, ok, err, enomem}
use swift_xdelta.Output.{
  copy_to, Page, Pool, Section, Emitted, alloc_output, link, put_in_tail, emit_byte, emit_byte_on,
  make_room, with_room, fill_page,
}
use swift_xdelta.Output.Pages.{
  IsPage, IsPool, IsSection, Fresh, contents, page_bytes, pages_bytes, pages_bytes-append,
  alloc_output-Fresh, alloc_output-none, take-copy_to, length-copy_to,
}
use swift_xdelta.Prelude.{Bool-cases, ◌==◌, ◌⊎◌, inl, inr}

-- An empty page behind the tail changes nothing.
contents-link : (s : Section) (p : Page) → p.next ≡ 0 → contents (link s p) ≡ contents s
contents-link s p e =
    rw (e, append-nil, pages_bytes-append)
      (ap (λ t. pages_bytes s.full ++ t) (append-nil (page_bytes s.tail)))

IsSection-link : (s : Section) (p : Page) → IsSection s → IsPage p → IsSection (link s p)
IsSection-link s p h hp = record {
  before = All-append IsPage s.full (s.tail ∷ []) h.before (h.last, tt);
  last = hp;
}

-- What room-making leaves: the same bytes, and a tail that is not full.
pub record Roomy (s s' : Section) (m' : Pool) : Type 0 where
  pub pool : IsPool m'
  pub section : IsSection s'
  pub same : contents s' ≡ contents s
  pub space : s'.tail.next < s'.tail.avail

abbrev pub RoomFor : Section → Option Section × Pool → Type 0
RoomFor s (none, m') = IsPool m'
RoomFor s (some s', m') = Roomy s s' m'

Roomy-link : (s : Section) (p : Page) (m : Pool) → IsSection s → Fresh p m → Roomy s (link s p) m
Roomy-link s p m hs f = record {
  pool = f.pool;
  section = IsSection-link s p hs f.page;
  same = contents-link s p f.empty;
  space = omega (arith, f.empty, f.page);
}

with_room-RoomFor :
    (m : Pool) (s : Section) (r : Option Page × Pool)
    → IsPool m
    → IsSection s
    → alloc_output m ≡ r
    → RoomFor s (with_room s r)
unfolding with_room
with_room-RoomFor m s (none, m') hm hs e = alloc_output-none m m' hm e
with_room-RoomFor m s (some p, m') hm hs e = Roomy-link s p m' hs (alloc_output-Fresh m p m' hm e)

pub make_room-RoomFor :
    (m : Pool) (s : Section) → IsPool m → IsSection s → RoomFor s (make_room m s)
unfolding make_room
make_room-RoomFor m s hm hs = elim (Bool-cases (s.tail.next == s.tail.avail)) [
  | inl full ↦ rw full (with_room-RoomFor m s (alloc_output m) hm hs refl)
  | inr free ↦ rw free (record { pool = hm; section = hs; same = refl; space = ground arith })
]

-- What one copy into the tail does.
pub record Filled (s : Section) (bytes : List ℕ) (t : Section) : Type 0 where
  pub section : IsSection t
  pub written : contents t ≡ contents s ++ bytes

pub fill_page-Filled :
    (s : Section) (bytes : List ℕ)
    → IsSection s
    → s.tail.next + length bytes ≤ s.tail.avail
    → Filled s bytes (record s { tail = fill_page s.tail bytes })
unfolding fill_page
fill_page-Filled s bytes h fits = record {
  section = record {
    before = h.before;
    last = record {
      sized = length-copy_to s.tail.base s.tail.next bytes ∙ h.last.sized;
      inside = fits;
      roomy = h.last.roomy;
    };
  };
  written =
      ap (λ t. pages_bytes s.full ++ t)
        (take-copy_to s.tail.base s.tail.next bytes (omega (arith, h.last.sized)))
      ∙ sym (append_assoc (pages_bytes s.full) (page_bytes s.tail) bytes);
}

-- The outcome of a call that writes `bytes`: all of them behind what the section held, or ENOMEM with
-- a first part of them written. Either way every page stays within its memory.
pub record Outcome (s : Section) (bytes : List ℕ) (e : Emitted) : Type 0 where
  pub pool : IsPool e.pool
  pub section : IsSection e.section
  pub done : List ℕ
  pub undone : List ℕ
  pub split : bytes ≡ done ++ undone
  pub written : contents e.section ≡ contents s ++ done
  pub ends : ((e.status ≡ ok tt) × (undone ≡ [])) ⊎ (e.status ≡ err enomem)

pub Outcome-Filled :
    (s s' t : Section) (m : Pool) (bytes : List ℕ)
    → Roomy s s' m
    → Filled s' bytes t
    → Outcome s bytes (record { status = ok tt; pool = m; section = t })
Outcome-Filled s s' t m bytes r f = record {
  pool = r.pool;
  section = f.section;
  done = bytes;
  undone = [];
  split = sym (append-nil bytes);
  written = f.written ∙ ap (λ t. t ++ bytes) r.same;
  ends = inl (refl, refl);
}

pub Outcome-refused :
    (s : Section) (m : Pool) (bytes : List ℕ)
    → IsPool m
    → IsSection s
    → Outcome s bytes (record { status = err enomem; pool = m; section = s })
Outcome-refused s m bytes hm hs = record {
  pool = hm;
  section = hs;
  done = [];
  undone = bytes;
  split = refl;
  written = sym (append-nil (contents s));
  ends = inr refl;
}

put_in_tail-Filled :
    (s : Section) (code : ℕ)
    → IsSection s
    → s.tail.next < s.tail.avail
    → Filled s (code ∷ []) (put_in_tail s code)
unfolding put_in_tail fill_page copy_to
put_in_tail-Filled s code h space = fill_page-Filled s (code ∷ []) h (omega arith)

emit_byte_on-Outcome :
    (s : Section) (code : ℕ) (r : Option Page × Pool)
    → IsSection s
    → RoomFor s (with_room s r)
    → Outcome s (code ∷ []) (emit_byte_on s code r)
unfolding emit_byte_on with_room
emit_byte_on-Outcome s code (none, m) hs r = Outcome-refused s m (code ∷ []) r hs
emit_byte_on-Outcome s code (some p, m) hs r =
    Outcome-Filled s (link s p) (put_in_tail (link s p) code) m (code ∷ []) r
      (put_in_tail-Filled (link s p) code r.section r.space)

-- xd3_emit_byte on a well-formed section writes its byte behind what the section holds, or reports
-- ENOMEM; either way the pool and the section stay well formed.
pub emit_byte-Outcome :
    (m : Pool) (s : Section) (code : ℕ)
    → IsPool m
    → IsSection s
    → Outcome s (code ∷ []) (emit_byte m s code)
unfolding emit_byte
emit_byte-Outcome m s code hm hs = elim (Bool-cases (s.tail.next == s.tail.avail)) [
  | inl full ↦ rw full (
      emit_byte_on-Outcome s code (alloc_output m) hs
        (with_room-RoomFor m s (alloc_output m) hm hs refl))
  | inr free ↦
      let space : s.tail.next < s.tail.avail = ground arith in
      rw free (
        Outcome-Filled s s (put_in_tail s code) m (code ∷ [])
          (record { pool = hm; section = hs; same = refl; space = space })
          (put_in_tail-Filled s code hs space))
]
