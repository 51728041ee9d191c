-- ===== src/Output/Runs.antt =====
-- Runs of the output pages, and their theorems at concrete inputs.
use swift_xdelta.Prelude.{◌≡◌, refl, arith, some, [], ◌∷◌, length, ok}
use swift_xdelta.Output.{Page, Pool, Section, Emitted, emit_byte, emit_bytes, sizeof_output}
use swift_xdelta.Output.Pages.{IsPool, IsSection, contents}
use swift_xdelta.Output.Emit.{Outcome, emit_byte-Outcome}
use swift_xdelta.Output.Rounds.{emit_bytes-Outcome}
use swift_xdelta.Output.Sections.{sizeof_output-contents}

-- A page of four bytes that holds two, and an empty one in the free list.
abbrev half_page : Page
half_page = record { base = 1 ∷ 2 ∷ 0 ∷ 0 ∷ []; next = 2; avail = 4 }

abbrev spare : Page
spare = record { base = 9 ∷ 9 ∷ 9 ∷ []; next = 3; avail = 3 }

abbrev pool : Pool
pool = record { free_list = spare ∷ []; answers = [] }

abbrev section : Section
section = record { full = []; tail = half_page }

-- The last byte goes to the page from the free list.
three_bytes :
    emit_bytes pool section (3 ∷ 4 ∷ 5 ∷ [])
    ≡ some (record {
      status = ok tt;
      pool = record { free_list = []; answers = [] };
      section = record {
        full = record { base = 1 ∷ 2 ∷ 3 ∷ 4 ∷ []; next = 4; avail = 4 } ∷ [];
        tail = record { base = 5 ∷ 9 ∷ 9 ∷ []; next = 1; avail = 3 };
      };
    })
unfolding emit_bytes
three_bytes = refl

IsPool-pool : IsPool pool
IsPool-pool = omega arith

IsSection-section : IsSection section
IsSection-section = omega arith

emit_byte-Outcome_example : Outcome section (7 ∷ []) (emit_byte pool section 7)
emit_byte-Outcome_example = emit_byte-Outcome pool section 7 IsPool-pool IsSection-section

emit_bytes-Outcome_example :
    (e : Emitted) × (emit_bytes pool section (3 ∷ 4 ∷ 5 ∷ []) ≡ some e)
    × Outcome section (3 ∷ 4 ∷ 5 ∷ []) e
emit_bytes-Outcome_example =
    emit_bytes-Outcome pool section (3 ∷ 4 ∷ 5 ∷ []) IsPool-pool IsSection-section

sizeof_output-contents_example : sizeof_output section ≡ length (contents section)
sizeof_output-contents_example = sizeof_output-contents section IsSection-section
