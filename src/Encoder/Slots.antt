-- ===== src/Encoder/Slots.antt =====
-- xdelta3/xdelta3.c: the slots of the instruction buffer (xd3_iopt_get_slot, xd3_iopt_erase,
-- xd3_iopt_last_matched, xd3_alloc_iopt, xd3_emit_run, xd3_found_match). A `usize_t` has 64 bits.
use swift_xdelta.Prelude.{
  ℕ, zero, suc, ◌+◌, ◌-◌, ◌%◌, false, Option, none, some, List, [], ◌∷◌, ◌++◌,
}
use swift_xdelta.Prelude.{ltb, if◌then◌else◌, length, ok, err, internal, enomem}
use swift_xdelta.Sink.{Sink}
use swift_xdelta.AddrCache.{usize_mod}
use swift_xdelta.CodeTable.{Rinst, xd3_run, xd3_cpy}
use swift_xdelta.Encoder.{Encoder, Call, ◌>>>◌}
use swift_xdelta.Encoder.Buffer.{end_of, flush_instructions}

-- `xd3_rlist_back`
unfoldable pub back : Rinst → List Rinst → Rinst
back r [] = r
back r (r' ∷ rest) = back r' rest

unfoldable pub without_back : Rinst → List Rinst → List Rinst
without_back r [] = []
without_back r (r' ∷ rest) = r ∷ without_back r' rest

-- The slots of a new block, pushed one after another behind the free ones.
abbrev pub pushed : List Rinst → List Rinst → List Rinst
pushed [] free = free
pushed (i ∷ buffer) free = pushed buffer (i ∷ free)

-- `elts`, where there is memory.
abbrev grown : Option (List Rinst) → ℕ
grown none = 0
grown (some buffer) = length buffer

-- `elts` slots, with what is in the allocator's memory, or NULL.
unfoldable pub alloc_iopt : {k : Sink} → Encoder k → Option (List Rinst) → Call k (Unit {0})
alloc_iopt e none = (err enomem, e)
alloc_iopt e (some buffer) = (ok tt, record e { iopt_free = pushed buffer e.iopt_free })

-- Where no slot is free: more of them, or those of the instructions that are flushed.
unfoldable pub make_free :
    {k : Sink} → Rinst → Option (List Rinst) → Encoder k → List Rinst → Call k (Unit {0})
make_free iadd answer e (i ∷ free) = (ok tt, e)
make_free iadd answer e [] =
    if e.iopt_unlimited
    then (alloc_iopt e answer >>> λ u e'.
        (ok tt, record e' { iopt_size = (e'.iopt_size + grown answer) % usize_mod }))
    else flush_instructions false iadd e

-- The slot, which is the last of `iopt_used` from here on. That there is one behind a flush is an
-- assertion of the code; where there is none the model stops.
unfoldable pub take_slot : {k : Sink} → Encoder k → List Rinst → Call k Rinst
take_slot e [] = (err internal, e)
take_slot e (i ∷ free) = (
  ok i,
  record e {
    iopt_free = free;
    iopt_used = e.iopt_used ++ (i ∷ []);
    i_slots_used = (e.i_slots_used + 1) % usize_mod;
  },
)

unfoldable pub iopt_get_slot : {k : Sink} → Rinst → Option (List Rinst) → Encoder k → Call k Rinst
iopt_get_slot iadd answer e = make_free iadd answer e e.iopt_free >>> λ u e. take_slot e e.iopt_free

-- A slot that is filled in where it stands, at the back.
unfoldable pub fill_back : List Rinst → Rinst → List Rinst
fill_back [] i = []
fill_back (r ∷ []) i = i ∷ []
fill_back (r ∷ r' ∷ rest) i = r ∷ fill_back (r' ∷ rest) i

unfoldable pub emit_run :
    {k : Sink} → Rinst → Option (List Rinst) → Encoder k → ℕ → ℕ → ℕ → Call k (Unit {0})
emit_run iadd answer e pos size run_c = iopt_get_slot iadd answer e >>> λ ri e. (
  ok tt,
  record e {
    iopt_used =
        fill_back e.iopt_used (record ri { type = xd3_run; xtra = run_c; pos = pos; size = size });
  },
)

unfoldable pub found_match :
    {k : Sink} → Rinst → Option (List Rinst) → Encoder k → ℕ → ℕ → ℕ → ℕ → Call k (Unit {0})
found_match iadd answer e pos size addr is_source = iopt_get_slot iadd answer e >>> λ ri e. (
  ok tt,
  record e {
    iopt_used =
        fill_back e.iopt_used (record ri {
          type = xd3_cpy;
          xtra = is_source % 256;
          pos = pos;
          size = size;
          addr = addr;
        });
  },
)

-- The loop of xd3_iopt_erase, with the rounds left: an instruction for each.
unfoldable pub erase_loop : {k : Sink} → ℕ → Encoder k → ℕ → List Rinst → Encoder k
erase_loop zero e pos used = e
erase_loop (suc rounds) e pos [] = e
erase_loop (suc rounds) e pos (r ∷ rest) =
    let used = without_back r rest in
    let erased = record e {
      iopt_used = used;
      iopt_free = back r rest ∷ e.iopt_free;
      i_slots_used = (e.i_slots_used + usize_mod - 1) % usize_mod;
    } in
    let on = erase_loop rounds erased pos used in if ltb (back r rest).pos pos then e else on

-- The size is used by the assertions only.
unfoldable pub iopt_erase : {k : Sink} → Encoder k → ℕ → Encoder k
iopt_erase e pos = erase_loop (length e.iopt_used) e pos e.iopt_used

unfoldable pub iopt_last_matched : List Rinst → ℕ
iopt_last_matched [] = 0
iopt_last_matched (r ∷ rest) = end_of (back r rest)
