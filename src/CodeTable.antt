-- ===== src/CodeTable.antt =====
-- xdelta3/xdelta3.c: the instruction code table of VCDIFF (xd3_build_code_table over the RFC 3284
-- description) and the encoder's choice of codes (xd3_choose_instruction).
mod Runs
pub mod Entries
pub mod Choice
use swift_xdelta.Prelude.{
  ℕ, zero, suc, ◌+◌, ◌-◌, ◌*◌, ◌%◌, ◌^◌, Option, none, some, List, [], ◌∷◌, ◌++◌, ◌&&◌,
}
use swift_xdelta.Prelude.{ltb, leb, ◌==◌, if◌then◌else◌}

-- XD3_NOOP, XD3_ADD, XD3_RUN, XD3_CPY and MIN_MATCH
abbrev pub xd3_noop : ℕ
xd3_noop = 0

abbrev pub xd3_add : ℕ
xd3_add = 1

abbrev pub xd3_run : ℕ
xd3_run = 2

abbrev pub xd3_cpy : ℕ
xd3_cpy = 3

abbrev pub min_match : ℕ
min_match = 4

-- `xd3_dinst`
pub record Dinst : Type 0 where
  pub type1 : ℕ
  pub size1 : ℕ
  pub type2 : ℕ
  pub size2 : ℕ

-- `xd3_code_table_desc`. Its last two arrays are read by no function.
pub record Desc : Type 0 where
  pub add_sizes : ℕ
  pub near_modes : ℕ
  pub same_modes : ℕ
  pub cpy_sizes : ℕ
  pub addcopy_add_max : ℕ
  pub addcopy_near_cpy_max : ℕ
  pub addcopy_same_cpy_max : ℕ
  pub copyadd_add_max : ℕ
  pub copyadd_near_cpy_max : ℕ
  pub copyadd_same_cpy_max : ℕ

-- `__rfc3284_code_table_desc`
abbrev pub rfc3284_desc : Desc
rfc3284_desc = record {
  add_sizes = 17;
  near_modes = 4;
  same_modes = 3;
  cpy_sizes = 15;
  addcopy_add_max = 4;
  addcopy_near_cpy_max = 6;
  addcopy_same_cpy_max = 4;
  copyadd_add_max = 1;
  copyadd_near_cpy_max = 4;
  copyadd_same_cpy_max = 4;
}

-- `for (i = from; i < from + rounds; i += 1)`, each round writing some entries.
entries : ℕ → ℕ → (ℕ → List Dinst) → List Dinst
entries zero from body = []
entries (suc rounds) from body = body from ++ entries rounds (from + 1) body

-- `for (i = from; i <= to; i += 1)`
abbrev entries_to : ℕ → ℕ → (ℕ → List Dinst) → List Dinst
entries_to from to body = entries (to + 1 - from) from body

-- An entry of a table that was zero before it is written.
abbrev pub single : ℕ → ℕ → Dinst
single type size = record { type1 = type; size1 = size; type2 = xd3_noop; size2 = 0 }

-- The entries in the order in which `d` writes them.
unfoldable pub build_code_table : Desc → List Dinst
unfolding entries
build_code_table desc =
    let modes = 2 + desc.near_modes + desc.same_modes in
    (single xd3_run 0 ∷ single xd3_add 0 ∷ [])
    ++ (entries_to 1 desc.add_sizes (λ size1. single xd3_add size1 ∷ [])
        ++ (entries modes 0 (λ mode.
              single (xd3_cpy + mode) 0
              ∷ entries desc.cpy_sizes min_match (λ size1. single (xd3_cpy + mode) size1 ∷ []))
            ++ (entries modes 0 (λ mode. entries_to 1 desc.addcopy_add_max (λ size1.
                  entries_to min_match
                    (if ltb mode (2 + desc.near_modes)
                      then desc.addcopy_near_cpy_max
                      else desc.addcopy_same_cpy_max)
                    (λ size2.
                      record {
                        type1 = xd3_add;
                        size1 = size1;
                        type2 = xd3_cpy + mode;
                        size2 = size2;
                      }
                      ∷ [])))
                ++ entries modes 0 (λ mode.
                  entries_to min_match
                    (if ltb mode (2 + desc.near_modes)
                      then desc.copyadd_near_cpy_max
                      else desc.copyadd_same_cpy_max)
                    (λ size1. entries_to 1 desc.copyadd_add_max (λ size2.
                      record {
                        type1 = xd3_cpy + mode;
                        size1 = size1;
                        type2 = xd3_add;
                        size2 = size2;
                      }
                      ∷ []))))))

unfoldable pub rfc3284_code_table : List Dinst
unfolding build_code_table
rfc3284_code_table = build_code_table rfc3284_desc

-- `xd3_rinst`, without its link.
pub record Rinst : Type 0 where
  pub type : ℕ
  pub xtra : ℕ
  pub code1 : ℕ
  pub code2 : ℕ
  pub pos : ℕ
  pub size : ℕ
  pub addr : ℕ

-- What is put in `inst->code1`, a `uint8_t`.
unfoldable pub choose_code1 : ℕ → ℕ → ℕ
choose_code1 type size =
    if type == xd3_run
    then 0
    else if type == xd3_add
    then (if leb size 17 then (1 + size) % 256 else 1)
    else let mode = type - xd3_cpy in
      if leb size 18 && leb 4 size
      then (19 + 16 * mode + (size - 3)) % 256
      else (19 + 16 * mode) % 256

-- What is put in `prev->code2`, if anything is. The sizes are 64-bit words.
unfoldable pub choose_code2 : ℕ → ℕ → ℕ → ℕ → Option ℕ
choose_code2 prev_type prev_size type size =
    let less_one = (prev_size + 2 ^ 64 - 1) % 2 ^ 64 in
    let mode = type - xd3_cpy in
    if type == xd3_run
    then none
    else if type == xd3_add
    then (if leb size 17 && (size == 1 && (prev_size == 4 && leb xd3_cpy prev_type))
        then some ((247 + (prev_type - xd3_cpy)) % 256)
        else none)
    else (if (leb size 18 && leb 4 size) && (prev_type == xd3_add && leb prev_size 4)
        then (if leb size 6 && leb mode 5
            then some ((163 + mode * 12 + 3 * less_one + (size - 4)) % 2 ^ 64 % 256)
            else if size == 4 && leb 6 mode
            then some ((235 + (mode - 6) * 4 + less_one) % 2 ^ 64 % 256)
            else none)
        else none)

set_code2 : Rinst → Option ℕ → Rinst
set_code2 prev none = prev
set_code2 prev (some code) = record prev { code2 = code }

choose_prev : Option Rinst → Rinst → Option Rinst
unfolding set_code2
choose_prev none inst = none
choose_prev (some prev) inst =
    some (set_code2 prev (choose_code2 prev.type prev.size inst.type inst.size))

-- `prev` is none where the pointer is NULL. Returns both instructions as they are left.
unfoldable pub choose_instruction : Option Rinst → Rinst → Option Rinst × Rinst
unfolding choose_prev
choose_instruction prev inst =
    (choose_prev prev inst, record inst { code1 = choose_code1 inst.type inst.size })
