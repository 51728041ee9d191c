-- ===== src/CodeTable/Runs.antt =====
-- Runs of the code choice, and its theorems at concrete inputs.
use swift_xdelta.Prelude.{◌≤◌, ◌<◌, ◌≡◌, refl, arith, some, ◌⊎◌}
use swift_xdelta.CodeTable.{Rinst, single, xd3_add, choose_code1, choose_code2, choose_instruction}
use swift_xdelta.CodeTable.Entries.{entry, immediate}
use swift_xdelta.CodeTable.Choice.{PrevCoded, choose_instruction-PrevCoded, choose_code-entry}

abbrev add_two : Rinst
add_two = record { type = xd3_add; xtra = 0; code1 = 3; code2 = 0; pos = 0; size = 2; addr = 0 }

abbrev copy_five : Rinst
copy_five = record { type = 4; xtra = 0; code1 = 0; code2 = 0; pos = 2; size = 5; addr = 0 }

pair_chosen :
    choose_instruction (some add_two) copy_five
    ≡ (some (record add_two { code2 = 179 }), record copy_five { code1 = 37 })
unfolding choose_instruction choose_code1 choose_code2
pair_chosen = refl

choose_instruction-PrevCoded_example :
    let (prev', inst') = choose_instruction (some add_two) copy_five in
    PrevCoded add_two copy_five prev'
    × (inst' ≡ record copy_five { code1 = inst'.code1 })
    × (entry inst'.code1 ≡ single 4 (immediate 4 5))
choose_instruction-PrevCoded_example =
    choose_instruction-PrevCoded add_two copy_five (omega arith) (omega arith) (omega arith)

choose_code-entry_example :
    let e = entry 179 in
    ((179 < 163) × (choose_code1 e.type1 e.size1 ≡ 179))
    ⊎ ((163 ≤ 179) × (choose_code2 e.type1 e.size1 e.type2 e.size2 ≡ some 179))
choose_code-entry_example = choose_code-entry 179 (omega arith)
