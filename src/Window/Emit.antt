-- ===== src/Window/Emit.antt =====
-- xdelta3/xdelta3-decode.h: the loop of xd3_decode_emit and its checks at the window's end.
use swift_xdelta.Prelude.{
  ℕ, zero, suc, ◌+◌, Bool, true, false, not, ◌&&◌, ◌||◌, Option, List, [], ◌∷◌, length,
}
use swift_xdelta.Prelude.{◌==◌, if◌then◌else◌, Result, ok, err, Rvalue, invalid_input, outside}
use swift_xdelta.CodeTable.{xd3_noop}
use swift_xdelta.Source.{Getblk}
use swift_xdelta.Adler.{adler32}
use swift_xdelta.Window.{
  Hinst, Window, Turn, moved, suspended, failed, unwritten, spent, decode_instruction,
  output_halfinst,
}

abbrev pub is_noop : Hinst → Bool
is_noop i = i.type == xd3_noop

abbrev pub is_empty : List ℕ → Bool
is_empty [] = true
is_empty (b ∷ bs) = false

-- `while (inst->type != XD3_NOOP)`
unfoldable pub half_again :
    (Window → Hinst → Turn (Window × Hinst)) → Turn (Window × Hinst) → Turn (Window × Hinst)
half_again more (moved (w, i)) = more w i
half_again more (suspended e r) = suspended e r
half_again more (failed e) = failed e
half_again more unwritten = unwritten
half_again more spent = spent

unfoldable pub half_loop : ℕ → Option Getblk → Window → Hinst → Turn (Window × Hinst)
unfolding half_again
half_loop zero client w i = spent
half_loop (suc fuel) client w i =
    if is_noop i
    then moved (w, i)
    else half_again (half_loop fuel client) (output_halfinst client w i)

-- A copy takes a byte at least each time but the last.
unfoldable pub output_half : Option Getblk → Window → Hinst → Turn (Window × Hinst)
output_half client w i = half_loop (i.size + 2) client w i

-- The two halves of an instruction, each left where the stream keeps it.
unfoldable pub after_half2 : (Window → Turn Window) → Turn (Window × Hinst) → Turn Window
after_half2 more (moved (w, i)) = more (record w { current2 = i })
after_half2 more (suspended e (w, i)) = suspended e (record w { current2 = i })
after_half2 more (failed e) = failed e
after_half2 more unwritten = unwritten
after_half2 more spent = spent

unfoldable pub after_half1 :
    (Window → Turn Window) → Option Getblk → Turn (Window × Hinst) → Turn Window
after_half1 more client (moved (w, i)) =
    after_half2 more (output_half client (record w { current1 = i }) w.current2)
after_half1 more client (suspended e (w, i)) = suspended e (record w { current1 = i })
after_half1 more client (failed e) = failed e
after_half1 more client unwritten = unwritten
after_half1 more client spent = spent

-- A read outside an array is none of the code's errors.
abbrev pub refused : Rvalue → Turn Window
refused outside = unwritten
refused e = failed e

unfoldable pub output_both : (Window → Turn Window) → Option Getblk → Result Window → Turn Window
output_both more client (err e) = refused e
output_both more client (ok w) = after_half1 more client (output_half client w w.current1)

-- The next instruction, unless the client's source block interrupted one.
unfoldable pub next_pair : Window → Result Window
next_pair w = if is_noop w.current1 && is_noop w.current2 then decode_instruction w else ok w

unfoldable pub emit_loop : ℕ → Option Getblk → Window → Turn Window
unfolding output_both next_pair
emit_loop zero client w = spent
emit_loop (suc fuel) client w =
    if not (is_empty w.inst_sect) || not (is_noop w.current1) || not (is_noop w.current2)
    then output_both (emit_loop fuel client) client (next_pair w)
    else moved w

-- The checks behind the loop, and the window's end.
unfoldable pub check_window : Window → Turn Window
check_window w =
    if not (length w.out == w.tgtlen)
    then failed invalid_input
    else if not (is_empty w.data_sect)
    then failed invalid_input
    else if not (is_empty w.addr_sect)
    then failed invalid_input
    else if w.checks_adler32 && not (adler32 1 w.out == w.adler32)
    then failed invalid_input
    else moved w

unfoldable pub checked : Turn Window → Turn Window
unfolding check_window
checked (moved w) = check_window w
checked (suspended e w) = suspended e w
checked (failed e) = failed e
checked unwritten = unwritten
checked spent = spent

unfoldable pub decode_emit : Option Getblk → Window → Turn Window
unfolding emit_loop checked
decode_emit client w = checked (emit_loop (length w.inst_sect + 2) client w)
