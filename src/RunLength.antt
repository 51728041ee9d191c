-- ===== src/RunLength.antt =====
-- xdelta3/xdelta3.c: xd3_comprun and NEXTRUN, the run of equal bytes at the end of a window. A
-- `usize_t` has 64 bits.
mod Runs
pub mod Longest
use swift_xdelta.Prelude.{ℕ, ◌+◌, ◌%◌, List, [], ◌∷◌, ◌==◌, if◌then◌else◌}
use swift_xdelta.AddrCache.{usize_mod}

-- NEXTRUN, on `run_c` and `run_l`
pub next_run : ℕ × ℕ → ℕ → ℕ × ℕ
next_run (run_c, run_l) c = if c == run_c then (run_c, (run_l + 1) % usize_mod) else (c, 1)

pub run_loop : ℕ × ℕ → List ℕ → ℕ × ℕ
run_loop s [] = s
run_loop s (c ∷ seg) = run_loop (next_run s c) seg

-- The list is the `slook` bytes from `seg`; the result is `*run_cp` and the length.
unfoldable pub comprun : List ℕ → ℕ × ℕ
unfolding run_loop next_run
comprun seg = run_loop (0, 0) seg
