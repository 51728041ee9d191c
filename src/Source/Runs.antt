-- ===== src/Source/Runs.antt =====
-- The theorems on the source's blocks, at concrete inputs.
use swift_xdelta.Prelude.{
  ℕ, zero, suc, ◌+◌, ◌≡◌, refl, arith, some, List, [], ◌∷◌, false, true, length, ok,
}
use swift_xdelta.Source.{Source, Getblk, blksize_add, getblk}
use swift_xdelta.Source.Blocks.{IsSource}
use swift_xdelta.Source.Flat.{flat, blksize_add-flat}

-- A source in blocks of four bytes, with the second block in memory.
abbrev source : Source
source = record {
  blksize = 4;
  curblkno = 1;
  onblk = 4;
  curblk = some (5 ∷ 6 ∷ 7 ∷ 8 ∷ []);
  shiftby = 2;
  maskby = 3;
  cpyoff_blocks = 0;
  cpyoff_blkoff = 0;
  getblkno = 1;
  max_blkno = 1;
  onlastblk = 4;
  eof_known = false;
}

IsSource-source : IsSource source
IsSource-source = record { size = refl; mask = refl; held = (omega arith, omega arith) }

add_run : blksize_add 1 3 source 6 ≡ (3, 1)
unfolding blksize_add
add_run = refl

blksize_add-flat_example : flat source (blksize_add 1 3 source 6) ≡ flat source (1, 3) + 6
blksize_add-flat_example = blksize_add-flat 1 3 source 6 IsSource-source (omega arith) (omega arith)

-- The file, in blocks of four bytes, the third of which is not full, and the client that serves it.
abbrev file : ℕ → List ℕ
file zero = 1 ∷ 2 ∷ 3 ∷ 4 ∷ []
file (suc zero) = 5 ∷ 6 ∷ 7 ∷ 8 ∷ []
file (suc (suc n)) = 9 ∷ []

abbrev client : Getblk
client s b = (ok tt, record s { curblkno = b; curblk = some (file b); onblk = length (file b) })

-- The block in memory is not the one asked for: the client is, and the file ends in its block.
fetch_run : getblk (some client) source 2 ≡ (
  ok tt,
  record source {
    getblkno = 2;
    curblkno = 2;
    curblk = some (9 ∷ []);
    onblk = 1;
    max_blkno = 2;
    onlastblk = 1;
    eof_known = true;
  },
)
unfolding getblk
fetch_run = refl
