-- ===== src/Source/Fetch.antt =====
-- xd3_getblk finds the block that it is asked for: the one in memory, or the client's.
use swift_xdelta.Prelude.{
  ℕ, ◌≤◌, ◌<◌, ◌≡◌, ◌≢◌, true, Option, none, some, List, length, Result, ok, err, getsrcblk,
}
use swift_xdelta.Source.{Source, Getblk}

-- The source file as its blocks.
module _ (file : ℕ → List ℕ) where
  -- Block `b` is in memory, with all its bytes.
  pub record HasBlock (s : Source) (b : ℕ) : Type 0 where
    pub number : s.curblkno ≡ b
    pub bytes : s.curblk ≡ some (file b)
    pub size : s.onblk ≡ length (file b)

  -- What the client's `getblk` does where it succeeds: it puts the block that it is asked for in memory,
  -- and leaves alone what xd3_getblk keeps of the file's end.
  pub record HasServed (s : Source) (b : ℕ) (s' : Source) : Type 0 where
    pub block : HasBlock s' b
    pub size : s'.blksize ≡ s.blksize
    pub frontier : s'.max_blkno ≡ s.max_blkno

  abbrev pub Serves : Option Getblk → Type 0
  Serves none = Unit
  Serves (some client) = (s s' : Source) (b : ℕ) → client s b ≡ (ok tt, s') → HasServed s b s'

  -- The block is in memory. It is no later than the last block known; as that one, its size is the
  -- last block's; and a block behind those known that is not full tells where the file ends.
  pub record Found (s : Source) (b : ℕ) (s' : Source) : Type 0 where
    pub block : HasBlock s' b
    pub size : s'.blksize ≡ s.blksize
    pub known : (s.max_blkno ≤ s'.max_blkno) × (b ≤ s'.max_blkno)
    pub last : b ≡ s'.max_blkno → s'.onlastblk ≡ length (file b)
    pub ends : s.max_blkno < b → length (file b) ≢ s.blksize → s'.eof_known ≡ true

  abbrev pub FetchedOf : Option Getblk → Source → ℕ → Result (Unit {0}) × Source → Type 0
  FetchedOf client s b (ok u, s') = Found s b s'
  FetchedOf none s b (err e, s') = e ≡ getsrcblk
  FetchedOf (some client) s b (err e, s') = client (record s { getblkno = b }) b ≡ (err e, s')
