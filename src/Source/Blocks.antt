-- ===== src/Source/Blocks.antt =====
-- What the decoder relies on in its source: the shape of the block fields, and the client's `getblk`.
use swift_xdelta.Prelude.{
  ℕ, ◌+◌, ◌-◌, ◌/◌, ◌%◌, ◌^◌, ◌≤◌, ◌<◌, ◌≡◌, refl, arith, Option, none, some, List, length,
}
use swift_xdelta.Prelude.{
  Bool, true, ◌&&◌, ltb, ◌==◌, Bool-cases, inl, inr, if_both, Result, ok, err,
}
use swift_xdelta.Prelude.Bits.{bit_and_low}
use swift_xdelta.Prelude.{==_iff, ap, ◌*◌}
use native.Mathlib.Nat.{one-le-pow, mod-lt, div-add-mod}
use swift_xdelta.AddrCache.{usize_mod}
use swift_xdelta.Source.{
  Source, Getblk, blksize_add, getblk, ask_client, noted, note_block, past_frontier, last_block,
  is_some,
}

-- The current block has at least `onblk` bytes of memory, and is no larger than a block.
abbrev pub Held : Option (List ℕ) → ℕ → ℕ → Type 0
Held none onblk blksize = Unit
Held (some bs) onblk blksize = (onblk ≤ length bs) × (onblk ≤ blksize)

pub record IsSource (s : Source) : Type 0 where
  pub size : s.blksize ≡ 2 ^ s.shiftby
  pub mask : s.maskby ≡ 2 ^ s.shiftby - 1
  pub held : Held s.curblk s.onblk s.blksize

abbrev pub HasBlock : Option (List ℕ) → ℕ → ℕ → Type 0
HasBlock curblk onblk blksize =
    (bs : List ℕ) × (curblk ≡ some bs) × (onblk ≤ length bs) × (onblk ≤ blksize)

-- What a call for a block leaves: a source of the same block size, with a block on success.
abbrev pub Answered : Source → Result (Unit {0}) × Source → Type 0
Answered s (err e, s') = IsSource s' × (s'.blksize ≡ s.blksize)
Answered s (ok u, s') =
    IsSource s' × (s'.blksize ≡ s.blksize) × HasBlock s'.curblk s'.onblk s'.blksize

-- The client's `getblk`, where there is one, keeps the source's shape and, on success, has set a
-- current block with the bytes that it says.
abbrev pub IsClient : Option Getblk → Type 0
IsClient none = Unit
IsClient (some client) = (s : Source) (b : ℕ) → IsSource s → Answered s (client s b)

note_block-IsSource : (s : Source) (b : ℕ) → IsSource s → IsSource (note_block s b)
unfolding note_block past_frontier last_block
note_block-IsSource s b h = elim (Bool-cases (ltb s.max_blkno b)) [
  | inl far ↦ rw far (
      if_both IsSource (b == b) _ _ (record { size = h.size; mask = h.mask; held = h.held })
        (record { size = h.size; mask = h.mask; held = h.held }))
  | inr near ↦ rw near (
      if_both IsSource (b == s.max_blkno) _ _
        (record { size = h.size; mask = h.mask; held = h.held }) h)
]

note_block_same :
    (s : Source) (b : ℕ)
    → ((note_block s b).blksize ≡ s.blksize)
      × ((note_block s b).curblk ≡ s.curblk)
      × ((note_block s b).onblk ≡ s.onblk)
unfolding note_block past_frontier last_block
note_block_same s b = elim (Bool-cases (ltb s.max_blkno b)) [
  | inl far ↦ rw far (ground arith)
  | inr near ↦ rw near (ground arith)
]

noted-Answered :
    (s : Source) (b : ℕ) (r : Result (Unit {0}) × Source) → Answered s r → Answered s (noted b r)
unfolding noted
noted-Answered s b (err e, t) h = h
noted-Answered s b (ok u, t) (h, same, (bs, cur, has, small)) =
    let (e1, e2, e3) = note_block_same t b in
    (note_block-IsSource t b h, cc, (bs, cc, omega arith, omega arith))

ask_client-Answered :
    (client : Option Getblk) (s : Source) (b : ℕ)
    → IsClient client
    → IsSource s
    → Answered s (ask_client client s b)
unfolding ask_client
ask_client-Answered none s b hc h = (h, refl)
ask_client-Answered (some client) s b hc h = noted-Answered s b (client s b) (hc s b h)

Held-HasBlock :
    (c : Option (List ℕ)) (n b : ℕ) (t : Bool) → Held c n b → is_some c && t ≡ true → HasBlock c n b
unfolding is_some
Held-HasBlock none n b t h e = cc
Held-HasBlock (some bs) n b t (has, small) e = (bs, refl, has, small)

-- For a client that keeps its contract, xd3_getblk succeeds with a current block in place only;
-- either way the source keeps its shape and its block size.
pub getblk-Answered :
    (client : Option Getblk) (s : Source) (b : ℕ)
    → IsClient client
    → IsSource s
    → Answered s (getblk client s b)
unfolding getblk
getblk-Answered client s b hc h = elim (Bool-cases (is_some s.curblk && (b == s.curblkno))) [
  | inl here ↦ rw here (
      noted-Answered s b (ok tt, s)
        (h, refl, Held-HasBlock s.curblk s.onblk s.blksize (b == s.curblkno) h.held here))
  | inr gone ↦ rw gone (
      ask_client-Answered client (record s { getblkno = b }) b hc
        (record { size = h.size; mask = h.mask; held = h.held }))
]

small_quotient : (a p : ℕ) → 0 < p → a / p ≡ 0 → a < p
small_quotient a p pos e = omega (arith, div-add-mod a p, mod-lt a pos, ap (λ (t : ℕ). p * t) e)

-- The offset within a block is below the block size, wherever the address is.
pub blksize_add-lt :
    (blkno blkoff : ℕ) (s : Source) (add : ℕ)
    → IsSource s
    → (blksize_add blkno blkoff s add).1 < s.blksize
unfolding blksize_add
blksize_add-lt blkno blkoff s add h =
    let off = (blkoff + add) % usize_mod in
    let pos : 0 < 2 ^ s.shiftby = one-le-pow s.shiftby 2 (omega arith) in
    elim (Bool-cases (off / 2 ^ s.shiftby == 0)) [
      | inl low ↦
          rw low
            (omega (arith, small_quotient off (2 ^ s.shiftby) pos ((==_iff _ 0).0 low), h.size))
      | inr high ↦
          rw (high, h.mask, bit_and_low s.shiftby off) (omega (arith, mod-lt off pos, h.size))
    ]
