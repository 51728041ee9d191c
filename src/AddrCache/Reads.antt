-- ===== src/AddrCache/Reads.antt =====
-- xd3_decode_address, from a cache of the default code table, stays inside the cache's arrays.
use swift_xdelta.Prelude.{
  ℕ, ◌+◌, ◌-◌, ◌*◌, ◌%◌, ◌<◌, ◌≡◌, ◌≢◌, ◌∙◌, arith, inl, inr, Bool-cases, true, List, [], ◌∷◌,
  length, length-set, length-replicate, ltb, ◌==◌, Reads, Reads-bind, bit_and,
}
use swift_xdelta.Integer.{Width, uint64, oflow_mask, shift_in, read_loop, read_integer}
use swift_xdelta.AddrCache.{
  Cache, element, from_near, resolve, init_cache, update_cache, take_same, finish_decode,
  decode_address, AddressIn,
}
use swift_xdelta.AddrCache.State.{HasArrays, init_parts, element-get_or}

-- A cache for the modes of the default code table, whose arrays have their lengths, and whose next near
-- slot is one of them.
pub record IsReadable (c : Cache) : Type 0 where
  pub near_modes : c.s_near ≡ 4
  pub same_modes : c.s_same ≡ 3
  pub near_len : length c.near_array ≡ 4
  pub same_len : length c.same_array ≡ 768
  pub slot : c.next_slot < 4

-- An update writes inside both arrays, and leaves their lengths.
pub update_cache-IsReadable : (c : Cache) (a : ℕ) → IsReadable c → IsReadable (update_cache c a)
unfolding update_cache
update_cache-IsReadable c a h =
    let near : ltb 0 c.s_near ≡ true = ground (arith, h.near_modes) in
    let same : ltb 0 c.s_same ≡ true = ground (arith, h.same_modes) in
    let wraps : (c.next_slot + 1) % c.s_near < 4 = rw h.near_modes (omega arith) in
    rw (near, same)
      (record {
        near_modes = h.near_modes;
        same_modes = h.same_modes;
        near_len = omega (arith, length-set c.near_array c.next_slot a, h.near_len);
        same_len = omega (arith, length-set c.same_array (a % (c.s_same * 256)) a, h.same_len);
        slot = wraps;
      })

element-Reads : (xs : List ℕ) (i : ℕ) → i < length xs → Reads (λ v. Unit {0}) (element xs i)
element-Reads xs i h = rw (element-get_or xs i h) tt

read_loop-Reads : (w : Width) (inp : List ℕ) (val : ℕ) → Reads (λ r. Unit {0}) (read_loop w inp val)
unfolding read_loop
read_loop-Reads w [] val = λ e. cc
read_loop-Reads w (next ∷ inp) val = elim (Bool-cases (bit_and val (oflow_mask w) == 0)) [
  | inr over ↦ rw over (λ e. cc)
  | inl fits ↦ rw fits (elim (Bool-cases (bit_and next 128 == 0)) [
    | inl last ↦ rw last tt
    | inr more ↦ rw more (read_loop-Reads w inp (shift_in w val next))
  ])
]

resolve-Reads :
    (c : Cache) (here mode val : ℕ)
    → IsReadable c
    → mode < 2 + c.s_near
    → Reads (λ a. Unit {0}) (resolve c here mode val)
unfolding resolve from_near
resolve-Reads c here mode val h lt = elim (Bool-cases (mode == 0)) [
  | inl self ↦ rw self tt
  | inr other ↦ rw other (elim (Bool-cases (mode == 1)) [
    | inl from_here ↦ rw from_here tt
    | inr near ↦
        let some_near : mode ≢ 0 = ground arith in
        let inside : mode - 2 < length c.near_array = ground (arith, h.near_modes, h.near_len) in
        let at = element-get_or c.near_array (mode - 2) inside in rw (near, at) tt
  ])
]

abbrev Keeps : AddressIn → Type 0
Keeps r = IsReadable r.cache

take_same-Reads :
    (c : Cache) (at : ℕ) (inp : List ℕ) → IsReadable c → at < 3 → Reads Keeps (take_same c at inp)
unfolding take_same
take_same-Reads c at [] h lt = λ e. cc
take_same-Reads c at (b ∷ rest) h lt =
    let inside : at * 256 + b % 256 < length c.same_array = omega (arith, h.same_len) in
    Reads-bind (λ a. Unit {0}) Keeps (element c.same_array (at * 256 + b % 256))
      (finish_decode c rest) (element-Reads c.same_array _ inside)
      (λ a u. update_cache-IsReadable c a h)

-- In a mode of the code table, the decoder reads the cache inside its arrays, and keeps it so.
pub decode_address-Reads :
    (c : Cache) (here mode : ℕ) (inp : List ℕ)
    → IsReadable c
    → mode < 9
    → Reads (λ r. IsReadable r.cache) (decode_address c here mode inp)
unfolding decode_address
decode_address-Reads c here mode inp h lt = elim (Bool-cases (ltb mode (2 + c.s_near))) [
  | inl near ↦ rw near (
      Reads-bind (λ r. Unit {0}) Keeps (read_integer uint64 inp) _
        (unfold read_integer in read_loop-Reads uint64 inp 0)
        λ r u.
          Reads-bind (λ a. Unit {0}) Keeps (resolve c here mode r.0) (finish_decode c r.1)
            (resolve-Reads c here mode r.0 h (ground arith)) λ a v. update_cache-IsReadable c a h)
  | inr same ↦
      rw same (take_same-Reads c (mode - (2 + c.s_near)) inp h (ground (arith, h.near_modes)))
]

-- The cache that a window starts with.
pub init_cache-IsReadable :
    (c : Cache) → c.s_near ≡ 4 → c.s_same ≡ 3 → HasArrays c → IsReadable (init_cache c)
init_cache-IsReadable c hn hs h = rw (init_parts c (omega arith) (omega arith) h) (record {
  near_modes = hn;
  same_modes = hs;
  near_len = length-replicate {A = ℕ} c.s_near 0 ∙ hn;
  same_len = omega (arith, length-replicate {A = ℕ} (c.s_same * 256) 0);
  slot = omega arith;
})
