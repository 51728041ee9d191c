-- ===== src/AddrCache/Search.antt =====
-- The encoder's choice of an address mode: whatever it chooses, the decoder's reading of it is the
-- address, and it writes a word or a byte.
use swift_xdelta.Prelude.{
  ℕ, zero, suc, ◌+◌, ◌-◌, ◌*◌, ◌/◌, ◌%◌, ◌≤◌, ◌<◌, ◌≡◌, refl, ap, ◌∙◌, arith,
}
use swift_xdelta.Prelude.{
  if_both, Bool-cases, inl, inr, Bool, true, false, get_or, length, ltb, leb, ◌==◌, ◌&&◌, ok,
}
use swift_xdelta.AddrCache.{
  Cache, Best, Form, byte, integer, usize_mod, search_near, smallest_int, choose_same, choose_mode,
  choose_near, resolve,
}
use native.Mathlib.Nat.{mod-lt}
use swift_xdelta.AddrCache.State.{IsCache, element-get_or}

module _ (c : Cache) (a here : ℕ) where
  -- A value and mode that the decoder resolves to the address.
  pub record IsReading (b : Best) : Type 0 where
    pub mode : b.bestm < 2 + c.s_near
    pub word : b.bestd < usize_mod
    pub means : resolve c here b.bestm b.bestd ≡ ok a

  near-IsReading :
      (i : ℕ)
      → IsCache c
      → a < usize_mod
      → i < c.s_near
      → get_or c.near_array i 0 ≤ a
      → IsReading (record { bestd = a - get_or c.near_array i 0; bestm = i + 2 })
  unfolding resolve
  near-IsReading i h ha hi le = record {
    mode = omega arith;
    word = omega arith;
    means =
        let at : i + 2 - 2 ≡ i = omega arith in
        let inside : i < length c.near_array = omega (arith, h.near_len) in
        let near = element-get_or c.near_array i inside in ground (arith, at, near);
  }

  search_near-IsReading :
      (rounds i : ℕ) (b : Best)
      → IsCache c
      → a < usize_mod
      → i + rounds ≡ c.s_near
      → IsReading b
      → IsReading (search_near rounds c.near_array a i b).1
  unfolding search_near
  search_near-IsReading zero i b h ha e r = r
  search_near-IsReading (suc rounds) i b h ha e r =
      let near = get_or c.near_array i 0 in
      elim (Bool-cases (leb near a && ltb (a - near) b.bestd)) [
        | inl closer ↦
            let r' = near-IsReading i h ha (omega arith) (ground arith) in
            rw closer (
              if_both {A = Bool × Best} (λ x. IsReading x.1) (smallest_int (a - near)) _ _ r'
                (search_near-IsReading rounds (i + 1) (record { bestd = a - near; bestm = i + 2 }) h
                  ha (omega arith) r'))
        | inr not_closer ↦
            rw not_closer (search_near-IsReading rounds (i + 1) b h ha (omega arith) r)
      ]

  -- What the choice promises of the mode and of what is written.
  unfoldable pub IsChoice : ℕ × Form → Type 0
  IsChoice (m, integer d) = IsReading (record { bestd = d; bestm = m })
  IsChoice (m, byte b) =
      (2 + c.s_near ≤ m)
      × (m < 2 + c.s_near + c.s_same)
      × (b < 256)
      × (get_or c.same_array ((m - (2 + c.s_near)) * 256 + b) 0 ≡ a)

  -- A hit among the same addresses: slot `d` is row `d / 256`, byte `d % 256`.
  hit-IsChoice :
      (d : ℕ)
      → IsCache c
      → d < c.s_same * 256
      → get_or c.same_array d 0 ≡ a
      → IsChoice (c.s_near + 2 + d / 256, byte (d % 256))
  unfolding IsChoice
  hit-IsChoice d h hd e =
      let slot : (c.s_near + 2 + d / 256 - (2 + c.s_near)) * 256 + d % 256 ≡ d = omega arith in
      (omega arith, omega arith, omega arith, ap (λ t. get_or c.same_array t 0) slot ∙ e)

  choose_same-IsChoice :
      (r : Bool × Best) → IsCache c → IsReading r.1 → IsChoice (choose_same c a r)
  unfolding choose_same
  choose_same-IsChoice (true, b) h r = unfold IsChoice in r
  choose_same-IsChoice (false, b) h r =
      let d = a % (c.s_same * 256) in
      elim (Bool-cases (ltb 0 c.s_same && get_or c.same_array d 0 == a)) [
        | inl hit ↦ rw hit (hit-IsChoice d h (mod-lt a (omega (arith, h.same_some))) (ground arith))
        | inr miss ↦ rw miss (unfold IsChoice in r)
      ]

  self-IsReading : a < usize_mod → IsReading (record { bestd = a; bestm = 0 })
  unfolding resolve
  self-IsReading ha = record { mode = omega arith; word = ha; means = refl }

  here-IsReading :
      a < here
      → here < usize_mod
      → IsReading (record { bestd = (here + usize_mod - a) % usize_mod; bestm = 1 })
  unfolding resolve
  here-IsReading lt hh = record {
    mode = omega arith;
    word = omega arith;
    means = ap ok (omega arith);
  }

  near-IsChoice :
      (b : Best)
      → IsCache c
      → a < usize_mod
      → IsReading b
      → IsChoice (choose_same c a (search_near c.s_near c.near_array a 0 b))
  near-IsChoice b h ha r =
      choose_same-IsChoice _ h (search_near-IsReading c.s_near 0 b h ha (omega arith) r)

  good-IsChoice : (b : Best) → IsReading b → IsChoice (b.bestm, integer b.bestd)
  unfolding IsChoice
  good-IsChoice b r = r

  -- Whatever mode the encoder chooses for an address before `here`, what it writes is a word or a
  -- byte that stands for that address in that mode.
  pub choose_mode-IsChoice :
      IsCache c → a < here → here < usize_mod → IsChoice (choose_mode c a here)
  unfolding choose_mode choose_near
  choose_mode-IsChoice h lt hh =
      let ha : a < usize_mod = omega arith in
      let self = self-IsReading ha in
      let from_here = here-IsReading lt hh in
      let d = (here + usize_mod - a) % usize_mod in
      if_both IsChoice (smallest_int a) _ _ (good-IsChoice _ self) (
        if_both IsChoice (ltb d a) _ _
          (if_both IsChoice (smallest_int d) _ _ (good-IsChoice _ from_here)
            (near-IsChoice _ h ha from_here))
          (near-IsChoice _ h ha self))
