-- ===== src/Window/Reads.antt =====
-- xd3_decode_instruction reads the address cache inside its arrays.
use swift_xdelta.Prelude.{
  ℕ, suc, Reads-weaken, ◌-◌, ◌%◌, ◌+◌, ◌≤◌, ◌<◌, ◌≡◌, refl, ◌∙◌, arith, inl, inr, Bool-cases, true,
  Bool, ◌&&◌, leb, ltb, ◌==◌, List, [], ◌∷◌, length, get_or, under, under_lem, Result, ok, err,
  ◌>>=◌, Reads, Reads-bind,
}
use native.Mathlib.Decide.{dec_lt}
use swift_xdelta.AddrCache.{decode_address, AddressIn, usize_mod}
use swift_xdelta.AddrCache.Reads.{IsReadable, decode_address-Reads}
use swift_xdelta.Integer.{uint64, read_integer}
use swift_xdelta.CodeTable.{Dinst, single, rfc3284_code_table, xd3_cpy, xd3_noop}
use swift_xdelta.CodeTable.Entries.{entry, length-rfc3284_code_table}
use swift_xdelta.Window.{
  Hinst, Window, sized_as, parse_size, check_copy, parse_copy, parse_addr, advance, parse_halfinst,
  parse_half, parse_both, instruction_of, decode_instruction,
}

-- The types of the code table, of which the largest is the last copy mode.
abbrev modes_fit : ℕ → Bool
modes_fit code = leb (entry code).type1 11 && leb (entry code).type2 11

table_fits : under 256 modes_fit ≡ true
unfolding under entry rfc3284_code_table
table_fits = refl

beyond : (xs : List Dinst) (i : ℕ) (d : Dinst) → length xs ≤ i → get_or xs i d ≡ d
beyond [] i d h = refl
beyond (x ∷ xs) i d h = elim (dec_lt 0 i) [
  | yes pos ↦
      let next : i ≡ suc (i - 1) = omega arith in rw next (beyond xs (i - 1) d (omega arith))
  | no none ↦ absurd (omega arith)
]

entry_fits : (code : ℕ) → ((entry code).type1 < 12) × ((entry code).type2 < 12)
entry_fits code = elim (dec_lt code 256) [
  | yes lt ↦ let fits = under_lem 256 modes_fit code table_fits lt in ground arith
  | no ge ↦
      let far : entry code ≡ single 0 0 =
        unfold entry in
        beyond rfc3284_code_table code (single 0 0) (omega (arith, length-rfc3284_code_table)) in
      rw far (omega arith, omega arith)
]

-- The cache stays readable, and the type of the half what it was.
abbrev HalfKept : Hinst → Window × Hinst → Type 0
HalfKept i r = IsReadable r.0.acache × (r.1.type ≡ i.type)

sized_as-Reads :
    (w : Window) (i : Hinst) (m : Result (ℕ × List ℕ))
    → IsReadable w.acache
    → Reads (HalfKept i) (sized_as w i m)
unfolding sized_as
sized_as-Reads w i (err e) h = λ e. cc
sized_as-Reads w i (ok (size, rest)) h = (h, refl)

parse_size-Reads :
    (w : Window) (i : Hinst) → IsReadable w.acache → Reads (HalfKept i) (parse_size w i)
unfolding parse_size
parse_size-Reads w i h = elim (Bool-cases (i.size == 0)) [
  | inl none ↦ rw none (sized_as-Reads w i (read_integer uint64 w.inst_sect) h)
  | inr given ↦ rw given (h, refl)
]

check_copy-Reads :
    (w : Window) (i : Hinst) → IsReadable w.acache → Reads (HalfKept i) (check_copy (w, i))
unfolding check_copy
check_copy-Reads w i h = elim (Bool-cases (leb w.position i.addr)) [
  | inl far ↦ rw far (λ e. cc)
  | inr near ↦
      rw near
        (elim (Bool-cases (ltb i.addr w.cpylen && ltb w.cpylen ((i.addr + i.size) % usize_mod))) [
          | inl out ↦ rw out (λ e. cc)
          | inr inside ↦ rw inside (h, refl)
        ])
]

parse_addr-Reads :
    (w : Window) (i : Hinst)
    → i.type < 12
    → IsReadable w.acache
    → Reads (HalfKept i) (parse_addr (w, i))
unfolding parse_addr parse_copy
parse_addr-Reads w i lt h = elim (Bool-cases (leb xd3_cpy i.type)) [
  | inr other ↦ rw other (h, refl)
  | inl copy ↦ rw copy (
      Reads-bind (λ (r : AddressIn). IsReadable r.cache) (HalfKept i)
        (decode_address w.acache w.position (i.type - xd3_cpy) w.addr_sect) _
        (decode_address-Reads w.acache w.position (i.type - xd3_cpy) w.addr_sect h (omega arith))
        λ r hr.
          check_copy-Reads (record w { addr_sect = r.rest; acache = r.cache })
            (record i { addr = r.val }) hr)
]

advance-Reads : (w : Window) (i : Hinst) → IsReadable w.acache → Reads (HalfKept i) (advance (w, i))
unfolding advance
advance-Reads w i h = elim (Bool-cases (ltb w.maxpos ((w.position + i.size) % usize_mod))) [
  | inl over ↦ rw over (λ e. cc)
  | inr fits ↦ rw fits (h, refl)
]

abbrev WindowKept : Window × Hinst → Type 0
WindowKept r = IsReadable r.0.acache

parse_half-Reads :
    (w : Window) (i : Hinst) → i.type < 12 → IsReadable w.acache → Reads WindowKept (parse_half w i)
unfolding parse_half parse_halfinst
parse_half-Reads w i lt h = elim (Bool-cases (i.type == xd3_noop)) [
  | inl none ↦ rw none h
  | inr other ↦ rw other (
      Reads-bind (HalfKept i) WindowKept (parse_size w i >>= parse_addr) advance
        (Reads-bind (HalfKept i) (HalfKept i) (parse_size w i) parse_addr (parse_size-Reads w i h)
          λ r k. same_type i r (parse_addr-Reads r.0 r.1 (omega (arith, k.1)) k.0) k.1)
        λ r k. forget r (advance-Reads r.0 r.1 k.0))
]
  where
    same_type :
        (i : Hinst) (r : Window × Hinst)
        → Reads (HalfKept r.1) (parse_addr r)
        → r.1.type ≡ i.type
        → Reads (HalfKept i) (parse_addr r)
    same_type i r k e =
        Reads-weaken (HalfKept r.1) (HalfKept i) (parse_addr r) (λ a h. (h.0, h.1 ∙ e)) k

    forget : (r : Window × Hinst) → Reads (HalfKept r.1) (advance r) → Reads WindowKept (advance r)
    forget r k = Reads-weaken (HalfKept r.1) WindowKept (advance r) (λ a h. h.0) k

parse_both-Reads :
    (w : Window) (d : Dinst)
    → d.type1 < 12
    → d.type2 < 12
    → IsReadable w.acache
    → Reads (λ v. IsReadable v.acache) (parse_both w d)
unfolding parse_both
parse_both-Reads w d l1 l2 h =
    Reads-bind WindowKept (λ (v : Window). IsReadable v.acache) (parse_half w _) _
      (parse_half-Reads w (record w.current1 { type = d.type1; size = d.size1 }) l1 h)
      λ r1 h1.
        Reads-bind WindowKept (λ (v : Window). IsReadable v.acache) (parse_half r1.0 _) _
          (parse_half-Reads r1.0 (record r1.0.current2 { type = d.type2; size = d.size2 }) l2 h1)
          λ r2 h2. h2

instruction_of-Reads :
    (w : Window) (sect : List ℕ)
    → IsReadable w.acache
    → Reads (λ v. IsReadable v.acache) (instruction_of w sect)
unfolding instruction_of
instruction_of-Reads w [] h = λ e. cc
instruction_of-Reads w (code ∷ rest) h =
    let (l1, l2) = entry_fits code in
    parse_both-Reads (record w { inst_sect = rest }) (entry code) l1 l2 h

-- From a cache of the default code table, a parsed instruction has read it inside its arrays only, and
-- keeps it so.
pub decode_instruction-Reads :
    (w : Window) → IsReadable w.acache → Reads (λ v. IsReadable v.acache) (decode_instruction w)
unfolding decode_instruction
decode_instruction-Reads w h = instruction_of-Reads w w.inst_sect h
