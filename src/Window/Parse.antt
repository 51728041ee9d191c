-- ===== src/Window/Parse.antt =====
-- What xd3_decode_parse_halfinst leaves in the window, and of its half of an instruction.
use swift_xdelta.Prelude.{
  ℕ, ◌+◌, ◌-◌, ◌%◌, ◌≤◌, ◌<◌, ◌≡◌, ◌≢◌, refl, sym, ap, ◌∙◌, arith, inl, inr, ◌&&◌, List, length,
  length-append,
}
use swift_xdelta.Prelude.{
  OkAll, OkAll-bind, if_both, false, ==_iff, Bool-cases, ltb, leb, ◌==◌, Result, ok, err, ◌>>=◌,
}
use swift_xdelta.Integer.{uint64, read_integer}
use swift_xdelta.Integer.Bounds.{read_integer-Read}
use swift_xdelta.AddrCache.{usize_mod, decode_address, AddressIn}
use swift_xdelta.CodeTable.{xd3_noop, xd3_cpy}
use swift_xdelta.Window.{
  Hinst, Window, parse_size, sized_as, parse_addr, parse_copy, check_copy, advance, parse_halfinst,
  parse_half,
}
use swift_xdelta.Window.Steps.{pending, CopyReady, pending-other, pending-noop}

-- What parsing leaves alone.
pub record Same (w w' : Window) : Type 0 where
  pub out : w'.out ≡ w.out
  pub space_out : w'.space_out ≡ w.space_out
  pub cpylen : w'.cpylen ≡ w.cpylen
  pub tgtlen : w'.tgtlen ≡ w.tgtlen
  pub src : w'.src ≡ w.src
  pub shorter : length w'.inst_sect ≤ length w.inst_sect

pub Same-self : (w : Window) → Same w w
Same-self w = record {
  out = refl;
  space_out = refl;
  cpylen = refl;
  tgtlen = refl;
  src = refl;
  shorter = omega arith;
}

pub Same-trans : (a b c : Window) → Same a b → Same b c → Same a c
Same-trans a b c p q = record {
  out = q.out ∙ p.out;
  space_out = q.space_out ∙ p.space_out;
  cpylen = q.cpylen ∙ p.cpylen;
  tgtlen = q.tgtlen ∙ p.tgtlen;
  src = q.src ∙ p.src;
  shorter = omega (arith, p.shorter, q.shorter);
}

-- The type stays; a stage before the last leaves the position too.
record Staged (w : Window) (i : Hinst) (r : Window × Hinst) : Type 0 where
  same : Same w r.0
  position : r.0.position ≡ w.position
  type : r.1.type ≡ i.type

rest_shorter :
    (inp : List ℕ) (v : ℕ) (rest : List ℕ)
    → read_integer uint64 inp ≡ ok (v, rest)
    → length rest ≤ length inp
rest_shorter inp v rest e =
    let read = read_integer-Read uint64 inp v rest e in
    omega (arith, ap length read.front, length-append read.taken rest)

sized_as-Staged :
    (w : Window) (i : Hinst) (r : Result (ℕ × List ℕ))
    → read_integer uint64 w.inst_sect ≡ r
    → OkAll (Staged w i) (sized_as w i r)
unfolding sized_as
sized_as-Staged w i (err x) e = tt
sized_as-Staged w i (ok (size, rest)) e = record {
  same = record {
    out = refl;
    space_out = refl;
    cpylen = refl;
    tgtlen = refl;
    src = refl;
    shorter = rest_shorter w.inst_sect size rest e;
  };
  position = refl;
  type = refl;
}

parse_size-Staged : (w : Window) (i : Hinst) → OkAll (Staged w i) (parse_size w i)
unfolding parse_size
parse_size-Staged w i =
    if_both (OkAll (Staged w i)) (i.size == 0) _ _
      (sized_as-Staged w i (read_integer uint64 w.inst_sect) refl)
      (record { same = Same-self w; position = refl; type = refl })

-- A half whose address has passed the checks.
Checked : Window → Hinst → Window × Hinst → Type 0
Checked w i r = Staged w i r × CopyReady w.cpylen w.position r.1

check_copy-Checked :
    (w : Window) (i : Hinst) (r : Window × Hinst)
    → Staged w i r
    → OkAll (Checked w i) (check_copy r)
unfolding check_copy Checked
check_copy-Checked w i (w', i') st = elim (Bool-cases (leb w'.position i'.addr)) [
  | inl far ↦ rw far tt
  | inr near ↦
      rw near
        (elim (Bool-cases
          (ltb i'.addr w'.cpylen && ltb w'.cpylen ((i'.addr + i'.size) % usize_mod))) [
            | inl out ↦ rw out tt
            | inr inside ↦ rw inside (
              st,
              λ cpy. (
                omega (arith, st.position, leb-false w'.position i'.addr near),
                λ lt. within w'.cpylen w.cpylen i'.addr _ st.same.cpylen inside lt,
              ),
            )
          ])
]
  where
    leb-false : (a b : ℕ) → leb a b ≡ false → b < a
    leb-false a b h = ground arith

    within : (c d a e : ℕ) → c ≡ d → ltb a c && ltb c e ≡ false → a < d → e ≤ d
    within c d a e same h lt = ground arith

parse_addr-Checked :
    (w : Window) (i : Hinst) (r : Window × Hinst)
    → Staged w i r
    → OkAll (Checked w i) (parse_addr r)
unfolding parse_addr parse_copy Checked
parse_addr-Checked w i (w', i') st = elim (Bool-cases (leb xd3_cpy i'.type)) [
  | inl copy ↦ rw copy (
      OkAll-bind (λ a. Unit {0}) (Checked w i)
        (decode_address w'.acache w'.position (i'.type - xd3_cpy) w'.addr_sect) _
        (always (decode_address w'.acache w'.position (i'.type - xd3_cpy) w'.addr_sect))
        λ a u.
          check_copy-Checked w i
            (record w' { addr_sect = a.rest; acache = a.cache }, record i' { addr = a.val })
            (record {
              same = record {
                out = st.same.out;
                space_out = st.same.space_out;
                cpylen = st.same.cpylen;
                tgtlen = st.same.tgtlen;
                src = st.same.src;
                shorter = st.same.shorter;
              };
              position = st.position;
              type = st.type;
            }))
  | inr other ↦ rw other (st, λ cpy. absurd (ground arith))
]
  where
    always : (m : Result AddressIn) → OkAll (λ a. Unit {0}) m
    always (err e) = tt
    always (ok a) = tt

-- A parsed half.
pub record Parsed (w : Window) (i : Hinst) (r : Window × Hinst) : Type 0 where
  pub same : Same w r.0
  pub position : r.0.position ≡ (w.position + pending r.1) % usize_mod
  pub ready : CopyReady w.cpylen w.position r.1

advance-Parsed :
    (w : Window) (i : Hinst) (r : Window × Hinst)
    → i.type ≢ xd3_noop
    → Checked w i r
    → OkAll (Parsed w i) (advance r)
unfolding advance Checked
advance-Parsed w i (w', i') ne (st, ready) =
    if_both (OkAll (Parsed w i)) (ltb w'.maxpos ((w'.position + i'.size) % usize_mod)) _ _ tt
      (record {
        same = record {
          out = st.same.out;
          space_out = st.same.space_out;
          cpylen = st.same.cpylen;
          tgtlen = st.same.tgtlen;
          src = st.same.src;
          shorter = st.same.shorter;
        };
        position =
            ap (λ t. t % usize_mod)
              (omega (arith, st.position, pending-other i' (λ e. ne (sym st.type ∙ e))));
        ready = ready;
      })

pub parse_half-Parsed :
    (w : Window) (i : Hinst) → w.position < usize_mod → OkAll (Parsed w i) (parse_half w i)
unfolding parse_half parse_halfinst
parse_half-Parsed w i small = elim (Bool-cases (i.type == xd3_noop)) [
  | inl none ↦ rw none (record {
    same = Same-self w;
    position = omega (arith, pending-noop i ((==_iff _ _).0 none));
    ready = λ cpy. absurd (ground arith);
  })
  | inr other ↦
      let ne : i.type ≢ xd3_noop = ground arith in
      rw other (
        OkAll-bind (Checked w i) (Parsed w i) (parse_size w i >>= parse_addr) advance
          (OkAll-bind (Staged w i) (Checked w i) (parse_size w i) parse_addr (parse_size-Staged w i)
            (parse_addr-Checked w i))
          λ r c. advance-Parsed w i r ne c)
]
