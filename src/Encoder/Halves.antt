-- ===== src/Encoder/Halves.antt =====
-- One instruction of the encoder's, read back by the decoder: what xd3_decode_parse_halfinst and
-- xd3_decode_output_halfinst make of its operands.
use swift_xdelta.Prelude.{
  ℕ, zero, suc, ◌+◌, ◌-◌, ◌%◌, ◌≤◌, ◌<◌, ◌≡◌, ◌≢◌, refl, sym, ap, arith, List, [], ◌∷◌, ◌++◌, ◌||◌,
}
use swift_xdelta.Prelude.{
  false, Option, length, take, drop, length-append, length-take, length-drop, true, ltb, leb, ◌==◌,
  ok, ◌>>=◌,
}
use swift_xdelta.AddrCache.{usize_mod, Cache, decode_address}
use swift_xdelta.CodeTable.{xd3_noop, xd3_add, xd3_run, xd3_cpy}
use swift_xdelta.Source.{Getblk}
use swift_xdelta.Window.{
  Hinst, Window, moved, check_copy, parse_copy, parse_addr, advance, run_byte, add_bytes, wrote,
  copy_target, copy_half, output_halfinst,
}
use swift_xdelta.Window.Emit.{half_again, half_loop, output_half}
use swift_xdelta.Encoder.Matches.{Repeats, IsRun, overlap_copy-take, replicate-take, take-sum}

-- A window with the given sections, cache, position, output and halves.
abbrev pub win : Window → List ℕ → List ℕ → List ℕ → Cache → ℕ → List ℕ → Hinst → Hinst → Window
win b i d a c p o h1 h2 = record b {
  inst_sect = i;
  data_sect = d;
  addr_sect = a;
  acache = c;
  position = p;
  out = o;
  current1 = h1;
  current2 = h2;
}

abbrev pub half : ℕ → ℕ → ℕ → Hinst
half type size addr = record { type = type; size = size; addr = addr }

-- The window is as large as the target `bs`.
pub record IsFor (bs : List ℕ) (b : Window) : Type 0 where
  pub inside : b.cpylen + length bs ≤ b.maxpos
  pub word : b.cpylen + length bs < usize_mod
  pub room : length bs ≤ b.space_out

-- An instruction of `type` and `size` that is written at `pos`, with `pd` in the data section and
-- `pa` in the address section: the decoder takes these off, moves its cache from `c` to `c'`, and
-- writes the target's next bytes.
pub record Half (client : Option Getblk) (b : Window) (bs : List ℕ) (type size pos : ℕ)
    (pd pa : List ℕ) (c c' : Cache) : Type 0 where
  pub read : ℕ → ℕ
  pub left : ℕ → Hinst
  pub left_noop : (x : ℕ) → (left x).type ≡ xd3_noop
  pub parses :
      (i d a o : List ℕ) (h1 h2 : Hinst) (x : ℕ)
      → (parse_addr (win b i d (pa ++ a) c (b.cpylen + pos) o h1 h2, half type size x) >>= advance)
        ≡ ok (win b i d a c' (b.cpylen + (pos + size)) o h1 h2, half type size (read x))
  pub outputs :
      (i d a : List ℕ) (k : Cache) (p : ℕ) (h1 h2 : Hinst) (x : ℕ)
      → output_half client (win b i (pd ++ d) a k p (take pos bs) h1 h2) (half type size (read x))
        ≡ moved (win b i d a k p (take (pos + size) bs) h1 h2, left x)

take-append : (xs ys : List ℕ) (n : ℕ) → length xs ≡ n → take n (xs ++ ys) ≡ xs
take-append [] ys zero e = refl
take-append [] ys (suc n) e = absurd (omega arith)
take-append (x ∷ xs) ys zero e = absurd (omega arith)
take-append (x ∷ xs) ys (suc n) e = ap (λ t. x ∷ t) (take-append xs ys n (omega arith))

drop-append : (xs ys : List ℕ) (n : ℕ) → length xs ≡ n → drop n (xs ++ ys) ≡ ys
drop-append [] ys zero e = refl
drop-append [] ys (suc n) e = absurd (omega arith)
drop-append (x ∷ xs) ys zero e = absurd (omega arith)
drop-append (x ∷ xs) ys (suc n) e = drop-append xs ys n (omega arith)

pub output_half-noop :
    (client : Option Getblk) (w : Window) (i : Hinst)
    → i.type ≡ xd3_noop
    → output_half client w i ≡ moved (w, i)
unfolding output_half half_loop
output_half-noop client w i e =
    let fuel : i.size + 2 ≡ suc (suc i.size) = omega arith in rw fuel (rw e refl)

-- A turn that does the half is all.
output_half-once :
    (client : Option Getblk) (w w' : Window) (i i' : Hinst)
    → i.type ≢ xd3_noop
    → i'.type ≡ xd3_noop
    → output_halfinst client w i ≡ moved (w', i')
    → output_half client w i ≡ moved (w', i')
unfolding output_half half_loop half_again
output_half-once client w w' i i' ne e once =
    let fuel : i.size + 2 ≡ suc (suc i.size) = omega arith in
    let busy : (i.type == xd3_noop) ≡ false = ground arith in rw fuel (rw (busy, once) (rw e refl))

module _ (client : Option Getblk) (b : Window) (bs : List ℕ) (base : IsFor bs b) where
  advance-to :
      (i d a : List ℕ) (c : Cache) (pos : ℕ) (o : List ℕ) (h1 h2 h : Hinst)
      → pos + h.size ≤ length bs
      → advance (win b i d a c (b.cpylen + pos) o h1 h2, h)
        ≡ ok (win b i d a c (b.cpylen + (pos + h.size)) o h1 h2, h)
  unfolding advance
  advance-to i d a c pos o h1 h2 h fits =
      let to : (b.cpylen + pos + h.size) % usize_mod ≡ b.cpylen + (pos + h.size) =
        omega (arith, base.word) in
      let low : ltb b.maxpos (b.cpylen + (pos + h.size)) ≡ false = ground (arith, base.inside) in
      rw (to, low) refl

  -- The checks before a half is written.
  roomy :
      (pos size : ℕ)
      → pos + size ≤ length bs
      → (ltb (usize_mod - 1 - length (take pos bs)) size
          || ltb b.space_out (length (take pos bs) + size))
        ≡ false
  roomy pos size fits =
      let len : length (take pos bs) ≡ pos = length-take pos bs (omega arith) in
      rw len (ground (arith, base.room, base.word))

  pub run-Half :
      (x size pos : ℕ) (c : Cache)
      → pos + size ≤ length bs
      → IsRun bs x pos size
      → Half client b bs xd3_run size pos (x ∷ []) [] c c
  run-Half x size pos c fits run = record {
    read = λ y. y;
    left = λ y. half xd3_noop size y;
    left_noop = λ y. refl;
    parses = λ i d a o h1 h2 y.
        unfold parse_addr in advance-to i d a c pos o h1 h2 (half xd3_run size y) fits;
    outputs = λ i d a k p h1 h2 y.
        output_half-once client (win b i (x ∷ d) a k p (take pos bs) h1 h2) _ (half xd3_run size y)
          (half xd3_noop size y) (omega arith) refl
          (unfold output_halfinst in
            unfold run_byte in rw (roomy pos size fits, replicate-take size pos x bs run) refl);
  }

  pub add-Half :
      (size pos : ℕ) (c : Cache)
      → pos + size ≤ length bs
      → Half client b bs xd3_add size pos (take size (drop pos bs)) [] c c
  add-Half size pos c fits = record {
    read = λ y. y;
    left = λ y. half xd3_noop size y;
    left_noop = λ y. refl;
    parses = λ i d a o h1 h2 y.
        unfold parse_addr in advance-to i d a c pos o h1 h2 (half xd3_add size y) fits;
    outputs = λ i d a k p h1 h2 y.
        let bytes = take size (drop pos bs) in
        let len : length bytes ≡ size =
          length-take size (drop pos bs) (omega (arith, length-drop pos bs)) in
        let enough : ltb (length (bytes ++ d)) size ≡ false =
          ground (arith, length-append bytes d, len) in
        output_half-once client (win b i (bytes ++ d) a k p (take pos bs) h1 h2) _
          (half xd3_add size y) (half xd3_noop size y) (omega arith) refl
          (unfold output_halfinst in
            unfold add_bytes in
            rw
              (
                roomy pos size fits,
                enough,
                take-append bytes d size len,
                drop-append bytes d size len,
                sym (take-sum pos size bs),
              )
              refl);
  }

  copy_parses :
      (type size pos addr : ℕ) (pa : List ℕ) (c c' : Cache)
      → pos + size ≤ length bs
      → addr < pos
      → xd3_cpy ≤ type
      → ((a : List ℕ)
          → decode_address c (b.cpylen + pos) (type - xd3_cpy) (pa ++ a)
            ≡ ok (record { val = b.cpylen + addr; rest = a; cache = c' }))
      → (i d a o : List ℕ) (h1 h2 : Hinst) (x : ℕ)
      → (parse_addr (win b i d (pa ++ a) c (b.cpylen + pos) o h1 h2, half type size x) >>= advance)
        ≡ ok (win b i d a c' (b.cpylen + (pos + size)) o h1 h2, half type size (b.cpylen + addr))
  unfolding parse_addr parse_copy check_copy
  copy_parses type size pos addr pa c c' fits before cpy reads i d a o h1 h2 x =
      let copy : leb xd3_cpy type ≡ true = ground arith in
      let behind : leb (b.cpylen + pos) (b.cpylen + addr) ≡ false = ground arith in
      let here : ltb (b.cpylen + addr) b.cpylen ≡ false = ground arith in
      rw (copy, reads a)
        (rw (behind, here)
          (advance-to i d a c' pos o h1 h2 (half type size (b.cpylen + addr)) fits))

  copy_outputs :
      (type size pos addr : ℕ)
      → pos + size ≤ length bs
      → addr < pos
      → xd3_cpy ≤ type
      → Repeats bs addr pos size
      → (i d a : List ℕ) (k : Cache) (p : ℕ) (h1 h2 : Hinst)
      → output_half client (win b i d a k p (take pos bs) h1 h2) (half type size (b.cpylen + addr))
        ≡ moved (win b i d a k p (take (pos + size) bs) h1 h2, half xd3_noop 0 (b.cpylen + addr))
  copy_outputs type size pos addr fits before cpy same i d a k p h1 h2 =
      let no_run : (type == xd3_run) ≡ false = ground arith in
      let no_add : (type == xd3_add) ≡ false = ground arith in
      let here : ltb (b.cpylen + addr) b.cpylen ≡ false = ground arith in
      let from : b.cpylen + addr - b.cpylen ≡ addr = omega arith in
      output_half-once client (win b i d a k p (take pos bs) h1 h2) _
        (half type size (b.cpylen + addr)) (half xd3_noop 0 (b.cpylen + addr)) (omega arith) refl
        (unfold output_halfinst in
          unfold copy_half in
          unfold copy_target in
          unfold wrote in
          rw
            (
              roomy pos size fits,
              no_run,
              no_add,
              here,
              from,
              overlap_copy-take size addr pos bs before fits same,
            )
            refl)

  pub copy-Half :
      (type size pos addr : ℕ) (pa : List ℕ) (c c' : Cache)
      → pos + size ≤ length bs
      → addr < pos
      → xd3_cpy ≤ type
      → Repeats bs addr pos size
      → ((a : List ℕ)
          → decode_address c (b.cpylen + pos) (type - xd3_cpy) (pa ++ a)
            ≡ ok (record { val = b.cpylen + addr; rest = a; cache = c' }))
      → Half client b bs type size pos [] pa c c'
  copy-Half type size pos addr pa c c' fits before cpy same reads = record {
    read = λ x. b.cpylen + addr;
    left = λ x. half xd3_noop 0 (b.cpylen + addr);
    left_noop = λ x. refl;
    parses = copy_parses type size pos addr pa c c' fits before cpy reads;
    outputs =
        λ i d a k p h1 h2 x. copy_outputs type size pos addr fits before cpy same i d a k p h1 h2;
  }
