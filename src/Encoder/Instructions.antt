-- ===== src/Encoder/Instructions.antt =====
-- The rounds of xd3_decode_emit on the codes that xd3_emit_single and xd3_emit_double write.
use swift_xdelta.Prelude.{
  ℕ, zero, suc, ◌+◌, ◌≤◌, ◌<◌, ◌≡◌, ◌≢◌, refl, ◌∙◌, arith, List, [], ◌∷◌, ◌++◌, ◌&&◌,
}
use swift_xdelta.Prelude.{false, true, Option, some, length, take, length-append, ◌==◌, ok}
use swift_xdelta.Integer.{uint64, encode_integer, read_integer}
use swift_xdelta.Integer.RoundTrip.{read-encode}
use swift_xdelta.AddrCache.{usize_mod, Cache}
use swift_xdelta.CodeTable.{xd3_noop, single}
use swift_xdelta.CodeTable.Entries.{entry}
use swift_xdelta.Source.{Getblk}
use swift_xdelta.Window.{
  Hinst, Window, moved, sized_as, parse_size, parse_halfinst, parse_half, parse_both,
  instruction_of, decode_instruction,
}
use swift_xdelta.Window.Emit.{
  is_noop, is_empty, output_half, after_half1, after_half2, output_both, next_pair, emit_loop,
}
use swift_xdelta.Encoder.Halves.{win, half, Half, output_half-noop}

-- The loop goes from one window to another, with a byte of instructions for each round at least.
pub data Leads (client : Option Getblk) : Window → Window → Type 0 where
  here : (w : Window) → Leads client w w
  on :
      (w v u : Window)
      → length v.inst_sect < length w.inst_sect
      → ((fuel : ℕ) → emit_loop (suc fuel) client w ≡ emit_loop fuel client v)
      → Leads client v u
      → Leads client w u

pub Leads-trans :
    {client : Option Getblk} {w v u : Window}
    → Leads client w v
    → Leads client v u
    → Leads client w u
Leads-trans (here w) q = q
Leads-trans (on w v u fewer step p) q = on w v _ fewer step (Leads-trans p q)

-- With fuel for each byte and one round more, the loop ends where it leads to.
pub emit_loop-Leads :
    (client : Option Getblk) (w v : Window) (fuel : ℕ)
    → Leads client w v
    → v.inst_sect ≡ []
    → v.current1.type ≡ xd3_noop
    → v.current2.type ≡ xd3_noop
    → length w.inst_sect < fuel
    → emit_loop fuel client w ≡ moved v
emit_loop-Leads client w v zero p e n1 n2 few = absurd (omega arith)
emit_loop-Leads client w v (suc fuel) (here w') e n1 n2 few =
    unfold emit_loop in rw (e, n1, n2) refl
emit_loop-Leads client w v (suc fuel) (on w' u v' fewer step p) e n1 n2 few =
    step fuel ∙ emit_loop-Leads client u v fuel p e n1 n2 (omega arith)

-- How a size is written: in the code, or behind it.
pub data Sized (size : ℕ) : ℕ → List ℕ → Type 0 where
  in_code : 1 ≤ size → Sized size size []
  behind : (bs : List ℕ) → encode_integer size ≡ some bs → Sized size 0 bs

read_back :
    (d : ℕ) (bs rest : List ℕ)
    → d < usize_mod
    → encode_integer d ≡ some bs
    → read_integer uint64 (bs ++ rest) ≡ ok (d, rest)
read_back d bs rest h e =
    let (bs', e', size, read) = read-encode uint64 d rest h in
    let same : bs ≡ bs' = cc in rw same read

module _ (client : Option Getblk) (b : Window) (bs : List ℕ) where
  parse_size-Sized :
      (type size n : ℕ) (sz i d a : List ℕ) (c : Cache) (p : ℕ) (o : List ℕ) (h1 h2 : Hinst) (x : ℕ)
      → size < usize_mod
      → Sized size n sz
      → parse_size (win b (sz ++ i) d a c p o h1 h2) (half type n x)
        ≡ ok (win b i d a c p o h1 h2, half type size x)
  unfolding parse_size sized_as
  parse_size-Sized type size n sz i d a c p o h1 h2 x lt (in_code some_size) =
      let has : (size == 0) ≡ false = ground arith in rw has refl
  parse_size-Sized type size n sz i d a c p o h1 h2 x lt (behind bytes e) =
      rw (read_back size sz i lt e) refl

  -- A half of the table's entry for the instruction.
  parse_half-Half :
      {type size n pos : ℕ} {sz pd pa : List ℕ} {c c' : Cache}
      (h : Half client b bs type size pos pd pa c c')
      → type ≢ xd3_noop
      → size < usize_mod
      → Sized size n sz
      → (i d a o : List ℕ) (h1 h2 : Hinst) (x : ℕ)
      → parse_half (win b (sz ++ i) d (pa ++ a) c (b.cpylen + pos) o h1 h2) (half type n x)
        ≡ ok (win b i d a c' (b.cpylen + (pos + size)) o h1 h2, half type size (h.read x))
  unfolding parse_half parse_halfinst
  parse_half-Half {type} {size} {n} {pos} {sz} {pd} {pa} {c} h ne lt s i d a o h1 h2 x =
      let some_type : (type == xd3_noop) ≡ false = ground arith in
      rw
        (some_type, parse_size-Sized type size n sz i d (pa ++ a) c (b.cpylen + pos) o h1 h2 x lt s)
        (h.parses i d a o h1 h2 x)

  -- A round that starts a new instruction.
  round :
      (fuel : ℕ) (w v : Window)
      → is_empty w.inst_sect ≡ false
      → w.current1.type ≡ xd3_noop
      → w.current2.type ≡ xd3_noop
      → decode_instruction w ≡ ok v
      → emit_loop (suc fuel) client w
        ≡ after_half1 (emit_loop fuel client) client (output_half client v v.current1)
  unfolding emit_loop output_both next_pair
  round fuel w v more n1 n2 e =
      let idle : (is_noop w.current1 && is_noop w.current2) ≡ true = ground arith in
      rw (more, idle, e) refl

  module _ (h1 h2 : Hinst) (idle1 : h1.type ≡ xd3_noop) (idle2 : h2.type ≡ xd3_noop) where
    -- The code of one instruction, its size behind it where it is not in the code, and its operands.
    pub single-Leads :
        {type size n pos : ℕ} {sz pd pa : List ℕ} {c c' : Cache} (code : ℕ)
        (h : Half client b bs type size pos pd pa c c')
        → type ≢ xd3_noop
        → size < usize_mod
        → Sized size n sz
        → entry code ≡ single type n
        → (i d a : List ℕ)
        → Leads client
            (win b (code ∷ sz ++ i) (pd ++ d) (pa ++ a) c (b.cpylen + pos) (take pos bs) h1 h2)
            (win b i d a c'
              (b.cpylen + (pos + size))
              (take (pos + size) bs)
              (h.left h1.addr)
              (half xd3_noop 0 h2.addr))
    single-Leads {type} {size} {n} {pos} {sz} {pd} {pa} {c} {c'} code h ne lt s e i d a =
        on _ _ _ (omega (arith, length-append sz i)) once (here _)
      where
        parsed :
            decode_instruction
              (win b (code ∷ sz ++ i) (pd ++ d) (pa ++ a) c (b.cpylen + pos) (take pos bs) h1 h2)
            ≡ ok (
                win b i
                  (pd ++ d)
                  a
                  c'
                  (b.cpylen + (pos + size))
                  (take pos bs)
                  (half type size (h.read h1.addr))
                  (half xd3_noop 0 h2.addr))
        parsed =
            unfold decode_instruction in
            unfold instruction_of in
            unfold parse_both in
            rw (e, parse_half-Half h ne lt s i (pd ++ d) a (take pos bs) h1 h2 h1.addr)
              (unfold parse_half in refl)

        once :
            (fuel : ℕ)
            → emit_loop
                (suc fuel)
                client
                (win b (code ∷ sz ++ i) (pd ++ d) (pa ++ a) c (b.cpylen + pos) (take pos bs) h1 h2)
              ≡ emit_loop fuel client (
                  win b i d a c'
                    (b.cpylen + (pos + size))
                    (take (pos + size) bs)
                    (h.left h1.addr)
                    (half xd3_noop 0 h2.addr))
        once fuel =
            let first =
              h.outputs i d a c' (b.cpylen + (pos + size)) (half type size (h.read h1.addr))
                (half xd3_noop 0 h2.addr) h1.addr in
            let second =
              output_half-noop client
                (win b i d a c' (b.cpylen + (pos + size)) (take (pos + size) bs) (h.left h1.addr)
                  (half xd3_noop 0 h2.addr))
                (half xd3_noop 0 h2.addr) refl in
            round fuel _ _ refl idle1 idle2 parsed
            ∙ unfold after_half1 in rw first (unfold after_half2 in rw second refl)

    -- The code of two instructions, whose sizes are in it, and the operands of both.
    pub double-Leads :
        {type1 size1 type2 size2 pos : ℕ} {pd1 pa1 pd2 pa2 : List ℕ} {c c1 c2 : Cache} (code : ℕ)
        (g : Half client b bs type1 size1 pos pd1 pa1 c c1)
        (h : Half client b bs type2 size2 (pos + size1) pd2 pa2 c1 c2)
        → type1 ≢ xd3_noop
        → type2 ≢ xd3_noop
        → 1 ≤ size1
        → 1 ≤ size2
        → size1 < usize_mod
        → size2 < usize_mod
        → entry code ≡ record { type1 = type1; size1 = size1; type2 = type2; size2 = size2 }
        → (i d a : List ℕ)
        → Leads client
            (win b
              (code ∷ i)
              (pd1 ++ (pd2 ++ d))
              (pa1 ++ (pa2 ++ a))
              c
              (b.cpylen + pos)
              (take pos bs)
              h1
              h2)
            (win b i d a c2
              (b.cpylen + (pos + size1 + size2))
              (take (pos + size1 + size2) bs)
              (g.left h1.addr)
              (h.left h2.addr))
    double-Leads {type1} {size1} {type2} {size2} {pos} {pd1} {pa1} {pd2} {pa2} {c} {c1} {c2} code g
          h ne1 ne2 some1 some2 lt1 lt2 e i d a =
        on _ _ _ (omega arith) once (here _)
      where
        first : Hinst
        first = half type1 size1 (g.read h1.addr)

        second : Hinst
        second = half type2 size2 (h.read h2.addr)

        to : ℕ
        to = pos + size1 + size2

        parsed :
            decode_instruction (
              win b
                (code ∷ i)
                (pd1 ++ (pd2 ++ d))
                (pa1 ++ (pa2 ++ a))
                c
                (b.cpylen + pos)
                (take pos bs)
                h1
                h2)
            ≡ ok (
                win b i
                  (pd1 ++ (pd2 ++ d))
                  a
                  c2
                  (b.cpylen + to)
                  (take pos bs)
                  (half type1 size1 (g.read h1.addr))
                  (half type2 size2 (h.read h2.addr)))
        parsed =
            let p1 =
              parse_half-Half g ne1 lt1 (in_code some1) i (pd1 ++ (pd2 ++ d)) (pa2 ++ a)
                (take pos bs) h1 h2 h1.addr in
            let p2 =
              parse_half-Half h ne2 lt2 (in_code some2) i (pd1 ++ (pd2 ++ d)) a (take pos bs) h1 h2
                h2.addr in
            unfold decode_instruction in
            unfold instruction_of in unfold parse_both in rw (e, p1, p2) refl

        once :
            (fuel : ℕ)
            → emit_loop (suc fuel) client (
                win b
                  (code ∷ i)
                  (pd1 ++ (pd2 ++ d))
                  (pa1 ++ (pa2 ++ a))
                  c
                  (b.cpylen + pos)
                  (take pos bs)
                  h1
                  h2)
              ≡ emit_loop fuel client
                  (win b i d a c2 (b.cpylen + to) (take to bs) (g.left h1.addr) (h.left h2.addr))
        once fuel =
            let o1 = g.outputs i (pd2 ++ d) a c2 (b.cpylen + to) first second h1.addr in
            let o2 = h.outputs i d a c2 (b.cpylen + to) (g.left h1.addr) second h2.addr in
            round fuel _ _ refl idle1 idle2 parsed
            ∙ unfold after_half1 in rw o1 (unfold after_half2 in rw o2 refl)
