-- ===== src/Encoder/Queue.antt =====
-- What the encoder has written, up to the instruction that is still in `iout`, leads the decoder
-- through the target's front part.
use swift_xdelta.Prelude.{
  ℕ, ◌+◌, ◌≤◌, ◌<◌, ◌≡◌, ◌≢◌, refl, Option, none, some, List, [], ◌∷◌, ◌++◌, append_assoc, length,
  take,
}
use swift_xdelta.Sink.{Sect, Sink}
use swift_xdelta.AddrCache.{usize_mod, Cache}
use swift_xdelta.CodeTable.{Rinst, single, xd3_noop}
use swift_xdelta.CodeTable.Entries.{entry, immediate}
use swift_xdelta.CodeTable.Choice.{IsInst}
use swift_xdelta.Source.{Getblk}
use swift_xdelta.Window.{Hinst, Window}
use swift_xdelta.Encoder.{Encoder}
use swift_xdelta.Encoder.Halves.{win, half, Half}
use swift_xdelta.Encoder.Instructions.{Sized, Leads, Leads-trans, single-Leads, double-Leads}
use swift_xdelta.Encoder.Operands.{Ready}

module _ (k : Sink) (client : Option Getblk) (b : Window) (bs : List ℕ) (c0 : Cache)
    (g1 g2 : Hinst) where
  -- An instruction whose operands are written, and whose code is chosen but not written.
  pub record Held (r : Rinst) (q off : ℕ) (pd pa : List ℕ) (c c' : Cache) : Type 0 where
    pub half : Half client b bs r.type r.size r.pos pd pa c c'
    pub real : IsInst r
    pub some_size : 1 ≤ r.size
    pub single_code : r.code2 ≡ 0
    pub coded : entry r.code1 ≡ single r.type (immediate r.type r.size)
    pub at : q ≡ r.pos
    pub to : off ≡ r.pos + r.size

  abbrev pub Pending : Option Rinst → ℕ → ℕ → List ℕ → List ℕ → Cache → Cache → Type 0
  Pending none q off pd pa c c' = (q ≡ off) × (pd ≡ []) × (pa ≡ []) × (c ≡ c')
  Pending (some r) q off pd pa c c' = Held r q off pd pa c c'

  -- The decoder's loop goes from the window's start to `q`, over these bytes of the sections.
  pub record Told (i d a : List ℕ) (c : Cache) (q : ℕ) : Type 0 where
    pub h1 : Hinst
    pub h2 : Hinst
    pub idle1 : h1.type ≡ xd3_noop
    pub idle2 : h2.type ≡ xd3_noop
    pub leads :
        (i' d' a' : List ℕ)
        → Leads client
            (win b (i ++ i') (d ++ d') (a ++ a') c0 b.cpylen [] g1 g2)
            (win b i' d' a' c (b.cpylen + q) (take q bs) h1 h2)

  -- The code of one instruction more.
  pub Told-single :
      {i d a pd pa sz : List ℕ} {c c' : Cache} {q type size n : ℕ} (code : ℕ)
      → Told i d a c q
      → Half client b bs type size q pd pa c c'
      → type ≢ xd3_noop
      → size < usize_mod
      → Sized size n sz
      → entry code ≡ single type n
      → Told (i ++ (code ∷ sz)) (d ++ pd) (a ++ pa) c' (q + size)
  Told-single {i} {d} {a} {pd} {pa} {sz} code t h ne word s is = record {
    h1 = h.left t.h1.addr;
    h2 = half xd3_noop 0 t.h2.addr;
    idle1 = h.left_noop t.h1.addr;
    idle2 = refl;
    leads = λ i' d' a'.
        rw (append_assoc i (code ∷ sz) i', append_assoc d pd d', append_assoc a pa a')
          (Leads-trans (t.leads (code ∷ sz ++ i') (pd ++ d') (pa ++ a'))
            (single-Leads client b bs t.h1 t.h2 t.idle1 t.idle2 code h ne word s is i' d' a'));
  }

  -- The code of two.
  pub Told-double :
      {i d a pd pa pd' pa' : List ℕ} {c c1 c2 : Cache} {q type1 size1 type2 size2 : ℕ} (code : ℕ)
      → Told i d a c q
      → Half client b bs type1 size1 q pd pa c c1
      → Half client b bs type2 size2 (q + size1) pd' pa' c1 c2
      → type1 ≢ xd3_noop
      → type2 ≢ xd3_noop
      → 1 ≤ size1
      → 1 ≤ size2
      → size1 < usize_mod
      → size2 < usize_mod
      → entry code ≡ record { type1 = type1; size1 = size1; type2 = type2; size2 = size2 }
      → Told (i ++ (code ∷ [])) ((d ++ pd) ++ pd') ((a ++ pa) ++ pa') c2 (q + size1 + size2)
  Told-double {i} {d} {a} {pd} {pa} {pd'} {pa'} code t g h ne1 ne2 some1 some2 lt1 lt2 is = record {
    h1 = g.left t.h1.addr;
    h2 = h.left t.h2.addr;
    idle1 = g.left_noop t.h1.addr;
    idle2 = h.left_noop t.h2.addr;
    leads = λ i' d' a'.
        rw
          (
            append_assoc i (code ∷ []) i',
            append_assoc (d ++ pd) pd' d',
            append_assoc d pd (pd' ++ d'),
            append_assoc (a ++ pa) pa' a',
            append_assoc a pa (pa' ++ a'),
          )
          (Leads-trans (t.leads (code ∷ i') (pd ++ (pd' ++ d')) (pa ++ (pa' ++ a'))) (
            double-Leads client b bs t.h1 t.h2 t.idle1 t.idle2 code g h ne1 ne2 some1 some2 lt1 lt2
              is i' d' a'));
  }

  -- The encoder within a window: the target's first `n` bytes are written, but for
  -- the code of the instruction in `iout`.
  pub record Inv (n : ℕ) (e : Encoder k) : Type 0 where
    pub ready : Ready k client b bs e
    pub q : ℕ
    pub cache : Cache
    pub d : List ℕ
    pub a : List ℕ
    pub pd : List ℕ
    pub pa : List ℕ
    pub pending : Pending e.iout q e.unencoded_offset pd pa cache e.acache
    pub adds : k.holds e.out Sect.adds ≡ d ++ pd
    pub addr : k.holds e.out Sect.addr ≡ a ++ pa
    pub told : Told (k.holds e.out Sect.inst) d a cache q
    pub offset : e.unencoded_offset ≡ n
    pub bound : n ≤ length bs
