-- ===== src/Decoder/Readers.antt =====
-- xd3_decode_byte and xd3_decode_bytes go on where they stopped.
use swift_xdelta.Prelude.{
  ℕ, ◌+◌, ◌%◌, ◌≡◌, refl, sym, ap, ◌∙◌, arith, true, false, List, [], ◌∷◌, ◌++◌, inl, inr,
  Bool-cases,
}
use swift_xdelta.Prelude.{input, if◌then◌else◌, ltb, length}
use swift_xdelta.Integer.{Input, xoff_mod}
use swift_xdelta.Integer.Incremental.{more_input}
use swift_xdelta.Decoder.{
  Stream, done, stop, next_byte, byte, Gathered, gather, gathered, bytes, size,
}
use swift_xdelta.Decoder.Resume.{feed, resume_of, Asks, AsksOf, IsResumable}

next_byte_again :
    (ys : List ℕ) (s : Stream) (l : List ℕ)
    → s.inp.next_in ≡ l
    → next_byte (feed ys s) (l ++ ys) ≡ resume_of byte ys (next_byte s l)
unfolding next_byte byte
next_byte_again ys s [] e = ap (λ l. next_byte (feed ys s) (l ++ ys)) (sym e)
next_byte_again ys s (b ∷ l) e = refl

next_byte_asks : (s : Stream) (l : List ℕ) → s.inp.next_in ≡ l → AsksOf s (next_byte s l)
unfolding next_byte
next_byte_asks s [] e = λ t. record { taken = e; state = refl; hdr_ind = refl; win_ind = refl }
next_byte_asks s (b ∷ l) e = tt

pub byte-IsResumable : IsResumable byte
unfolding byte
byte-IsResumable = record {
  again = λ ys s. next_byte_again ys s s.inp.next_in refl;
  asks = λ s. next_byte_asks s s.inp.next_in refl;
}

-- The rounds on input in two pieces.
abbrev gather_more : ℕ → Gathered → List ℕ → Gathered
gather_more size g ys =
    if g.full
    then record g { left = more_input g.left ys }
    else gather size (g.left.next_in ++ ys) g.left.total_in g.buf

gather-append :
    (size : ℕ) (xs ys : List ℕ) (total : ℕ) (buf : List ℕ)
    → gather size (xs ++ ys) total buf ≡ gather_more size (gather size xs total buf) ys
unfolding gather
gather-append size [] ys total buf = elim (Bool-cases (ltb (length buf) size)) [
  | inl short ↦ rw short refl
  | inr whole ↦ rw whole (whole_stays ys whole)
]
  where
    whole_stays :
        (ys : List ℕ)
        → ltb (length buf) size ≡ false
        → gather size ys total buf
          ≡ record { full = true; left = record { next_in = ys; total_in = total }; buf = buf }
    whole_stays [] e = rw e refl
    whole_stays (y ∷ ys) e = rw e refl
gather-append size (x ∷ xs) ys total buf = elim (Bool-cases (ltb (length buf) size)) [
  | inl short ↦ rw short (gather-append size xs ys ((total + 1) % xoff_mod) (buf ++ x ∷ []))
  | inr whole ↦ rw whole refl
]

gather_taken :
    (size : ℕ) (xs : List ℕ) (total : ℕ) (buf : List ℕ)
    → (gather size xs total buf).full ≡ false
    → (gather size xs total buf).left.next_in ≡ []
unfolding gather
gather_taken size [] total buf e = refl
gather_taken size (x ∷ xs) total buf e = elim (Bool-cases (ltb (length buf) size)) [
  | inl short ↦
      rw short (gather_taken size xs ((total + 1) % xoff_mod) (buf ++ x ∷ []) (rw short at e))
  | inr whole ↦ absurd (ground arith)
]

-- The buffer is a field that only `put` changes, and the wanted size is none of what reading changes.
pub record IsBuffer (get : Stream → List ℕ) (put : List ℕ → Stream → Stream) (size : Stream → ℕ)
    : Type 0 where
  pub get_feed : (ys : List ℕ) (s : Stream) → get (feed ys s) ≡ get s
  pub size_feed : (ys : List ℕ) (s : Stream) → size (feed ys s) ≡ size s
  pub put_feed :
      (ys b : List ℕ) (i : Input) (s : Stream)
      → put b (record s { inp = more_input i ys }) ≡ feed ys (put b (record s { inp = i }))
  pub get_again :
      (ys b : List ℕ) (i : Input) (s : Stream) → get (feed ys (put b (record s { inp = i }))) ≡ b
  pub size_again :
      (ys b : List ℕ) (i : Input) (s : Stream)
      → size (feed ys (put b (record s { inp = i }))) ≡ size s
  pub put_again :
      (ys b c : List ℕ) (i j : Input) (s : Stream)
      → put c (record (feed ys (put b (record s { inp = i }))) { inp = j })
        ≡ put c (record s { inp = j })
  pub inp_again :
      (ys b : List ℕ) (i : Input) (s : Stream)
      → (feed ys (put b (record s { inp = i }))).inp ≡ more_input i ys
  pub asks :
      (b : List ℕ) (i : Input) (s : Stream) → i.next_in ≡ [] → Asks s (put b (record s { inp = i }))

module _ (get : Stream → List ℕ) (put : List ℕ → Stream → Stream) (size : Stream → ℕ)
    (buffer : IsBuffer get put size) where
  -- The rest of the bytes, from where the first call stopped.
  from_stop :
      (ys : List ℕ) (s : Stream) (g : Gathered)
      → bytes get put size (feed ys (put g.buf (record s { inp = g.left })))
        ≡ gathered put s (gather (size s) (g.left.next_in ++ ys) g.left.total_in g.buf)
  unfolding bytes
  from_stop ys s g =
      let s' = feed ys (put g.buf (record s { inp = g.left })) in
      let e = buffer.inp_again ys g.buf g.left s in
      ap (gathered put s') (
        ap (λ n. gather n s'.inp.next_in s'.inp.total_in (get s'))
          (buffer.size_again ys g.buf g.left s)
        ∙ ap (λ (i : Input). gather (size s) i.next_in i.total_in (get s')) e
        ∙ ap (gather (size s) (g.left.next_in ++ ys) g.left.total_in)
            (buffer.get_again ys g.buf g.left s))
      ∙ gathered_again ys g.buf g.left s
          (gather (size s) (g.left.next_in ++ ys) g.left.total_in g.buf)
    where
      gathered_again :
          (ys b : List ℕ) (i : Input) (s : Stream) (h : Gathered)
          → gathered put (feed ys (put b (record s { inp = i }))) h ≡ gathered put s h
      gathered_again ys b i s h =
          unfold gathered in
          ap (λ u. if h.full then done tt u else stop input u)
            (buffer.put_again ys b h.buf i h.left s)

  gathered_more :
      (ys : List ℕ) (s : Stream) (g : Gathered)
      → gathered put (feed ys s) (gather_more (size s) g ys)
        ≡ resume_of (bytes get put size) ys (gathered put s g)
  unfolding gathered
  gathered_more ys s g = elim (Bool-cases g.full) [
    | inl whole ↦ simp whole (ap (done tt) (buffer.put_feed ys g.buf g.left s))
    | inr short ↦ simp short (sym (from_stop ys s g))
  ]

  bytes_again :
      (ys : List ℕ) (s : Stream)
      → bytes get put size (feed ys s) ≡ resume_of (bytes get put size) ys (bytes get put size s)
  unfolding bytes
  bytes_again ys s =
      ap (gathered put (feed ys s)) (
        ap (λ n. gather n (s.inp.next_in ++ ys) s.inp.total_in (get (feed ys s)))
          (buffer.size_feed ys s)
        ∙ ap (gather (size s) (s.inp.next_in ++ ys) s.inp.total_in) (buffer.get_feed ys s)
        ∙ gather-append (size s) s.inp.next_in ys s.inp.total_in (get s))
      ∙ gathered_more ys s (gather (size s) s.inp.next_in s.inp.total_in (get s))

  gathered_asks :
      (s : Stream) (g : Gathered)
      → (g.full ≡ false → g.left.next_in ≡ [])
      → AsksOf s (gathered put s g)
  unfolding gathered
  gathered_asks s g h = elim (Bool-cases g.full) [
    | inl whole ↦ simp whole tt
    | inr short ↦ simp short (λ t. buffer.asks g.buf g.left s (h short))
  ]

  pub bytes-IsResumable : IsResumable (bytes get put size)
  bytes-IsResumable = record {
    again = bytes_again;
    asks = λ s.
        unfold bytes in
        gathered_asks s (gather (size s) s.inp.next_in s.inp.total_in (get s))
          (gather_taken (size s) s.inp.next_in s.inp.total_in (get s));
  }
