-- ===== src/Decoder/Numbers.antt =====
-- xd3_decode_size and xd3_decode_offset go on where they stopped.
use swift_xdelta.Prelude.{ℕ, ◌≡◌, refl, sym, ap, ◌∙◌, true, List, []}
use swift_xdelta.Prelude.{Rvalue, Result, ok, err, input}
use swift_xdelta.Integer.{Width, Input, Decoded, decode_integer}
use swift_xdelta.Integer.Incremental.{
  more_input, resume, decode_integer-append, decode_integer_taken,
}
use swift_xdelta.Decoder.{Stream, done, stop, M, integer_read, from_decoded}
use swift_xdelta.Decoder.Resume.{feed, feed_out, is_input, resume_of, Asks, AsksOf, IsResumable}

is_input-eq : (e : Rvalue) → is_input e ≡ true → e ≡ input
is_input-eq input t = refl
is_input-eq other t = cc

-- A field for the part of an integer.
pub record IsPart (get : Stream → ℕ) (put : ℕ → Stream → Stream) : Type 0 where
  pub get_feed : (ys : List ℕ) (s : Stream) → get (feed ys s) ≡ get s
  pub put_feed :
      (ys : List ℕ) (p : ℕ) (i : Input) (s : Stream)
      → put p (record s { inp = more_input i ys }) ≡ feed ys (put p (record s { inp = i }))
  pub get_again :
      (ys : List ℕ) (p : ℕ) (i : Input) (s : Stream)
      → get (feed ys (put p (record s { inp = i }))) ≡ p
  pub put_again :
      (ys : List ℕ) (p q : ℕ) (i j : Input) (s : Stream)
      → put q (record (feed ys (put p (record s { inp = i }))) { inp = j })
        ≡ put q (record s { inp = j })
  pub inp_again :
      (ys : List ℕ) (p : ℕ) (i : Input) (s : Stream)
      → (feed ys (put p (record s { inp = i }))).inp ≡ more_input i ys
  pub asks :
      (p : ℕ) (i : Input) (s : Stream) → i.next_in ≡ [] → Asks s (put p (record s { inp = i }))

module _ (w : Width) (get : Stream → ℕ) (put : ℕ → Stream → Stream) (field : IsPart get put) where
  abbrev pub integer : M ℕ
  integer s = from_decoded put s (decode_integer w s.inp (get s))

  -- What is made of the same outcome of the decoder, from the stream with more input.
  read_feed :
      (ys : List ℕ) (s : Stream) (i : Input) (p : ℕ) (r : Result ℕ)
      → integer_read put (feed ys s) (more_input i ys) p r ≡ feed_out ys (integer_read put s i p r)
  unfolding integer_read
  read_feed ys s i p (ok v) = ap (done v) (field.put_feed ys p i s)
  read_feed ys s i p (err e) = ap (stop e) (field.put_feed ys p i s)

  read_again :
      (ys : List ℕ) (p q : ℕ) (i j : Input) (s : Stream) (r : Result ℕ)
      → integer_read put (feed ys (put p (record s { inp = i }))) j q r ≡ integer_read put s j q r
  unfolding integer_read
  read_again ys p q i j s (ok v) = ap (done v) (field.put_again ys p q i j s)
  read_again ys p q i j s (err e) = ap (stop e) (field.put_again ys p q i j s)

  integer_stop :
      (ys : List ℕ) (s : Stream) (i : Input) (p : ℕ)
      → integer (feed ys (put p (record s { inp = i })))
        ≡ from_decoded put s (decode_integer w (more_input i ys) p)
  integer_stop ys s i p =
      let s' = feed ys (put p (record s { inp = i })) in
      let d = decode_integer w (more_input i ys) p in
      ap (λ (j : Input). from_decoded put s' (decode_integer w j (get s')))
        (field.inp_again ys p i s)
      ∙ ap (λ q. from_decoded put s' (decode_integer w (more_input i ys) q))
          (field.get_again ys p i s)
      ∙ (unfold from_decoded in read_again ys p d.part i d.left s d.result)

  on_feed :
      (ys : List ℕ) (s : Stream) (d : Decoded) (r : Result ℕ)
      → integer_read put (feed ys s) d.left d.part r ≡ integer_read put s d.left d.part r
  unfolding integer_read
  on_feed ys s d (ok v) = refl
  on_feed ys s d (err e) = refl

  decoded_again :
      (ys : List ℕ) (s : Stream) (i : Input) (p : ℕ) (r : Result ℕ)
      → from_decoded put (feed ys s) (resume w (record { result = r; left = i; part = p }) ys)
        ≡ resume_of integer ys (integer_read put s i p r)
  unfolding from_decoded
  decoded_again ys s i p (ok v) = read_feed ys s i p (ok v) ∙ (unfold integer_read in refl)
  decoded_again ys s i p (err input) =
      let d = decode_integer w (more_input i ys) p in
      on_feed ys s d d.result ∙ sym (integer_stop ys s i p) ∙ (unfold integer_read in refl)
  decoded_again ys s i p (err e) = read_feed ys s i p (err e) ∙ (unfold integer_read in refl)

  integer_again :
      (ys : List ℕ) (s : Stream) → integer (feed ys s) ≡ resume_of integer ys (integer s)
  integer_again ys s =
      let d = decode_integer w s.inp (get s) in
      ap (λ p. from_decoded put (feed ys s) (decode_integer w (more_input s.inp ys) p))
        (field.get_feed ys s)
      ∙ ap (from_decoded put (feed ys s)) (decode_integer-append w s.inp (get s) ys)
      ∙ decoded_again ys s d.left d.part d.result
      ∙ (unfold from_decoded in refl)

  integer_asks :
      (s : Stream) (i : Input) (p : ℕ) (r : Result ℕ)
      → (r ≡ err input → i.next_in ≡ [])
      → AsksOf s (integer_read put s i p r)
  unfolding integer_read
  integer_asks s i p (ok v) h = tt
  integer_asks s i p (err e) h = λ t. field.asks p i s (h (ap err (is_input-eq e t)))

  pub integer-IsResumable : IsResumable integer
  integer-IsResumable = record {
    again = integer_again;
    asks = λ s.
        unfold from_decoded in
        let d = decode_integer w s.inp (get s) in
        integer_asks s d.left d.part d.result (decode_integer_taken w s.inp (get s));
  }
