-- ===== src/Decoder/AppHeader.antt =====
-- The application header of xd3_decode_input: its buffer is taken once, and the state goes on where it
-- stopped.
use swift_xdelta.Prelude.{
  ℕ, ◌-◌, ◌≡◌, refl, sym, ap, ◌∙◌, Bool, true, false, List, [], ◌∷◌, not, ltb, inl, inr, Bool-cases,
  if◌then◌else◌, invalid_input, enomem, Rvalue, input,
}
use swift_xdelta.AddrCache.{usize_mod}
use swift_xdelta.Decoder.{
  Stream, Outcome, done, stop, M, then_do, ◌>>◌, modify, fail_if, when, bytes, Gathered, gather,
  gathered, alloc, answer,
}
use swift_xdelta.Decoder.Header.{has_bit, step_appdat, appheader_buffer, appheader_ready}
use swift_xdelta.Decoder.Resume.{
  feed, feed_out, NotInput, AsksOf, resume_of, IsPlain, IsResumable, then-IsResumable,
}
use swift_xdelta.Decoder.Readers.{bytes-IsResumable}
use swift_xdelta.Decoder.Steps.{plain_rules, on_hdr_ind, appheader-IsBuffer}

-- A part that reads nothing, done before one that reads, and that has nothing left to do when the
-- call after XD3_INPUT runs it again.
record IsSettled (p m : M (Unit {0})) : Type 0 where
  flags :
      (s t : Stream)
      → p s ≡ done tt t
      → (t.state ≡ s.state) × (t.hdr_ind ≡ s.hdr_ind) × (t.win_ind ≡ s.win_ind)
  settled :
      (ys : List ℕ) (e : Rvalue) (s t u : Stream)
      → p s ≡ done tt t
      → m t ≡ stop e u
      → p (feed ys u) ≡ done tt (feed ys u)

module _ (p m : M (Unit {0})) (plain : IsPlain p) (reads : IsResumable m) (h : IsSettled p m) where
  rest_again :
      (ys : List ℕ) (s t : Stream) (r : Outcome (Unit {0}))
      → p s ≡ done tt t
      → m t ≡ r
      → resume_of m ys r ≡ resume_of (p >> m) ys r
  rest_again ys s t (done a u) e f = refl
  rest_again ys s t (stop x u) e f = rw (h.settled ys x s t u e f) refl

  after_again :
      (ys : List ℕ) (s : Stream) (r : Outcome (Unit {0}))
      → p s ≡ r
      → NotInput r
      → then_do (λ a. m) (feed_out ys r) ≡ resume_of (p >> m) ys (then_do (λ a. m) r)
  after_again ys s (done a t) e n = reads.again ys t ∙ rest_again ys s t (m t) e refl
  after_again ys s (stop x t) e n = rw n refl

  later : (s t : Stream) (r : Outcome (Unit {0})) → p s ≡ done tt t → AsksOf t r → AsksOf s r
  later s t (done a u) e k = tt
  later s t (stop x u) e k = λ i.
      let (f1, f2, f3) = h.flags s t e in
      let a = k i in
      record {
        taken = a.taken;
        state = a.state ∙ f1;
        hdr_ind = a.hdr_ind ∙ f2;
        win_ind = a.win_ind ∙ f3;
      }

  after_asks :
      (s : Stream) (r : Outcome (Unit {0})) → p s ≡ r → NotInput r → AsksOf s (then_do (λ a. m) r)
  after_asks s (done a t) e n = later s t (m t) e (reads.asks t)
  after_asks s (stop x t) e n = λ i. cc

  settled-IsResumable : IsResumable (p >> m)
  settled-IsResumable = record {
    again = λ ys s.
        ap (then_do (λ a. m)) (plain.same ys s) ∙ after_again ys s (p s) refl (plain.asks_not s);
    asks = λ s. after_asks s (p s) refl (plain.asks_not s);
  }

abbrev IsReady : Stream → Type 0
IsReady s = (ltb (usize_mod - 1 - s.appheadsz) 1 ≡ false) × (s.has_appheader ≡ true)

IsReady-appheader_ready : (s : Stream) → IsReady s → appheader_ready s ≡ done tt s
unfolding appheader_ready
IsReady-appheader_ready s (small, has) =
    let off : not s.has_appheader ≡ false = ap not has in
    ap
      (λ b.
        then_do (λ a. when (λ t. not t.has_appheader) appheader_buffer)
          (if b then stop invalid_input s else done tt s))
      small
    ∙ ap (λ b. if b then appheader_buffer s else done tt s) off

abbrev stream_of {ℓ} : {A : Type ℓ} → Outcome A → Stream
stream_of (done a s) = s
stream_of (stop e s) = s

-- What the check and the allocation leave alone, and that the buffer is there.
record Buffered (s t : Stream) : Type 0 where
  has : t.has_appheader ≡ true
  appheadsz : t.appheadsz ≡ s.appheadsz
  state : t.state ≡ s.state
  hdr_ind : t.hdr_ind ≡ s.hdr_ind
  win_ind : t.win_ind ≡ s.win_ind

Buffered-answer :
    (s t : Stream) (l : List Bool)
    → then_do
        (λ a. fail_if (λ s. not a) enomem >> modify (λ s. record s { has_appheader = true }))
        (answer s l)
      ≡ done tt t
    → Buffered s t
unfolding answer
Buffered-answer s t [] e = cc
Buffered-answer s t (true ∷ l) e = record {
  has = sym (ap (λ r. (stream_of r).has_appheader) e);
  appheadsz = sym (ap (λ r. (stream_of r).appheadsz) e);
  state = sym (ap (λ r. (stream_of r).state) e);
  hdr_ind = sym (ap (λ r. (stream_of r).hdr_ind) e);
  win_ind = sym (ap (λ r. (stream_of r).win_ind) e);
}
Buffered-answer s t (false ∷ l) e = cc

Buffered-self :
    (s t : Stream)
    → s.has_appheader ≡ true
    → ◌≡◌ {A = Outcome (Unit {0})} (done tt s) (done tt t)
    → Buffered s t
Buffered-self s t has e = record {
  has = sym (ap (λ r. (stream_of r).has_appheader) e) ∙ has;
  appheadsz = sym (ap (λ r. (stream_of r).appheadsz) e);
  state = sym (ap (λ r. (stream_of r).state) e);
  hdr_ind = sym (ap (λ r. (stream_of r).hdr_ind) e);
  win_ind = sym (ap (λ r. (stream_of r).win_ind) e);
}

when-Buffered :
    (s t : Stream) (b : Bool)
    → s.has_appheader ≡ b
    → (if not b then appheader_buffer s else done tt s) ≡ done tt t
    → Buffered s t
unfolding appheader_buffer alloc
when-Buffered s t true has e = Buffered-self s t has e
when-Buffered s t false has e = Buffered-answer s t s.answers e

after_check :
    (s t : Stream) (b : Bool)
    → ltb (usize_mod - 1 - s.appheadsz) 1 ≡ b
    → then_do {0, 0}
        (λ a. when (λ s. not s.has_appheader) appheader_buffer)
        (if b then stop invalid_input s else done tt s)
      ≡ done tt t
    → (b ≡ false) × Buffered s t
after_check s t true big e = cc
after_check s t false small e = (refl, when-Buffered s t s.has_appheader refl e)

-- The bytes leave the size and the flag alone.
bytes_leave :
    (s : Stream) (g : Gathered) (e : Rvalue) (u : Stream)
    → gathered (λ b s. record s { appheader = b }) s g ≡ stop e u
    → (u.appheadsz ≡ s.appheadsz) × (u.has_appheader ≡ s.has_appheader)
unfolding gathered
bytes_leave s g e u h = elim (Bool-cases g.full) [
  | inl whole ↦ absurd (cc)
  | inr short ↦
      let same : ◌≡◌ {A = Outcome (Unit {0})}
          (stop input (record s { inp = g.left; appheader = g.buf })) (stop e u) =
        ap
          (λ b.
            if b
            then done tt (record s { inp = g.left; appheader = g.buf })
            else stop input (record s { inp = g.left; appheader = g.buf }))
          (sym short)
        ∙ h in
      (
        sym (ap (λ r. (stream_of r).appheadsz) same),
        sym (ap (λ r. (stream_of r).has_appheader) same),
      )
]

abbrev the_bytes : M (Unit {0})
the_bytes = bytes (λ s. s.appheader) (λ b s. record s { appheader = b }) (λ s. s.appheadsz)

ready-IsSettled : IsSettled appheader_ready the_bytes
unfolding appheader_ready bytes
ready-IsSettled = record {
  flags = λ s t e.
      let (small, b) = after_check s t (ltb (usize_mod - 1 - s.appheadsz) 1) refl e in
      (b.state, b.hdr_ind, b.win_ind);
  settled = λ ys x s t u e f.
      let (small, b) = after_check s t (ltb (usize_mod - 1 - s.appheadsz) 1) refl e in
      let (sz, has) =
        bytes_leave t (gather t.appheadsz t.inp.next_in t.inp.total_in t.appheader) x u f in
      IsReady-appheader_ready (feed ys u)
        (ap (λ n. ltb (usize_mod - 1 - n) 1) (sz ∙ b.appheadsz) ∙ small, has ∙ b.has);
}

ready-IsPlain : IsPlain appheader_ready
unfolding appheader_ready appheader_buffer
ready-IsPlain = search plain_rules depth 12

pub step_appdat-IsResumable : IsResumable step_appdat
unfolding step_appdat
step_appdat-IsResumable =
    then-IsResumable _ _
      (on_hdr_ind (λ x. has_bit x 4) _
        (settled-IsResumable appheader_ready the_bytes ready-IsPlain
          (bytes-IsResumable _ _ _ appheader-IsBuffer) ready-IsSettled))
      (search plain_rules)
