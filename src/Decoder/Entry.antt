-- ===== src/Decoder/Entry.antt =====
-- xdelta3/xdelta3-decode.h: a case of the switch of xd3_decode_input, called again with the input that
-- comes after XD3_INPUT.
use swift_xdelta.Prelude.{
  ℕ, ◌≡◌, refl, sym, ap, ◌∙◌, Bool, true, false, List, [], inl, inr, Bool-cases, if◌then◌else◌,
}
use swift_xdelta.Decoder.{State, Stream, Outcome, done, stop, M, then_do, ◌>>◌}
use swift_xdelta.Decoder.Lengths.{header_case, decode_header}
use swift_xdelta.Decoder.Resume.{feed, is_input, AsksOf, resume_of, IsResumable}
use swift_xdelta.Decoder.Leads.{led, Leads}

-- The states of the header, up to where xd3_decode_input returns XD3_GOTHEADER or XD3_WINSTART.
unfoldable pub is_header : State → Bool
is_header State.vchead = true
is_header State.hdrind = true
is_header State.secondid = true
is_header State.tablen = true
is_header State.near = true
is_header State.same = true
is_header State.tabdat = true
is_header State.applen = true
is_header State.appdat = true
is_header State.winind = true
is_header State.cpylen = true
is_header State.cpyoff = true
is_header State.enclen = true
is_header State.tgtlen = true
is_header State.delind = true
is_header State.datalen = true
is_header State.instlen = true
is_header State.addrlen = true
is_header State.cksum = true
is_header other = false

-- What the next call, with `ys` more, makes of the outcome of one call.
abbrev pub resume_header : M (Unit {0}) → List ℕ → Outcome (Unit {0}) → Outcome (Unit {0})
resume_header after ys (done a s) = done a (feed ys s)
resume_header after ys (stop e s) =
    if is_input e then decode_header after (feed ys s) else stop e (feed ys s)

-- A call that asks for input has taken all, and is still in the header.
pub record Waits (s : Stream) : Type 0 where
  pub taken : s.inp.next_in ≡ []
  pub header : is_header s.state ≡ true

abbrev pub WaitsOf : Outcome (Unit {0}) → Type 0
WaitsOf (done a s) = Unit
WaitsOf (stop e s) = is_input e ≡ true → Waits s

module _ (after : M (Unit {0})) where
  pub record IsEntry (f : M (Unit {0})) (s : Stream) : Type 0 where
    pub again : (ys : List ℕ) → f (feed ys s) ≡ resume_header after ys (f s)
    pub waits : WaitsOf (f s)

  -- The switch leads to `f` in what the stream is like.
  pub record Here (f : M (Unit {0})) (s : Stream) : Type 0 where
    pub header : is_header s.state ≡ true
    pub here :
        (t : Stream) → t.state ≡ s.state → t.hdr_ind ≡ s.hdr_ind → decode_header after t ≡ f t

  last_again :
      (f : M (Unit {0})) (ys : List ℕ) (s : Stream) (r : Outcome (Unit {0}))
      → Here f s
      → AsksOf s r
      → resume_of f ys r ≡ resume_header after ys r
  last_again f ys s (done a t) h k = refl
  last_again f ys s (stop e t) h k = elim (Bool-cases (is_input e)) [
    | inl i ↦ rw i (sym (h.here (feed ys t) (k i).state (k i).hdr_ind))
    | inr i ↦ rw i refl
  ]

  last_waits :
      (f : M (Unit {0})) (s : Stream) (r : Outcome (Unit {0})) → Here f s → AsksOf s r → WaitsOf r
  last_waits f s (done a t) h k = tt
  last_waits f s (stop e t) h k =
      λ i. record { taken = (k i).taken; header = ap is_header (k i).state ∙ h.header }

  pub last-IsEntry : (f : M (Unit {0})) (s : Stream) → IsResumable f → Here f s → IsEntry f s
  last-IsEntry f s r h = record {
    again = λ ys. r.again ys s ∙ last_again f ys s (f s) h (r.asks s);
    waits = last_waits f s (f s) h (r.asks s);
  }

  bind_again :
      (m k : M (Unit {0})) (ys : List ℕ) (s : Stream) (r : Outcome (Unit {0}))
      → Here (m >> k) s
      → AsksOf s r
      → ((t : Stream) → r ≡ done tt t → IsEntry k t)
      → then_do (λ a. k) (resume_of m ys r) ≡ resume_header after ys (then_do (λ a. k) r)
  bind_again m k ys s (done tt t) h a next = (next t refl).again ys
  bind_again m k ys s (stop e t) h a next = elim (Bool-cases (is_input e)) [
    | inl i ↦ rw i (sym (h.here (feed ys t) (a i).state (a i).hdr_ind))
    | inr i ↦ rw i refl
  ]

  bind_waits :
      (m k : M (Unit {0})) (s : Stream) (r : Outcome (Unit {0}))
      → Here (m >> k) s
      → AsksOf s r
      → ((t : Stream) → r ≡ done tt t → IsEntry k t)
      → WaitsOf (then_do (λ a. k) r)
  bind_waits m k s (done tt t) h a next = (next t refl).waits
  bind_waits m k s (stop e t) h a next =
      λ i. record { taken = (a i).taken; header = ap is_header (a i).state ∙ h.header }

  pub bind-IsEntry :
      (m k : M (Unit {0})) (s : Stream)
      → IsResumable m
      → Here (m >> k) s
      → ((t : Stream) → m s ≡ done tt t → IsEntry k t)
      → IsEntry (m >> k) s
  bind-IsEntry m k s r h next = record {
    again =
        λ ys. ap (then_do (λ a. k)) (r.again ys s) ∙ bind_again m k ys s (m s) h (r.asks s) next;
    waits = bind_waits m k s (m s) h (r.asks s) next;
  }

  pub case-Here :
      (σ : State) (s : Stream) → is_header σ ≡ true → s.state ≡ σ → Here (header_case after σ) s
  unfolding decode_header
  case-Here σ s h e = record {
    header = ap is_header e ∙ h;
    here = λ t e1 e2. ap (λ τ. header_case after τ t) (e1 ∙ e);
  }

  pub step-IsEntry :
      (σ τ : State) (m k : M (Unit {0}))
      → IsResumable m
      → Leads τ m
      → ((s : Stream) → s.state ≡ σ → Here (m >> k) s)
      → ((t : Stream) → t.state ≡ τ → IsEntry k t)
      → (s : Stream) → s.state ≡ σ
      → IsEntry (m >> k) s
  step-IsEntry σ τ m k r l c next s e =
      bind-IsEntry m k s r (c s e) (λ t d. next t (led τ t (m s) (l.leads s) d))
