-- ===== src/Decoder/Awaiting.antt =====
-- What the calls of xd3_decode_input that read the header leave, and the window that the header's end
-- hands on.
use swift_xdelta.Prelude.{
  ℕ, ◌^◌, ◌≤◌, ◌<◌, ◌≡◌, refl, sym, ap, ◌∙◌, Bool, true, false, [], input, gotheader, winstart,
}
use swift_xdelta.CodeTable.{xd3_noop}
use swift_xdelta.Source.Blocks.{IsSource}
use swift_xdelta.Window.Setup.{hardmaxwinsize}
use swift_xdelta.Decoder.{State, Stream, Outcome, done, stop, M, then_do, ◌>>◌}
use swift_xdelta.Decoder.Resume.{is_input, AsksOf, IsResumable}
use swift_xdelta.Decoder.Leads.{Leads, LeadsOf}
use swift_xdelta.Decoder.Entry.{is_header}
use swift_xdelta.Decoder.Retaining.{Kept, kept, kept_target, kept_all, is_got, RetainedOf, Retains}

-- The source, the buffer and the last window's length as the next window needs them, with no output left
-- from the window before.
pub record IsBase (s : Stream) : Type 0 where
  pub source : IsSource s.src
  pub block : s.src.blksize < 2 ^ 63
  pub buffer : s.space_out < 2 ^ 63
  pub nothing : s.out ≡ []
  pub idle : (s.current1.type ≡ xd3_noop) × (s.current2.type ≡ xd3_noop)
  pub target : s.tgtlen ≤ hardmaxwinsize

-- The states in which the position is behind the copy window.
abbrev pub placed : State → Bool
placed State.cpyoff = true
placed State.enclen = true
placed State.tgtlen = true
placed State.delind = true
placed State.datalen = true
placed State.instlen = true
placed State.addrlen = true
placed State.cksum = true
placed State.sect_data = true
placed other = false

pub record At (σ : State) (p : Bool) (s : Stream) : Type 0 where
  pub state : s.state ≡ σ
  pub base : IsBase s
  pub place : p ≡ true → s.position ≡ s.cpylen

-- A stream that is in its header.
pub record IsAwaiting (s : Stream) : Type 0 where
  pub header : is_header s.state ≡ true
  pub base : IsBase s
  pub place : placed s.state ≡ true → s.position ≡ s.cpylen

-- What a call in the header returns with: the stream is in its header, or the header is whole and the
-- window is fresh, or the call has failed.
unfoldable pub HeaderOf : Outcome (Unit {0}) → Type 0
HeaderOf (done a s) = Unit
HeaderOf (stop input s) = IsAwaiting s
HeaderOf (stop gotheader s) = At State.sect_data true s
HeaderOf (stop winstart s) = At State.sect_data true s
HeaderOf (stop other s) = Unit

abbrev pub CarriedOf {ℓ} : {A : Type ℓ} → (Stream → Type 0) → (Stream → Type 0) → Outcome A → Type 0
CarriedOf p q (done a t) = q t
CarriedOf p q (stop e t) = (is_got e ≡ false) × (is_input e ≡ true → p t)

pub record Awaits (p : Stream → Type 0) (m : M (Unit {0})) : Type 0 where
  pub awaits : (s : Stream) → p s → HeaderOf (m s)

pub At-IsAwaiting :
    (σ : State) (b : Bool) (s : Stream)
    → is_header σ ≡ true
    → placed σ ≡ b
    → At σ b s
    → IsAwaiting s
At-IsAwaiting σ b s h e a = record {
  header = ap is_header a.state ∙ h;
  base = a.base;
  place = λ on. a.place (sym e ∙ ap placed (sym a.state) ∙ on);
}

pub carried-HeaderOf {ℓ} :
    {A : Type ℓ} (p q : Stream → Type 0) (k : A → M (Unit {0})) (r : Outcome A)
    → CarriedOf p q r
    → ((t : Stream) → p t → IsAwaiting t)
    → ((a : A) (t : Stream) → q t → HeaderOf (k a t))
    → HeaderOf (then_do k r)
unfolding HeaderOf
carried-HeaderOf p q k (done a t) h w n = n a t h
carried-HeaderOf p q k (stop input t) (g, i) w n = w t (i refl)
carried-HeaderOf p q k (stop gotheader t) (g, i) w n = absurd (cc)
carried-HeaderOf p q k (stop winstart t) (g, i) w n = absurd (cc)
carried-HeaderOf p q k (stop other t) (g, i) w n = tt

-- The base is in the view that keeps the target's length.
pub IsBase-kept : (s t : Stream) → IsBase s → kept_target t ≡ kept_target s → IsBase t
IsBase-kept s t h e =
    let k : kept t ≡ kept s = ap (λ v. v.0) e in
    let src : t.src ≡ s.src = ap (λ (v : Kept). v.src) k in
    record {
      source = rw src h.source;
      block = rw (ap (λ (v : Kept). v.src.blksize) k) h.block;
      buffer = rw (ap (λ (v : Kept). v.space_out) k) h.buffer;
      nothing = ap (λ (v : Kept). v.out) k ∙ h.nothing;
      idle = (
        ap (λ (v : Kept). v.current1.type) k ∙ h.idle.0,
        ap (λ (v : Kept). v.current2.type) k ∙ h.idle.1,
      );
      target = rw (ap (λ (v : Kept × ℕ). v.1) e) h.target;
    }

pub target-CarriedOf {ℓ} :
    {A : Type ℓ} (σ τ : State) (s : Stream) (r : Outcome A)
    → At σ false s
    → RetainedOf kept_target (kept_target s) r
    → AsksOf s r
    → LeadsOf τ r
    → CarriedOf (At σ false) (At τ false) r
target-CarriedOf σ τ s (done a t) h k w l = record {
  state = l;
  base = IsBase-kept s t h.base k;
  place = λ f. absurd (cc);
}
target-CarriedOf σ τ s (stop e t) h (k, g) w l = (
  g,
  λ i. record {
    state = (w i).state ∙ h.state;
    base = IsBase-kept s t h.base k;
    place = λ f. absurd (cc);
  },
)

all_target : (s t : Stream) → kept_all t ≡ kept_all s → kept_target t ≡ kept_target s
all_target s t e = ap (λ (v : Kept × ℕ × ℕ × ℕ). (v.0, v.1)) e

all_place : (s t : Stream) → kept_all t ≡ kept_all s → s.position ≡ s.cpylen → t.position ≡ t.cpylen
all_place s t e h =
    ap (λ (v : Kept × ℕ × ℕ × ℕ). v.3) e ∙ h ∙ sym (ap (λ (v : Kept × ℕ × ℕ × ℕ). v.2) e)

pub all-CarriedOf {ℓ} :
    {A : Type ℓ} (σ τ : State) (s : Stream) (r : Outcome A)
    → At σ true s
    → RetainedOf kept_all (kept_all s) r
    → AsksOf s r
    → LeadsOf τ r
    → CarriedOf (At σ true) (At τ true) r
all-CarriedOf σ τ s (done a t) h k w l = record {
  state = l;
  base = IsBase-kept s t h.base (all_target s t k);
  place = λ f. all_place s t k (h.place refl);
}
all-CarriedOf σ τ s (stop e t) h (k, g) w l = (
  g,
  λ i. record {
    state = (w i).state ∙ h.state;
    base = IsBase-kept s t h.base (all_target s t k);
    place = λ f. all_place s t k (h.place refl);
  },
)

pub target-Awaits :
    (σ τ : State) (m k : M (Unit {0}))
    → is_header σ ≡ true
    → placed σ ≡ false
    → IsResumable m
    → Leads τ m
    → Retains kept_target m
    → Awaits (At τ false) k
    → Awaits (At σ false) (m >> k)
target-Awaits σ τ m k h p r l v n = record {
  awaits = λ s a.
      carried-HeaderOf (At σ false) (At τ false) (λ u. k) (m s)
        (target-CarriedOf σ τ s (m s) a (v.retained s) (r.asks s) (l.leads s))
        (λ t. At-IsAwaiting σ false t h p) (λ u. n.awaits);
}

pub all-Awaits :
    (σ τ : State) (m k : M (Unit {0}))
    → is_header σ ≡ true
    → placed σ ≡ true
    → IsResumable m
    → Leads τ m
    → Retains kept_all m
    → Awaits (At τ true) k
    → Awaits (At σ true) (m >> k)
all-Awaits σ τ m k h p r l v n = record {
  awaits = λ s a.
      carried-HeaderOf (At σ true) (At τ true) (λ u. k) (m s)
        (all-CarriedOf σ τ s (m s) a (v.retained s) (r.asks s) (l.leads s))
        (λ t. At-IsAwaiting σ true t h p) (λ u. n.awaits);
}
