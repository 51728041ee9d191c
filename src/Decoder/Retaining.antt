-- ===== src/Decoder/Retaining.antt =====
-- What the header states of xd3_decode_input leave alone of the stream.
use swift_xdelta.Prelude.{
  ℕ, ◌+◌, ◌%◌, ◌==◌, bit_and, ◌≡◌, refl, ◌∙◌, Bool, true, false, List, [], ◌∷◌, inl, inr,
  Bool-cases, if◌then◌else◌, Rvalue, Result, ok, err, gotheader, winstart,
}
use swift_xdelta.Integer.{
  Input, Width, decode_integer, decode_loop, shift_in, oflow_mask, xoff_mod, uint32, uint64,
}
use swift_xdelta.Source.{Source}
use swift_xdelta.Window.{Hinst}
use swift_xdelta.Decoder.{
  State, Stream, Outcome, done, stop, M, then_do, ◌>>=◌, ◌>>◌, modify, fail_if, return_, when,
  next_byte, byte, gather, gathered, bytes, integer_read, from_decoded, size, offset, answer, alloc,
}

-- What the window's decoder needs of the stream, without and with the position.
pub record Kept : Type 0 where
  pub src : Source
  pub current1 : Hinst
  pub current2 : Hinst
  pub out : List ℕ
  pub space_out : ℕ

abbrev pub kept : Stream → Kept
kept s = record {
  src = s.src;
  current1 = s.current1;
  current2 = s.current2;
  out = s.out;
  space_out = s.space_out;
}

abbrev pub kept_target : Stream → Kept × ℕ
kept_target s = (kept s, s.tgtlen)

abbrev pub kept_place : Stream → Kept × ℕ × ℕ
kept_place s = (kept s, s.cpylen, s.position)

abbrev pub kept_all : Stream → Kept × ℕ × ℕ × ℕ
kept_all s = (kept s, s.tgtlen, s.cpylen, s.position)

-- The return codes behind a header.
abbrev pub is_got : Rvalue → Bool
is_got gotheader = true
is_got winstart = true
is_got other = false

abbrev pub RetainedOf {ℓ κ} : {V : Type κ} {A : Type ℓ} → (Stream → V) → V → Outcome A → Type κ
RetainedOf f v (done a t) = f t ≡ v
RetainedOf f v (stop e t) = (f t ≡ v) × (is_got e ≡ false)

pub record Retains {ℓ κ} {V : Type κ} {A : Type ℓ} (f : Stream → V) (m : M A) : Type κ where
  pub retained : (s : Stream) → RetainedOf f (f s) (m s)

-- A view of the stream that reading and allocating do not change.
pub record IsDeep {κ} {V : Type κ} (f : Stream → V) : Type κ where
  pub inp : (i : Input) (s : Stream) → f (record s { inp = i }) ≡ f s
  pub part64 : (i : Input) (p : ℕ) (s : Stream) → f (record s { inp = i; part64 = p }) ≡ f s
  pub part32 : (i : Input) (p : ℕ) (s : Stream) → f (record s { inp = i; part32 = p }) ≡ f s
  pub answers : (l : List Bool) (s : Stream) → f (record s { answers = l }) ≡ f s

pub kept_target-IsDeep : IsDeep kept_target
kept_target-IsDeep = record {
  inp = λ i s. refl;
  part64 = λ i p s. refl;
  part32 = λ i p s. refl;
  answers = λ l s. refl;
}

pub kept_place-IsDeep : IsDeep kept_place
kept_place-IsDeep = record {
  inp = λ i s. refl;
  part64 = λ i p s. refl;
  part32 = λ i p s. refl;
  answers = λ l s. refl;
}

pub kept_all-IsDeep : IsDeep kept_all
kept_all-IsDeep = record {
  inp = λ i s. refl;
  part64 = λ i p s. refl;
  part32 = λ i p s. refl;
  answers = λ l s. refl;
}

abbrev IsPlainCode : Result ℕ → Type 0
IsPlainCode (ok v) = Unit
IsPlainCode (err e) = is_got e ≡ false

decode_loop-IsPlainCode :
    (w : Width) (l : List ℕ) (total part : ℕ) → IsPlainCode (decode_loop w l total part).result
unfolding decode_loop
decode_loop-IsPlainCode w [] total part = refl
decode_loop-IsPlainCode w (b ∷ l) total part =
    let more = decode_loop-IsPlainCode w l ((total + 1) % xoff_mod) (shift_in w part b) in
    elim (Bool-cases (bit_and part (oflow_mask w) == 0)) [
      | inl small ↦ rw small (elim (Bool-cases (bit_and b 128 == 0)) [
        | inl last ↦ rw last tt
        | inr next ↦ rw next more
      ])
      | inr big ↦ rw big refl
    ]

decode_integer-IsPlainCode :
    (w : Width) (i : Input) (part : ℕ) → IsPlainCode (decode_integer w i part).result
unfolding decode_integer
decode_integer-IsPlainCode w i part = decode_loop-IsPlainCode w i.next_in i.total_in part

module _ {κ} {V : Type κ} (f : Stream → V) where
  pub modify-Retains : (g : Stream → Stream) → ((s : Stream) → f (g s) ≡ f s) → Retains f (modify g)
  modify-Retains g e = record { retained = e }

  pub return-Retains {ℓ} :
      {A : Type ℓ} (e : Rvalue) → is_got e ≡ false → Retains f (return_ {A = A} e)
  return-Retains e n = record { retained = λ s. (refl, n) }

  pub fail_if-Retains :
      (t : Stream → Bool) (e : Rvalue) → is_got e ≡ false → Retains f (fail_if t e)
  fail_if-Retains t e n = record {
    retained = λ s. elim (Bool-cases (t s)) [ inl y ↦ rw y (refl, n) | inr n' ↦ rw n' refl ];
  }

  pub when-Retains : (t : Stream → Bool) (m : M (Unit {0})) → Retains f m → Retains f (when t m)
  when-Retains t m r = record {
    retained = λ s. elim (Bool-cases (t s)) [ inl y ↦ rw y (r.retained s) | inr n' ↦ rw n' refl ];
  }

  along {ℓ} : {A : Type ℓ} (u v : V) (r : Outcome A) → u ≡ v → RetainedOf f u r → RetainedOf f v r
  along u v (done a t) e h = h ∙ e
  along u v (stop x t) e (h, n) = (h ∙ e, n)

  RetainedOf-bind {ℓ ℓ'} :
      {A : Type ℓ} {B : Type ℓ'} (k : A → M B) (v : V) (r : Outcome A)
      → RetainedOf f v r
      → ((a : A) → Retains f (k a))
      → RetainedOf f v (then_do k r)
  RetainedOf-bind k v (done a t) h p = along (f t) v (k a t) h ((p a).retained t)
  RetainedOf-bind k v (stop x t) h p = h

  pub bind-Retains {ℓ ℓ'} :
      {A : Type ℓ} {B : Type ℓ'} (m : M A) (k : A → M B)
      → Retains f m
      → ((a : A) → Retains f (k a))
      → Retains f (m >>= k)
  bind-Retains m k r p = record { retained = λ s. RetainedOf-bind k (f s) (m s) (r.retained s) p }

  pub then-Retains {ℓ ℓ'} :
      {A : Type ℓ} {B : Type ℓ'} (m : M A) (k : M B)
      → Retains f m
      → Retains f k
      → Retains f (m >> k)
  then-Retains m k r p = bind-Retains m (λ a. k) r (λ a. p)

  module _ (d : IsDeep f) where
    byte_retained : (s : Stream) (l : List ℕ) → RetainedOf f (f s) (next_byte s l)
    unfolding next_byte
    byte_retained s [] = (refl, refl)
    byte_retained s (b ∷ l) = d.inp _ s

    pub byte-Retains : Retains f byte
    unfolding byte
    byte-Retains = record { retained = λ s. byte_retained s s.inp.next_in }

    pub bytes-Retains :
        (get : Stream → List ℕ) (put : List ℕ → Stream → Stream) (n : Stream → ℕ)
        → ((b : List ℕ) (s : Stream) → f (put b s) ≡ f s)
        → Retains f (bytes get put n)
    unfolding bytes gathered
    bytes-Retains get put n h = record {
      retained = λ s.
          let g = gather (n s) s.inp.next_in s.inp.total_in (get s) in
          let same : f (put g.buf (record s { inp = g.left })) ≡ f s = h _ _ ∙ d.inp _ s in
          elim (Bool-cases g.full) [ inl y ↦ rw y same | inr n' ↦ rw n' (same, refl) ];
    }

    part64_retained :
        (s : Stream) (i : Input) (p : ℕ) (r : Result ℕ)
        → IsPlainCode r
        → RetainedOf f (f s) (integer_read (λ p t. record t { part64 = p }) s i p r)
    unfolding integer_read
    part64_retained s i p (ok v) h = d.part64 i p s
    part64_retained s i p (err e) h = (d.part64 i p s, h)

    part32_retained :
        (s : Stream) (i : Input) (p : ℕ) (r : Result ℕ)
        → IsPlainCode r
        → RetainedOf f (f s) (integer_read (λ p t. record t { part32 = p }) s i p r)
    unfolding integer_read
    part32_retained s i p (ok v) h = d.part32 i p s
    part32_retained s i p (err e) h = (d.part32 i p s, h)

    pub size-Retains : Retains f size
    unfolding size from_decoded
    size-Retains = record {
      retained = λ s. part64_retained s _ _ _ (decode_integer-IsPlainCode uint64 s.inp s.part64);
    }

    pub offset-Retains : Retains f offset
    unfolding offset from_decoded
    offset-Retains = record {
      retained = λ s. part32_retained s _ _ _ (decode_integer-IsPlainCode uint32 s.inp s.part32);
    }

    answer_retained : (s : Stream) (l : List Bool) → RetainedOf f (f s) (answer s l)
    unfolding answer
    answer_retained s [] = refl
    answer_retained s (a ∷ l) = d.answers l s

    pub alloc-Retains : Retains f alloc
    unfolding alloc
    alloc-Retains = record { retained = λ s. answer_retained s s.answers }

abbrev pub state_of : Stream → State
state_of s = s.state

pub state-IsDeep : IsDeep state_of
state-IsDeep = record {
  inp = λ i s. refl;
  part64 = λ i p s. refl;
  part32 = λ i p s. refl;
  answers = λ l s. refl;
}

pub ruleset retaining_rules = (
  modify-Retains, return-Retains, fail_if-Retains, when-Retains, bind-Retains, then-Retains,
  byte-Retains, bytes-Retains, size-Retains, offset-Retains, alloc-Retains, kept_target-IsDeep,
  kept_place-IsDeep, kept_all-IsDeep, state-IsDeep,
)

pub if-Retains {κ} :
    {V : Type κ} (f : Stream → V) (m k : M (Unit {0})) (t : Stream → Bool)
    → Retains f m
    → Retains f k
    → Retains f (λ s. if t s then m s else k s)
if-Retains f m k t p q = record {
  retained =
      λ s. elim (Bool-cases (t s)) [ inl y ↦ rw y (p.retained s) | inr n ↦ rw n (q.retained s) ];
}
