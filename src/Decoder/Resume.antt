-- ===== src/Decoder/Resume.antt =====
-- What a part of xd3_decode_input does with input that comes in pieces: parts that read nothing, and
-- parts that read first and are run again from their start by the call after XD3_INPUT.
use swift_xdelta.Prelude.{
  ℕ, ◌≡◌, refl, sym, ap, ◌∙◌, Bool, true, false, List, [], ◌∷◌, inl, inr, Bool-cases,
}
use swift_xdelta.Prelude.{Rvalue, input, if◌then◌else◌}
use swift_xdelta.Integer.Incremental.{more_input}
use swift_xdelta.Decoder.{
  Stream, Outcome, done, stop, M, then_do, ◌>>=◌, ◌>>◌, modify, fail_if, return_, when, answer,
  alloc,
}

-- The stream with more input behind what it has.
abbrev pub feed : List ℕ → Stream → Stream
feed ys s = record s { inp = more_input s.inp ys }

abbrev pub feed_out {ℓ} : {A : Type ℓ} → List ℕ → Outcome A → Outcome A
feed_out ys (done a s) = done a (feed ys s)
feed_out ys (stop e s) = stop e (feed ys s)

abbrev pub is_input : Rvalue → Bool
is_input input = true
is_input other = false

abbrev pub NotInput {ℓ} : {A : Type ℓ} → Outcome A → Type 0
NotInput (done a s) = Unit
NotInput (stop e s) = is_input e ≡ false

-- A part that neither reads nor asks for input.
pub record IsPlain {ℓ} {A : Type ℓ} (m : M A) : Type ℓ where
  pub same : (ys : List ℕ) (s : Stream) → m (feed ys s) ≡ feed_out ys (m s)
  pub asks_not : (s : Stream) → NotInput (m s)

-- What the next call makes of an outcome: after XD3_INPUT it runs the part again.
abbrev pub resume_of {ℓ} : {A : Type ℓ} → M A → List ℕ → Outcome A → Outcome A
resume_of m ys (done a s) = done a (feed ys s)
resume_of m ys (stop e s) = if is_input e then m (feed ys s) else stop e (feed ys s)

-- A part that asks for input has taken all there was, and has left what the switch and the
-- conditions look at.
pub record Asks (s s' : Stream) : Type 0 where
  pub taken : s'.inp.next_in ≡ []
  pub state : s'.state ≡ s.state
  pub hdr_ind : s'.hdr_ind ≡ s.hdr_ind
  pub win_ind : s'.win_ind ≡ s.win_ind

abbrev pub AsksOf {ℓ} : {A : Type ℓ} → Stream → Outcome A → Type 0
AsksOf s (done a s') = Unit
AsksOf s (stop e s') = is_input e ≡ true → Asks s s'

pub record IsResumable {ℓ} {A : Type ℓ} (m : M A) : Type ℓ where
  pub again : (ys : List ℕ) (s : Stream) → m (feed ys s) ≡ resume_of m ys (m s)
  pub asks : (s : Stream) → AsksOf s (m s)

-- Parts that read nothing.
pub modify-IsPlain :
    (f : Stream → Stream)
    → ((ys : List ℕ) (s : Stream) → f (feed ys s) ≡ feed ys (f s))
    → IsPlain (modify f)
modify-IsPlain f h = record { same = λ ys s. ap (done tt) (h ys s); asks_not = λ s. tt }

feed_out-if {ℓ} :
    {A : Type ℓ} (ys : List ℕ) (t : Bool) (a b : Outcome A)
    → (if t then feed_out ys a else feed_out ys b) ≡ feed_out ys (if t then a else b)
feed_out-if ys true a b = refl
feed_out-if ys false a b = refl

pub fail_if-IsPlain :
    (test : Stream → Bool) (e : Rvalue)
    → ((ys : List ℕ) (s : Stream) → test (feed ys s) ≡ test s)
    → is_input e ≡ false
    → IsPlain (fail_if test e)
fail_if-IsPlain test e h ne = record {
  same = λ ys s.
      ap (λ t. if t then stop e (feed ys s) else done tt (feed ys s)) (h ys s)
      ∙ feed_out-if ys (test s) (stop e s) (done tt s);
  asks_not = λ s. elim (Bool-cases (test s)) [ inl t ↦ rw t ne | inr t ↦ rw t tt ];
}

pub return-IsPlain {ℓ} :
    {A : Type ℓ} (e : Rvalue) → is_input e ≡ false → IsPlain (return_ {A = A} e)
return-IsPlain e ne = record { same = λ ys s. refl; asks_not = λ s. ne }

bind_same {ℓ κ} :
    {A : Type ℓ} {B : Type κ} (ys : List ℕ) (f : A → M B) (r : Outcome A)
    → ((a : A) → IsPlain (f a))
    → then_do f (feed_out ys r) ≡ feed_out ys (then_do f r)
bind_same ys f (done a s) h = (h a).same ys s
bind_same ys f (stop e s) h = refl

bind_asks_not {ℓ κ} :
    {A : Type ℓ} {B : Type κ} (f : A → M B) (r : Outcome A)
    → NotInput r
    → ((a : A) → IsPlain (f a))
    → NotInput (then_do f r)
bind_asks_not f (done a s) n h = (h a).asks_not s
bind_asks_not f (stop e s) n h = n

pub bind-IsPlain {ℓ κ} :
    {A : Type ℓ} {B : Type κ} (m : M A) (f : A → M B)
    → IsPlain m
    → ((a : A) → IsPlain (f a))
    → IsPlain (m >>= f)
bind-IsPlain m f p h = record {
  same = λ ys s. ap (then_do f) (p.same ys s) ∙ bind_same ys f (m s) h;
  asks_not = λ s. bind_asks_not f (m s) (p.asks_not s) h;
}

pub then-IsPlain {ℓ κ} :
    {A : Type ℓ} {B : Type κ} (m : M A) (k : M B) → IsPlain m → IsPlain k → IsPlain (m >> k)
then-IsPlain m k p q = bind-IsPlain m (λ a. k) p (λ a. q)

pub when-IsPlain :
    (test : Stream → Bool) (m : M (Unit {0}))
    → ((ys : List ℕ) (s : Stream) → test (feed ys s) ≡ test s)
    → IsPlain m
    → IsPlain (when test m)
when-IsPlain test m h p = record {
  same = λ ys s.
      ap (λ t. if t then m (feed ys s) else done tt (feed ys s)) (h ys s)
      ∙ ap (λ r. if test s then r else done tt (feed ys s)) (p.same ys s)
      ∙ feed_out-if ys (test s) (m s) (done tt s);
  asks_not = λ s. elim (Bool-cases (test s)) [ inl t ↦ rw t (p.asks_not s) | inr t ↦ rw t tt ];
}

answer_same :
    (ys : List ℕ) (s : Stream) (l : List Bool) → answer (feed ys s) l ≡ feed_out ys (answer s l)
unfolding answer
answer_same ys s [] = refl
answer_same ys s (a ∷ l) = refl

answer_asks_not : (s : Stream) (l : List Bool) → NotInput (answer s l)
unfolding answer
answer_asks_not s [] = tt
answer_asks_not s (a ∷ l) = tt

pub alloc-IsPlain : IsPlain alloc
unfolding alloc
alloc-IsPlain = record {
  same = λ ys s. answer_same ys s s.answers;
  asks_not = λ s. answer_asks_not s s.answers;
}

-- A part that reads, and then one that does not.
plain_resume {ℓ} :
    {A : Type ℓ} (m : M A) (ys : List ℕ) (r : Outcome A)
    → NotInput r
    → feed_out ys r ≡ resume_of m ys r
plain_resume m ys (done a s) n = refl
plain_resume m ys (stop e s) n = rw n refl

resume_bind {ℓ κ} :
    {A : Type ℓ} {B : Type κ} (m : M A) (f : A → M B) (ys : List ℕ) (r : Outcome A)
    → ((a : A) → IsPlain (f a))
    → then_do f (resume_of m ys r) ≡ resume_of (m >>= f) ys (then_do f r)
resume_bind m f ys (done a s) h =
    (h a).same ys s ∙ plain_resume (m >>= f) ys (f a s) ((h a).asks_not s)
resume_bind m f ys (stop e s) h = elim (Bool-cases (is_input e)) [
  | inl t ↦ rw t refl
  | inr t ↦ rw t refl
]

AsksOf-plain {ℓ} : {A : Type ℓ} (s : Stream) (r : Outcome A) → NotInput r → AsksOf s r
AsksOf-plain s (done a s') n = tt
AsksOf-plain s (stop e s') n = λ t. cc

AsksOf-bind {ℓ κ} :
    {A : Type ℓ} {B : Type κ} (f : A → M B) (s : Stream) (r : Outcome A)
    → AsksOf s r
    → ((a : A) → IsPlain (f a))
    → AsksOf s (then_do f r)
AsksOf-bind f s (done a s') k h = AsksOf-plain s (f a s') ((h a).asks_not s')
AsksOf-bind f s (stop e s') k h = k

pub bind-IsResumable {ℓ κ} :
    {A : Type ℓ} {B : Type κ} (m : M A) (f : A → M B)
    → IsResumable m
    → ((a : A) → IsPlain (f a))
    → IsResumable (m >>= f)
bind-IsResumable m f r h = record {
  again = λ ys s. ap (then_do f) (r.again ys s) ∙ resume_bind m f ys (m s) h;
  asks = λ s. AsksOf-bind f s (m s) (r.asks s) h;
}

pub then-IsResumable {ℓ κ} :
    {A : Type ℓ} {B : Type κ} (m : M A) (k : M B) → IsResumable m → IsPlain k → IsResumable (m >> k)
then-IsResumable m k r p = bind-IsResumable m (λ a. k) r (λ a. p)

pub plain-IsResumable {ℓ} : {A : Type ℓ} (m : M A) → IsPlain m → IsResumable m
plain-IsResumable m p = record {
  again = λ ys s. p.same ys s ∙ plain_resume m ys (m s) (p.asks_not s);
  asks = λ s. AsksOf-plain s (m s) (p.asks_not s);
}

-- A condition on the indicators is the same when the part is run again.
when_again :
    (test : Stream → Bool) (m : M (Unit {0})) (ys : List ℕ) (s : Stream) (r : Outcome (Unit {0}))
    → ((ys : List ℕ) (s : Stream) → test (feed ys s) ≡ test s)
    → ((s s' : Stream) → Asks s s' → test s' ≡ test s)
    → test s ≡ true
    → AsksOf s r
    → resume_of m ys r ≡ resume_of (when test m) ys r
when_again test m ys s (done a s') h k t asks = refl
when_again test m ys s (stop e s') h k t asks = elim (Bool-cases (is_input e)) [
  | inl i ↦ let on : test (feed ys s') ≡ true = h ys s' ∙ k s s' (asks i) ∙ t in rw (i, on) refl
  | inr i ↦ rw i refl
]

pub when-IsResumable :
    (test : Stream → Bool) (m : M (Unit {0}))
    → ((ys : List ℕ) (s : Stream) → test (feed ys s) ≡ test s)
    → ((s s' : Stream) → Asks s s' → test s' ≡ test s)
    → IsResumable m
    → IsResumable (when test m)
when-IsResumable test m h k r = record {
  again = λ ys s. elim (Bool-cases (test s)) [
    | inl t ↦
        let on : test (feed ys s) ≡ true = h ys s ∙ t in
        ap (λ t. if t then m (feed ys s) else done tt (feed ys s)) on
        ∙ r.again ys s
        ∙ when_again test m ys s (m s) h k t (r.asks s)
        ∙ ap (λ b. resume_of (when test m) ys (if b then m s else done tt s)) (sym t)
    | inr t ↦
        let off : test (feed ys s) ≡ false = h ys s ∙ t in
        ap (λ t. if t then m (feed ys s) else done tt (feed ys s)) off
        ∙ ap (λ b. resume_of (when test m) ys (if b then m s else done tt s)) (sym t)
  ];
  asks = λ s. elim (Bool-cases (test s)) [ inl t ↦ rw t (r.asks s) | inr t ↦ rw t tt ];
}
