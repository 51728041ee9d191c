-- ===== src/Decoder/Keeping.antt =====
-- What the parts of xd3_decode_sections leave alone: what xd3_decode_emit needs of its window.
use swift_xdelta.Prelude.{
  ◌≡◌, refl, sym, ap, ◌∙◌, Bool, true, false, ◌||◌, List, [], ◌∷◌, inl, inr, Bool-cases,
  if◌then◌else◌, Rvalue,
}
use swift_xdelta.Window.{Window}
use swift_xdelta.Decoder.{
  State, Stream, Outcome, done, stop, M, then_do, ◌>>=◌, ◌>>◌, modify, fail_if, return_, when, goto,
  answer, alloc,
}
use swift_xdelta.Decoder.Sections.{window_of, finish_window}

-- The flags that have a window skipped.
abbrev pub skips : Stream → Bool
skips s = s.just_hdr || s.skip_window || s.skip_emit

-- The window without its sections, and whether it is skipped.
abbrev pub core : Stream → Window
core s = record (window_of s) { inst_sect = []; data_sect = []; addr_sect = [] }

abbrev pub view : Stream → Window × Bool
view s = (core s, skips s)

-- The states of the sections, and the one behind them.
abbrev pub reads : State → Bool
reads State.sect_data = true
reads State.sect_inst = true
reads State.sect_addr = true
reads State.emit = true
reads other = false

-- Where a call may return: the window's end only if the window is skipped.
abbrev pub LateOf : State → Bool → Type 0
LateOf State.sect_data skipped = Unit
LateOf State.sect_inst skipped = Unit
LateOf State.sect_addr skipped = Unit
LateOf State.emit skipped = Unit
LateOf State.finish skipped = skipped ≡ true
LateOf other skipped = ⊥

abbrev pub KeptOf {ℓ} : {A : Type ℓ} → Outcome A → Window × Bool → Type 0
KeptOf (done a t) v = (view t ≡ v) × (reads t.state ≡ true)
KeptOf (stop e t) v = (view t ≡ v) × LateOf t.state v.1

pub record Keeps {ℓ} {A : Type ℓ} (m : M A) : Type 0 where
  pub keeps : (s : Stream) → reads s.state ≡ true → KeptOf (m s) (view s)

pub reads-LateOf : (σ : State) (b : Bool) → reads σ ≡ true → LateOf σ b
reads-LateOf State.sect_data b h = tt
reads-LateOf State.sect_inst b h = tt
reads-LateOf State.sect_addr b h = tt
reads-LateOf State.emit b h = tt
reads-LateOf other b h = absurd (cc)

pub modify-Keeps :
    (f : Stream → Stream)
    → ((s : Stream) → view (f s) ≡ view s)
    → ((s : Stream) → (f s).state ≡ s.state)
    → Keeps (modify f)
modify-Keeps f e k = record { keeps = λ s h. (e s, ap reads (k s) ∙ h) }

pub goto-Keeps : (σ : State) → reads σ ≡ true → Keeps (goto σ)
goto-Keeps σ e = record { keeps = λ s h. (refl, e) }

pub return-Keeps {ℓ} : {A : Type ℓ} (e : Rvalue) → Keeps (return_ {A = A} e)
return-Keeps e = record { keeps = λ s h. (refl, reads-LateOf s.state (skips s) h) }

pub fail_if-Keeps : (t : Stream → Bool) (e : Rvalue) → Keeps (fail_if t e)
fail_if-Keeps t e = record {
  keeps = λ s h. elim (Bool-cases (t s)) [
    | inl y ↦ rw y (refl, reads-LateOf s.state (skips s) h)
    | inr n ↦ rw n (refl, h)
  ];
}

answer-KeptOf : (l : List Bool) (s : Stream) → reads s.state ≡ true → KeptOf (answer s l) (view s)
unfolding answer
answer-KeptOf [] s h = (refl, h)
answer-KeptOf (a ∷ l) s h = (refl, h)

pub alloc-Keeps : Keeps alloc
unfolding alloc
alloc-Keeps = record { keeps = λ s h. answer-KeptOf s.answers s h }

along {κ} : {B : Type κ} (r : Outcome B) (u v : Window × Bool) → u ≡ v → KeptOf r u → KeptOf r v
along (done b t) u v e (i, h) = (i ∙ e, h)
along (stop x t) u v e (i, l) = (i ∙ e, rw (sym e) l)

KeptOf-bind {ℓ κ} :
    {A : Type ℓ} {B : Type κ} (f : A → M B) (r : Outcome A) (v : Window × Bool)
    → KeptOf r v
    → ((a : A) → Keeps (f a))
    → KeptOf (then_do f r) v
KeptOf-bind f (done a t) v (e, h) k = along (f a t) (view t) v e ((k a).keeps t h)
KeptOf-bind f (stop x t) v h k = h

pub bind-Keeps {ℓ κ} :
    {A : Type ℓ} {B : Type κ} (m : M A) (f : A → M B)
    → Keeps m
    → ((a : A) → Keeps (f a))
    → Keeps (m >>= f)
bind-Keeps m f p k = record { keeps = λ s h. KeptOf-bind f (m s) (view s) (p.keeps s h) k }

pub then-Keeps {ℓ κ} :
    {A : Type ℓ} {B : Type κ} (m : M A) (k : M B) → Keeps m → Keeps k → Keeps (m >> k)
then-Keeps m k p q = bind-Keeps m (λ a. k) p (λ a. q)

pub choose-Keeps :
    (t : Stream → Bool) (m k : M (Unit {0}))
    → Keeps m
    → Keeps k
    → Keeps (λ s. if t s then m s else k s)
choose-Keeps t m k p q = record {
  keeps =
      λ s h. elim (Bool-cases (t s)) [ inl y ↦ rw y (p.keeps s h) | inr n ↦ rw n (q.keeps s h) ];
}

pub when-Keeps : (t : Stream → Bool) (m : M (Unit {0})) → Keeps m → Keeps (when t m)
when-Keeps t m p = record {
  keeps = λ s h. elim (Bool-cases (t s)) [ inl y ↦ rw y (p.keeps s h) | inr n ↦ rw n (refl, h) ];
}

-- The window's end, under a flag that skips the window.
pub when_skipped-Keeps :
    (t : Stream → Bool) (m : M (Unit {0}))
    → ((s : Stream) → t s ≡ true → skips s ≡ true)
    → ((s : Stream) → reads s.state ≡ true → skips s ≡ true → KeptOf (m s) (view s))
    → Keeps (when t m)
when_skipped-Keeps t m k p = record {
  keeps = λ s h. elim (Bool-cases (t s)) [ inl y ↦ rw y (p s h (k s y)) | inr n ↦ rw n (refl, h) ];
}

pub finish_window-KeptOf :
    (s : Stream) → reads s.state ≡ true → skips s ≡ true → KeptOf (finish_window s) (view s)
unfolding finish_window
finish_window-KeptOf s h k = (refl, k)
