-- ===== src/Decoder/Taking.antt =====
-- The header of xd3_decode_input takes its input from the front, and counts what it takes.
use swift_xdelta.Prelude.{
  ℕ, append_assoc, ◌++◌, ◌+◌, ◌%◌, ◌==◌, bit_and, length, ltb, ◌≡◌, refl, sym, ap, ◌∙◌, Bool, List,
  [], ◌∷◌, inl, inr, Bool-cases, if◌then◌else◌, Rvalue, Result, ok, err,
}
use swift_xdelta.Integer.{
  Input, Decoded, Width, decode_loop, shift_in, oflow_mask, xoff_mod, decode_integer, uint32,
  uint64,
}
use swift_xdelta.Decoder.{
  Stream, Outcome, done, stop, M, then_do, ◌>>=◌, ◌>>◌, modify, fail_if, return_, when, next_byte,
  byte, gather, gathered, bytes, integer_read, from_decoded, size, offset, answer, alloc,
}

-- `total_in` after these bytes
pub counted : List ℕ → ℕ → ℕ
counted [] total = total
counted (b ∷ bs) total = counted bs ((total + 1) % xoff_mod)

-- The bytes between two inputs.
pub record Taken (i j : Input) : Type 0 where
  pub front : List ℕ
  pub in_order : i.next_in ≡ front ++ j.next_in
  pub total : j.total_in ≡ counted front i.total_in

counted-append : (xs ys : List ℕ) (n : ℕ) → counted (xs ++ ys) n ≡ counted ys (counted xs n)
unfolding counted
counted-append [] ys n = refl
counted-append (x ∷ xs) ys n = counted-append xs ys ((n + 1) % xoff_mod)

pub none-Taken : (i : Input) → Taken i i
unfolding counted
none-Taken i = record { front = []; in_order = refl; total = refl }

Taken-trans : (i j k : Input) → Taken i j → Taken j k → Taken i k
Taken-trans i j k p q = record {
  front = p.front ++ q.front;
  in_order =
      p.in_order ∙ ap (λ l. p.front ++ l) q.in_order ∙ sym (append_assoc p.front q.front k.next_in);
  total = q.total ∙ ap (counted q.front) p.total ∙ sym (counted-append p.front q.front i.total_in);
}

one_more :
    (b : ℕ) (l : List ℕ) (n : ℕ) (j : Input)
    → Taken (record { next_in = l; total_in = (n + 1) % xoff_mod }) j
    → Taken (record { next_in = b ∷ l; total_in = n }) j
unfolding counted
one_more b l n j p = record {
  front = b ∷ p.front;
  in_order = ap (λ r. b ∷ r) p.in_order;
  total = p.total;
}

abbrev pub TakenOf {ℓ} : {A : Type ℓ} → Input → Outcome A → Type 0
TakenOf i (done a t) = Taken i t.inp
TakenOf i (stop e t) = Taken i t.inp

pub record Takes {ℓ} {A : Type ℓ} (m : M A) : Type 0 where
  pub takes : (s : Stream) → TakenOf s.inp (m s)

pub modify-Takes : (g : Stream → Stream) → ((s : Stream) → (g s).inp ≡ s.inp) → Takes (modify g)
modify-Takes g e = record { takes = λ s. rw (e s) (none-Taken s.inp) }

pub return-Takes {ℓ} : {A : Type ℓ} (e : Rvalue) → Takes (return_ {A = A} e)
return-Takes e = record { takes = λ s. none-Taken s.inp }

pub fail_if-Takes : (t : Stream → Bool) (e : Rvalue) → Takes (fail_if t e)
fail_if-Takes t e = record {
  takes = λ s. elim (Bool-cases (t s)) [
    | inl y ↦ rw y (none-Taken s.inp)
    | inr n ↦ rw n (none-Taken s.inp)
  ];
}

pub if-Takes :
    (t : Stream → Bool) (m k : M (Unit {0}))
    → Takes m
    → Takes k
    → Takes (λ s. if t s then m s else k s)
if-Takes t m k p q = record {
  takes = λ s. elim (Bool-cases (t s)) [ inl y ↦ rw y (p.takes s) | inr n ↦ rw n (q.takes s) ];
}

pub done-Takes : Takes {A = Unit {0}} (λ s. done tt s)
done-Takes = record { takes = λ s. none-Taken s.inp }

pub when-Takes : (t : Stream → Bool) (m : M (Unit {0})) → Takes m → Takes (when t m)
when-Takes t m p = record {
  takes =
      λ s. elim (Bool-cases (t s)) [ inl y ↦ rw y (p.takes s) | inr n ↦ rw n (none-Taken s.inp) ];
}

further {ℓ} : {A : Type ℓ} (i j : Input) (r : Outcome A) → Taken i j → TakenOf j r → TakenOf i r
further i j (done a t) p q = Taken-trans i j t.inp p q
further i j (stop e t) p q = Taken-trans i j t.inp p q

TakenOf-bind {ℓ κ} :
    {A : Type ℓ} {B : Type κ} (k : A → M B) (i : Input) (r : Outcome A)
    → TakenOf i r
    → ((a : A) → Takes (k a))
    → TakenOf i (then_do k r)
TakenOf-bind k i (done a t) h p = further i t.inp (k a t) h ((p a).takes t)
TakenOf-bind k i (stop x t) h p = h

pub bind-Takes {ℓ κ} :
    {A : Type ℓ} {B : Type κ} (m : M A) (k : A → M B)
    → Takes m
    → ((a : A) → Takes (k a))
    → Takes (m >>= k)
bind-Takes m k r p = record { takes = λ s. TakenOf-bind k s.inp (m s) (r.takes s) p }

pub then-Takes {ℓ κ} :
    {A : Type ℓ} {B : Type κ} (m : M A) (k : M B) → Takes m → Takes k → Takes (m >> k)
then-Takes m k r p = bind-Takes m (λ a. k) r (λ a. p)

next_byte-TakenOf : (s : Stream) (l : List ℕ) → s.inp.next_in ≡ l → TakenOf s.inp (next_byte s l)
unfolding next_byte counted
next_byte-TakenOf s [] e = none-Taken s.inp
next_byte-TakenOf s (b ∷ l) e = record { front = b ∷ []; in_order = e; total = refl }

pub byte-Takes : Takes byte
unfolding byte
byte-Takes = record { takes = λ s. next_byte-TakenOf s s.inp.next_in refl }

gather-Taken :
    (l : List ℕ) (n total : ℕ) (buf : List ℕ)
    → Taken (record { next_in = l; total_in = total }) (gather n l total buf).left
unfolding gather
gather-Taken [] n total buf = none-Taken _
gather-Taken (b ∷ l) n total buf = elim (Bool-cases (ltb (length buf) n)) [
  | inl room ↦
      rw room (one_more b l total _ (gather-Taken l n ((total + 1) % xoff_mod) (buf ++ b ∷ [])))
  | inr full ↦ rw full (none-Taken _)
]

pub bytes-Takes :
    (get : Stream → List ℕ) (put : List ℕ → Stream → Stream) (n : Stream → ℕ)
    → ((b : List ℕ) (s : Stream) → (put b s).inp ≡ s.inp)
    → Takes (bytes get put n)
unfolding bytes gathered
bytes-Takes get put n h = record {
  takes = λ s.
      let g = gather (n s) s.inp.next_in s.inp.total_in (get s) in
      let e : (put g.buf (record s { inp = g.left })).inp ≡ g.left = h _ _ in
      let p = gather-Taken s.inp.next_in (n s) s.inp.total_in (get s) in
      elim (Bool-cases g.full) [ inl y ↦ rw (y, e) p | inr n' ↦ rw (n', e) p ];
}

decode_loop-Taken :
    (w : Width) (l : List ℕ) (total part : ℕ)
    → Taken (record { next_in = l; total_in = total }) (decode_loop w l total part).left
unfolding decode_loop
decode_loop-Taken w [] total part = none-Taken _
decode_loop-Taken w (b ∷ l) total part =
    let more = decode_loop-Taken w l ((total + 1) % xoff_mod) (shift_in w part b) in
    let here = none-Taken (record { next_in = l; total_in = (total + 1) % xoff_mod }) in
    elim (Bool-cases (bit_and part (oflow_mask w) == 0)) [
      | inl small ↦ rw small (elim (Bool-cases (bit_and b 128 == 0)) [
        | inl last ↦ rw last (one_more b l total _ here)
        | inr next ↦ rw next (one_more b l total _ more)
      ])
      | inr big ↦ rw big (one_more b l total _ here)
    ]

read-TakenOf :
    (put : ℕ → Stream → Stream) (s : Stream) (d : Decoded)
    → ((p : ℕ) (s : Stream) → (put p s).inp ≡ s.inp)
    → Taken s.inp d.left
    → (r : Result ℕ) → TakenOf s.inp (integer_read put s d.left d.part r)
unfolding integer_read
read-TakenOf put s d h p (ok v) = rw (h d.part (record s { inp = d.left })) p
read-TakenOf put s d h p (err e) = rw (h d.part (record s { inp = d.left })) p

pub size-Takes : Takes size
unfolding size from_decoded decode_integer
size-Takes = record {
  takes = λ s.
      read-TakenOf (λ p t. record t { part64 = p }) s (decode_integer uint64 s.inp s.part64)
        (λ p t. refl) (decode_loop-Taken uint64 s.inp.next_in s.inp.total_in s.part64) _;
}

pub offset-Takes : Takes offset
unfolding offset from_decoded decode_integer
offset-Takes = record {
  takes = λ s.
      read-TakenOf (λ p t. record t { part32 = p }) s (decode_integer uint32 s.inp s.part32)
        (λ p t. refl) (decode_loop-Taken uint32 s.inp.next_in s.inp.total_in s.part32) _;
}

answer-TakenOf : (s : Stream) (l : List Bool) → TakenOf s.inp (answer s l)
unfolding answer
answer-TakenOf s [] = none-Taken s.inp
answer-TakenOf s (a ∷ l) = none-Taken s.inp

pub alloc-Takes : Takes alloc
unfolding alloc
alloc-Takes = record { takes = λ s. answer-TakenOf s s.answers }

pub ruleset taking_rules = (
  modify-Takes, return-Takes, fail_if-Takes, when-Takes, bind-Takes, then-Takes, byte-Takes,
  bytes-Takes, size-Takes, offset-Takes, alloc-Takes,
)
