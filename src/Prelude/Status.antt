-- ===== src/Prelude/Status.antt =====
-- The return codes of xdelta3.h, and a call's result: its value, or the code that it returned.

use mathlib.Core.Logic.{◌≢◌}

-- `xd3_rvalues`, and the system's ENOMEM. The text in `stream->msg` is not kept. `outside` is no code:
-- it stands for a read outside an array, behind which nothing is known.
pub data Rvalue : Type 0 where
  input output getsrcblk gotheader winstart winfinish toofarback : Rvalue
  internal invalid invalid_input nosecond unimplemented enomem outside : Rvalue

pub data Result {ℓ} (A : Type ℓ) : Type ℓ where
  err : Rvalue → Result A
  ok : A → Result A

-- A code ends the chain.
infixl 5 ◌>>=◌
abbrev pub ◌>>=◌ {ℓ κ} : {A : Type ℓ} {B : Type κ} → Result A → (A → Result B) → Result B
err code >>= next = err code
ok value >>= next = next value

-- A property of the value, where the call succeeds.
abbrev pub OkAll {ℓ κ} : {A : Type ℓ} → (A → Type κ) → Result A → Type κ
OkAll P (err e) = Unit
OkAll P (ok a) = P a

pub OkAll-bind {ℓ κ ρ σ} :
    {A : Type ℓ} {B : Type κ} (P : A → Type ρ) (Q : B → Type σ) (m : Result A) (f : A → Result B)
    → OkAll P m
    → ((a : A) → P a → OkAll Q (f a))
    → OkAll Q (m >>= f)
OkAll-bind P Q (err e) f h k = tt
OkAll-bind P Q (ok a) f h k = k a h

-- A property of the code, where the call fails.
abbrev pub ErrAll {ℓ κ} : {A : Type ℓ} → (Rvalue → Type κ) → Result A → Type κ
ErrAll P (err e) = P e
ErrAll P (ok a) = Unit

-- A call that reads no array outside its bounds; where it succeeds, its value has a property.
abbrev pub Reads {ℓ} : {A : Type ℓ} → (A → Type 0) → Result A → Type 0
Reads P (err e) = e ≢ outside
Reads P (ok a) = P a

pub Reads-bind {ℓ κ} :
    {A : Type ℓ} {B : Type κ} (P : A → Type 0) (Q : B → Type 0) (m : Result A) (f : A → Result B)
    → Reads P m
    → ((a : A) → P a → Reads Q (f a))
    → Reads Q (m >>= f)
Reads-bind P Q (err e) f h k = h
Reads-bind P Q (ok a) f h k = k a h

pub Reads-weaken {ℓ} :
    {A : Type ℓ} (P Q : A → Type 0) (m : Result A) → ((a : A) → P a → Q a) → Reads P m → Reads Q m
Reads-weaken P Q (err e) k h = h
Reads-weaken P Q (ok a) k h = k a h
