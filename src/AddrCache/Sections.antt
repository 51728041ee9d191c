-- ===== src/AddrCache/Sections.antt =====
-- xd3_encode_address writes to the address section alone.
use swift_xdelta.Prelude.{Rvalue, ErrAll, ◌<◌, ℕ, ◌+◌, ◌≡◌, refl, Result, ok, err, [], ◌∷◌}
use swift_xdelta.Sink.{
  Sect, Sink, FailsWith, emit-ErrAll, emit_size-ErrAll, Keeps, emit-Keeps, emit_size-Keeps,
}
use swift_xdelta.AddrCache.{
  usize_mod, Cache, Form, byte, integer, choose_mode, emit_form, finish_address, encode_address,
}
use swift_xdelta.AddrCache.State.{IsCache}
use swift_xdelta.AddrCache.Search.{IsChoice, choose_mode-IsChoice}

emit_form-Keeps :
    (k : Sink) (o : k.Out) (form : Form) → k.IsValid o → Keeps k o Sect.addr (emit_form k o form).1
unfolding emit_form
emit_form-Keeps k o (byte b) v = emit-Keeps k o Sect.addr (b ∷ []) v
emit_form-Keeps k o (integer d) v = emit_size-Keeps k o Sect.addr d v

finish_address-out :
    (k : Sink) (c : Cache) (a mode : ℕ) (r : Result (Unit {0}) × k.Out)
    → (finish_address k c a mode r).out ≡ r.1
unfolding finish_address
finish_address-out k c a mode (err e, o) = refl
finish_address-out k c a mode (ok u, o) = refl

pub encode_address-Keeps :
    (k : Sink) (o : k.Out) (c : Cache) (a here mode : ℕ)
    → k.IsValid o
    → Keeps k o Sect.addr (encode_address k o c a here mode).out
unfolding encode_address
encode_address-Keeps k o c a here mode v =
    let (bestm, form) = choose_mode c a here in
    rw (finish_address-out k c a (mode + bestm) (emit_form k o form)) (emit_form-Keeps k o form v)

form-ErrAll :
    (k : Sink) (P : Rvalue → Type 0)
    → FailsWith k P
    → (o : k.Out) (c : Cache) (a here m : ℕ) (form : Form) → k.IsValid o
    → IsChoice c a here (m, form)
    → ErrAll P (emit_form k o form).0
unfolding emit_form IsChoice
form-ErrAll k P fails o c a here m (byte b) v ch = emit-ErrAll k P fails o Sect.addr (b ∷ []) v
form-ErrAll k P fails o c a here m (integer d) v ch =
    emit_size-ErrAll k P fails o Sect.addr d v ch.word

finish_address-ErrAll :
    (k : Sink) (P : Rvalue → Type 0) (c : Cache) (a mode : ℕ) (r : Result (Unit {0}) × k.Out)
    → ErrAll P r.0
    → ErrAll P (finish_address k c a mode r).status
unfolding finish_address
finish_address-ErrAll k P c a mode (err e, o) h = h
finish_address-ErrAll k P c a mode (ok u, o) h = tt

-- An address before `here` fails to be written only where the sections do.
pub encode_address-ErrAll :
    (k : Sink) (P : Rvalue → Type 0)
    → FailsWith k P
    → (o : k.Out) (c : Cache) (a here mode : ℕ) → k.IsValid o
    → IsCache c
    → a < here
    → here < usize_mod
    → ErrAll P (encode_address k o c a here mode).status
unfolding encode_address
encode_address-ErrAll k P fails o c a here mode v h lt word =
    let (bestm, form) = choose_mode c a here in
    finish_address-ErrAll k P c a (mode + bestm) (emit_form k o form)
      (form-ErrAll k P fails o c a here bestm form v (choose_mode-IsChoice c a here h lt word))
