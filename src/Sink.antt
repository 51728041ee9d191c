-- ===== src/Sink.antt =====
-- What the encoder's routines need of the output sections: the interface between the routines that
-- write (addresses, instructions, headers) and the page chains of Output.
use swift_xdelta.Prelude.{
  ℕ, ◌<◌, ◌^◌, ◌≡◌, ◌≢◌, refl, some, none, Option, List, ◌++◌, Rvalue, Result, ok, err, ErrAll,
  internal,
}
use swift_xdelta.Integer.{encode_integer}
use swift_xdelta.Integer.RoundTrip.{encode_integer-Encodes}

-- The four sections, `enc_tails[0]` to `enc_tails[3]`.
pub data Sect : Type 0 where
  hdr adds inst addr : Sect

pub record Sink : Type 1 where
  pub Out : Type 0
  pub IsValid : Out → Type 0
  pub holds : Out → Sect → List ℕ
  pub emit : Out → Sect → List ℕ → Result (Unit {0}) × Out
  pub emit_valid : (o : Out) (s : Sect) (bs : List ℕ) → IsValid o → IsValid (emit o s bs).1
  pub emit_ok :
      (o : Out) (s : Sect) (bs : List ℕ)
      → IsValid o
      → (emit o s bs).0 ≡ ok tt
      → holds (emit o s bs).1 s ≡ holds o s ++ bs
  pub emit_other :
      (o : Out) (s t : Sect) (bs : List ℕ) → IsValid o → s ≢ t → holds (emit o s bs).1 t ≡ holds o t

emit_encoded : (k : Sink) → k.Out → Sect → Option (List ℕ) → Result (Unit {0}) × k.Out
emit_encoded k o s none = (err internal, o)
emit_encoded k o s (some bs) = k.emit o s bs

-- xd3_emit_size: the integer's bytes, then xd3_emit_bytes. That the bytes exist is a theorem of
-- Integer.RoundTrip.
unfoldable pub emit_size : (k : Sink) → k.Out → Sect → ℕ → Result (Unit {0}) × k.Out
unfolding emit_encoded
emit_size k o s num = emit_encoded k o s (encode_integer num)

pub emit_size_lem :
    (k : Sink) (o : k.Out) (s : Sect) (num : ℕ) {bs : List ℕ}
    → encode_integer num ≡ some bs
    → emit_size k o s num ≡ k.emit o s bs
unfolding emit_size
emit_size_lem k o s num e = rw e

-- The section stays valid, and the others keep what they hold.
pub record Keeps (k : Sink) (o : k.Out) (s : Sect) (o' : k.Out) : Type 0 where
  pub valid : k.IsValid o'
  pub other : (t : Sect) → s ≢ t → k.holds o' t ≡ k.holds o t

pub emit-Keeps :
    (k : Sink) (o : k.Out) (s : Sect) (bs : List ℕ) → k.IsValid o → Keeps k o s (k.emit o s bs).1
emit-Keeps k o s bs v = record {
  valid = k.emit_valid o s bs v;
  other = λ t ne. k.emit_other o s t bs v ne;
}

emit_encoded-Keeps :
    (k : Sink) (o : k.Out) (s : Sect) (r : Option (List ℕ))
    → k.IsValid o
    → Keeps k o s (emit_encoded k o s r).1
unfolding emit_encoded
emit_encoded-Keeps k o s none v = record { valid = v; other = λ t ne. refl }
emit_encoded-Keeps k o s (some bs) v = emit-Keeps k o s bs v

pub emit_size-Keeps :
    (k : Sink) (o : k.Out) (s : Sect) (num : ℕ) → k.IsValid o → Keeps k o s (emit_size k o s num).1
unfolding emit_size
emit_size-Keeps k o s num v = emit_encoded-Keeps k o s (encode_integer num) v

-- Every call that fails, fails with a code of `P`.
unfoldable pub FailsWith : (k : Sink) → (Rvalue → Type 0) → Type 0
FailsWith k P = (o : k.Out) (s : Sect) (bs : List ℕ) → k.IsValid o → ErrAll P (k.emit o s bs).0

pub emit-ErrAll :
    (k : Sink) (P : Rvalue → Type 0)
    → FailsWith k P
    → (o : k.Out) (s : Sect) (bs : List ℕ) → k.IsValid o
    → ErrAll P (k.emit o s bs).0
unfolding FailsWith
emit-ErrAll k P fails = fails

pub emit_size-ErrAll :
    (k : Sink) (P : Rvalue → Type 0)
    → FailsWith k P
    → (o : k.Out) (s : Sect) (num : ℕ) → k.IsValid o
    → num < 2 ^ 64
    → ErrAll P (emit_size k o s num).0
emit_size-ErrAll k P fails o s num v lt =
    let (bs, e, more) = encode_integer-Encodes num lt in
    rw (emit_size_lem k o s num e) (emit-ErrAll k P fails o s bs v)
