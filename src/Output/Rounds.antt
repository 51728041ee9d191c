-- ===== src/Output/Rounds.antt =====
-- The loop of xd3_emit_bytes: each round fills what the tail has left.
use swift_xdelta.Prelude.{ℕ, zero, suc, ◌+◌, ◌<◌, ◌≡◌, refl, sym, ap, ◌∙◌, arith, min}
use swift_xdelta.Prelude.{Option, none, some, List, [], ◌∷◌, ◌++◌, append_assoc, append-nil}
use swift_xdelta.Prelude.{length, take, length-take, length-drop, take-append-drop, ok, err, enomem}
use swift_xdelta.Output.{
  after_copy, emit_round, Pool, Section, Emitted, emit_bytes, emit_bytes_loop, make_room, fill_tail,
  room,
}
use swift_xdelta.Output.Pages.{IsPool, IsSection, contents}
use mathlib.Core.Path.{subst}
use swift_xdelta.Output.Emit.{
  Roomy, RoomFor, make_room-RoomFor, Filled, fill_page-Filled, Outcome, Outcome-Filled,
  Outcome-refused,
}

-- The rest of the loop.
abbrev Rounds : Type 0
Rounds = Pool → Section → List ℕ → Option Emitted

Finishes : Rounds → Pool → Section → List ℕ → Type 0
Finishes again m s bytes = (e : Emitted) × (again m s bytes ≡ some e) × Outcome s bytes e

-- A first part that was written, and the outcome of the rest.
Outcome-append :
    (s s' t : Section) (m : Pool) (front back bytes : List ℕ) (e : Emitted)
    → Roomy s s' m
    → Filled s' front t
    → bytes ≡ front ++ back
    → Outcome t back e
    → Outcome s bytes e
Outcome-append s s' t m front back bytes e r f eq o = record {
  pool = o.pool;
  section = o.section;
  done = front ++ o.done;
  undone = o.undone;
  split = eq ∙ ap (λ u. front ++ u) o.split ∙ sym (append_assoc front o.done o.undone);
  written =
      o.written
      ∙ ap (λ u. u ++ o.done) (f.written ∙ ap (λ u. u ++ front) r.same)
      ∙ append_assoc (contents s) front o.done;
  ends = o.ends;
}

-- How much one round copies.
abbrev copied : Section → List ℕ → ℕ
copied s bytes = min (room s.tail) (length bytes)

fill_tail-Filled :
    (s : Section) (bytes : List ℕ)
    → IsSection s
    → Filled s (take (copied s bytes) bytes) (fill_tail s bytes).0
unfolding fill_tail
fill_tail-Filled s bytes h =
    fill_page-Filled s (take (copied s bytes) bytes) h
      (omega (arith, length-take (copied s bytes) bytes (omega arith), h.last.inside))

split :
    (s : Section) (bytes left : List ℕ)
    → (fill_tail s bytes).1 ≡ left
    → bytes ≡ take (copied s bytes) bytes ++ left
unfolding fill_tail
split s bytes left e =
    sym (take-append-drop (copied s bytes) bytes) ∙ ap (λ u. take (copied s bytes) bytes ++ u) e

all_copied :
    (s : Section) (bytes : List ℕ)
    → (fill_tail s bytes).1 ≡ []
    → take (copied s bytes) bytes ≡ bytes
all_copied s bytes e = sym (split s bytes [] e ∙ append-nil _)

-- A round that leaves bytes has copied one at least.
left_shorter :
    (s : Section) (bytes : List ℕ) (b : ℕ) (left : List ℕ)
    → s.tail.next < s.tail.avail
    → (fill_tail s bytes).1 ≡ b ∷ left
    → length (b ∷ left) < length bytes
unfolding fill_tail
left_shorter s bytes b left space e = omega (arith, length-drop (copied s bytes) bytes, ap length e)

-- What `after_copy` makes of a round, if the rounds to come finish.
after_copy-Outcome :
    (again : Rounds) (m : Pool) (s s' : Section) (bytes : List ℕ) (r : Section × List ℕ)
    → Roomy s s' m
    → fill_tail s' bytes ≡ r
    → ((b : ℕ) (left : List ℕ) → r.1 ≡ b ∷ left → Finishes again m r.0 (b ∷ left))
    → (e : Emitted) × (after_copy again m r ≡ some e) × Outcome s bytes e
unfolding after_copy Finishes
after_copy-Outcome again m s s' bytes (t, []) r e ih =
    let f =
      subst (λ u. Filled s' (take (copied s' bytes) bytes) u.0) e
        (fill_tail-Filled s' bytes r.section) in
    (
      record { status = ok tt; pool = m; section = t },
      refl,
      Outcome-Filled s s' t m bytes r
          (subst (λ u. Filled s' u t) (all_copied s' bytes (ap (λ u. u.1) e)) f),
    )
after_copy-Outcome again m s s' bytes (t, b ∷ left) r e ih =
    let f =
      subst (λ u. Filled s' (take (copied s' bytes) bytes) u.0) e
        (fill_tail-Filled s' bytes r.section) in
    let (x, done, o) = ih b left refl in
    (
      x,
      done,
      Outcome-append s s' t m (take (copied s' bytes) bytes) (b ∷ left) bytes x r f
          (split s' bytes (b ∷ left) (ap (λ u. u.1) e)) o,
    )

emit_round-Outcome :
    (again : Rounds) (s : Section) (bytes : List ℕ) (r : Option Section × Pool)
    → IsSection s
    → RoomFor s r
    → ((m : Pool) (t : Section) (b : ℕ) (left : List ℕ)
        → IsPool m
        → IsSection t
        → length (b ∷ left) < length bytes
        → Finishes again m t (b ∷ left))
    → (e : Emitted) × (emit_round again s bytes r ≡ some e) × Outcome s bytes e
unfolding emit_round
emit_round-Outcome again s bytes (none, m) hs hm ih =
    (record { status = err enomem; pool = m; section = s }, refl, Outcome-refused s m bytes hm hs)
emit_round-Outcome again s bytes (some s', m) hs r ih =
    after_copy-Outcome again m s s' bytes (fill_tail s' bytes) r refl λ b left e.
      ih m (fill_tail s' bytes).0 b left r.pool (fill_tail-Filled s' bytes r.section).section
        (left_shorter s' bytes b left r.space e)

loop-Finishes :
    (fuel : ℕ) (m : Pool) (s : Section) (bytes : List ℕ)
    → IsPool m
    → IsSection s
    → length bytes < fuel
    → Finishes (emit_bytes_loop fuel) m s bytes
unfolding Finishes emit_bytes_loop
loop-Finishes zero m s bytes hm hs h = absurd (omega arith)
loop-Finishes (suc fuel) m s bytes hm hs h =
    emit_round-Outcome (emit_bytes_loop fuel) s bytes (make_room m s) hs
      (make_room-RoomFor m s hm hs)
      λ m' t b left hm' ht shorter. loop-Finishes fuel m' t (b ∷ left) hm' ht (omega arith)

-- xd3_emit_bytes ends on every well-formed section: it writes its bytes behind what the section
-- holds, over as many pages as they need, or reports ENOMEM with a first part of them written;
-- either way the pool and the section stay well formed.
pub emit_bytes-Outcome :
    (m : Pool) (s : Section) (bytes : List ℕ)
    → IsPool m
    → IsSection s
    → (e : Emitted) × (emit_bytes m s bytes ≡ some e) × Outcome s bytes e
unfolding emit_bytes Finishes
emit_bytes-Outcome m s bytes hm hs = loop-Finishes (length bytes + 1) m s bytes hm hs (omega arith)
