-- ===== src/Encoder/Push.antt =====
-- A new match in the instruction buffer: what xd3_iopt_erase leaves of it, and xd3_found_match and
-- xd3_emit_run behind that.
use swift_xdelta.Prelude.{
  ℕ, zero, suc, ◌+◌, ◌%◌, ◌≤◌, ◌<◌, ◌≡◌, refl, sym, ap, ◌∙◌, arith, inl, inr, Bool-cases, List, [],
  ◌∷◌, ◌++◌, append-nil, append_assoc, All, All-append, length, ltb, Option, ok,
}
use swift_xdelta.Sink.{Sink}
use swift_xdelta.AddrCache.{usize_mod}
use swift_xdelta.CodeTable.{Rinst, xd3_run, xd3_cpy}
use swift_xdelta.Encoder.{Encoder, Call}
use swift_xdelta.Encoder.Matches.{IsMatch}
use swift_xdelta.Encoder.Cuts.{Ordered, AreOrdered}
use swift_xdelta.Encoder.Slots.{
  back, without_back, erase_loop, iopt_erase, fill_back, make_free, take_slot, iopt_get_slot,
  emit_run, found_match,
}

-- The last of them ends before `n`.
unfoldable pub EndsBefore : ℕ → List Rinst → Type 0
EndsBefore n [] = Unit
EndsBefore n (r ∷ rest) = (back r rest).pos + (back r rest).size < n

-- The last of them starts before `n`.
pub StartsBefore : ℕ → List Rinst → Type 0
StartsBefore n [] = Unit
StartsBefore n (r ∷ rest) = (back r rest).pos < n

AreOrdered-without_back :
    (bs : List ℕ) (n : ℕ) (r : Rinst) (rest : List Rinst)
    → Ordered bs r rest
    → EndsBefore n (r ∷ rest)
    → AreOrdered bs (without_back r rest) × EndsBefore n (without_back r rest)
unfolding without_back EndsBefore back
AreOrdered-without_back bs n r [] o h = (tt, tt)
AreOrdered-without_back bs n r (r' ∷ []) (m, starts, ends, o) h = (m, omega arith)
AreOrdered-without_back bs n r (r' ∷ r2 ∷ rest) (m, starts, ends, o) h =
    let (o', h') = AreOrdered-without_back bs n r' (r2 ∷ rest) o h in ((m, starts, ends, o'), h')

Ordered-snoc :
    (bs : List ℕ) (r : Rinst) (rest : List Rinst) (i : Rinst)
    → Ordered bs r rest
    → IsMatch bs i
    → (back r rest).pos < i.pos
    → (back r rest).pos + (back r rest).size < i.pos + i.size
    → Ordered bs r (rest ++ (i ∷ []))
unfolding back
Ordered-snoc bs r [] i o m starts ends = (o, starts, ends, m)
Ordered-snoc bs r (r' ∷ rest) i (m', starts', ends', o) m starts ends =
    (m', starts', ends', Ordered-snoc bs r' rest i o m starts ends)

AreOrdered-snoc :
    (bs : List ℕ) (used : List Rinst) (i : Rinst)
    → AreOrdered bs used
    → IsMatch bs i
    → StartsBefore i.pos used
    → EndsBefore (i.pos + i.size) used
    → AreOrdered bs (used ++ (i ∷ []))
unfolding StartsBefore EndsBefore
AreOrdered-snoc bs [] i o m starts ends = m
AreOrdered-snoc bs (r ∷ rest) i o m starts ends = Ordered-snoc bs r rest i o m starts ends

-- What xd3_iopt_erase leaves: the instructions of the buffer that start before `pos`, in order, the last
-- of which ends before `n`. Those behind them start at `pos` or behind it, and their slots are free.
pub record Erased {k : Sink} (bs : List ℕ) (pos n : ℕ) (e e' : Encoder k) : Type 0 where
  pub gone : List Rinst
  pub split : e.iopt_used ≡ e'.iopt_used ++ gone
  pub before : All (λ (r : Rinst). r.pos < pos) e'.iopt_used
  pub behind : All (λ (r : Rinst). pos ≤ r.pos) gone
  pub freed : e'.iopt_free ≡ gone ++ e.iopt_free
  pub ordered : AreOrdered bs e'.iopt_used
  pub starts : StartsBefore pos e'.iopt_used
  pub ends : EndsBefore n e'.iopt_used

length-without_back : (r : Rinst) (rest : List Rinst) → length (without_back r rest) ≡ length rest
unfolding without_back
length-without_back r [] = refl
length-without_back r (r' ∷ rest) = ap suc (length-without_back r' rest)

without_back-back :
    (r : Rinst) (rest : List Rinst) → r ∷ rest ≡ without_back r rest ++ (back r rest ∷ [])
unfolding without_back back
without_back-back r [] = refl
without_back-back r (r' ∷ rest) = ap (λ t. r ∷ t) (without_back-back r' rest)

Ordered-before :
    (bs : List ℕ) (pos : ℕ) (r : Rinst) (rest : List Rinst)
    → Ordered bs r rest
    → (back r rest).pos < pos
    → All (λ (r : Rinst). r.pos < pos) (r ∷ rest)
unfolding back
Ordered-before bs pos r [] o h = (h, tt)
Ordered-before bs pos r (r' ∷ rest) (m, starts, ends, o) h =
    let behind = Ordered-before bs pos r' rest o h in (omega (arith, behind.0), behind)

nothing-Erased :
    {k : Sink} (bs : List ℕ) (pos n : ℕ) (e : Encoder k)
    → AreOrdered bs e.iopt_used
    → EndsBefore n e.iopt_used
    → StartsBefore pos e.iopt_used
    → All (λ (r : Rinst). r.pos < pos) e.iopt_used
    → Erased bs pos n e e
nothing-Erased bs pos n e o ends starts before = record {
  gone = [];
  split = sym (append-nil e.iopt_used);
  before = before;
  behind = tt;
  freed = refl;
  ordered = o;
  starts = starts;
  ends = ends;
}

none_used-Erased :
    {k : Sink} (bs : List ℕ) (pos n : ℕ) (e : Encoder k) → e.iopt_used ≡ [] → Erased bs pos n e e
none_used-Erased bs pos n e same =
    nothing-Erased bs pos n e (rw same tt) (rw same (unfold EndsBefore in tt))
      (rw same (unfold StartsBefore in tt)) (rw same tt)

erase_loop-Erased :
    {k : Sink} (bs : List ℕ) (rounds pos n : ℕ) (e : Encoder k) (used : List Rinst)
    → e.iopt_used ≡ used
    → length used ≤ rounds
    → AreOrdered bs used
    → EndsBefore n used
    → Erased bs pos n e (erase_loop rounds e pos used)
unfolding erase_loop
erase_loop-Erased bs zero pos n e [] same few o h = none_used-Erased bs pos n e same
erase_loop-Erased bs zero pos n e (r ∷ rest) same few o h = absurd (omega arith)
erase_loop-Erased bs (suc rounds) pos n e [] same few o h = none_used-Erased bs pos n e same
erase_loop-Erased bs (suc rounds) pos n e (r ∷ rest) same few o h =
    elim (Bool-cases (ltb (back r rest).pos pos)) [
      | inl before ↦
          let last : (back r rest).pos < pos = ground arith in
          rw before (
            nothing-Erased bs pos n e (rw same o) (rw same h)
              (rw same (unfold StartsBefore in last))
              (rw same (Ordered-before bs pos r rest o last)))
      | inr covered ↦
          let (o', h') = AreOrdered-without_back bs n r rest o h in
          let len = length-without_back r rest in
          let last : pos ≤ (back r rest).pos = ground arith in
          let on =
            erase_loop-Erased bs rounds pos n _ (without_back r rest) refl (omega arith) o' h' in
          rw covered (record {
            gone = on.gone ++ (back r rest ∷ []);
            split =
                same
                ∙ without_back-back r rest
                ∙ ap (λ t. t ++ (back r rest ∷ [])) on.split
                ∙ append_assoc _ on.gone (back r rest ∷ []);
            before = on.before;
            behind = All-append _ on.gone (back r rest ∷ []) on.behind (last, tt);
            freed = on.freed ∙ sym (append_assoc on.gone (back r rest ∷ []) e.iopt_free);
            ordered = on.ordered;
            starts = on.starts;
            ends = on.ends;
          })
    ]

fill_back-snoc :
    (used : List Rinst) (i j : Rinst) → fill_back (used ++ (i ∷ [])) j ≡ used ++ (j ∷ [])
unfolding fill_back
fill_back-snoc [] i j = refl
fill_back-snoc (r ∷ []) i j = refl
fill_back-snoc (r ∷ r' ∷ rest) i j = ap (λ t. r ∷ t) (fill_back-snoc (r' ∷ rest) i j)

-- A call that has put `j`, and nothing else, at the end of the buffer, in a slot that was free.
pub record Pushed {k : Sink} (bs : List ℕ) (e : Encoder k) (j : Rinst) (r : Call k (Unit {0}))
    : Type 0 where
  pub status : r.0 ≡ ok tt
  pub used : r.1.iopt_used ≡ e.iopt_used ++ (j ∷ [])
  pub slot : Rinst
  pub free : e.iopt_free ≡ slot ∷ r.1.iopt_free
  pub ordered : AreOrdered bs r.1.iopt_used

module _ {k : Sink} (bs : List ℕ) (iadd : Rinst) (answer : Option (List Rinst)) (e : Encoder k)
    (i : Rinst) (free : List Rinst) (has : e.iopt_free ≡ i ∷ free)
    (o : AreOrdered bs e.iopt_used) where
  slot_taken : iopt_get_slot iadd answer e ≡ (
    ok i,
    record e {
      iopt_free = free;
      iopt_used = e.iopt_used ++ (i ∷ []);
      i_slots_used = (e.i_slots_used + 1) % usize_mod;
    },
  )
  unfolding iopt_get_slot make_free take_slot
  slot_taken = rw has refl

  filled :
      (j : Rinst) (r : Call k (Unit {0}))
      → r ≡ (
        ok tt,
        record e {
          iopt_free = free;
          iopt_used = fill_back (e.iopt_used ++ (i ∷ [])) j;
          i_slots_used = (e.i_slots_used + 1) % usize_mod;
        },
      )
      → IsMatch bs j
      → StartsBefore j.pos e.iopt_used
      → EndsBefore (j.pos + j.size) e.iopt_used
      → Pushed bs e j r
  filled j r is m starts ends =
      let at = fill_back-snoc e.iopt_used i j in
      rw (is, at)
        (record {
          status = refl;
          used = refl;
          slot = i;
          free = has;
          ordered = AreOrdered-snoc bs e.iopt_used j o m starts ends;
        })

  -- With a slot that is free, and in order behind instructions that start and end before the new run,
  -- xd3_emit_run adds the run to a buffer that stays in order.
  pub emit_run-Pushed :
      (pos size run_c : ℕ)
      → IsMatch bs (record i { type = xd3_run; xtra = run_c; pos = pos; size = size })
      → StartsBefore pos e.iopt_used
      → EndsBefore (pos + size) e.iopt_used
      → Pushed bs e
          (record i { type = xd3_run; xtra = run_c; pos = pos; size = size })
          (emit_run iadd answer e pos size run_c)
  unfolding emit_run
  emit_run-Pushed pos size run_c m starts ends = filled _ _ (rw slot_taken refl) m starts ends

  -- The same of xd3_found_match.
  pub found_match-Pushed :
      (pos size addr is_source : ℕ)
      → IsMatch bs
          (record i { type = xd3_cpy; xtra = is_source % 256; pos = pos; size = size; addr = addr })
      → StartsBefore pos e.iopt_used
      → EndsBefore (pos + size) e.iopt_used
      → Pushed bs e
          (record i { type = xd3_cpy; xtra = is_source % 256; pos = pos; size = size; addr = addr })
          (found_match iadd answer e pos size addr is_source)
  unfolding found_match
  found_match-Pushed pos size addr is_source m starts ends =
      filled _ _ (rw slot_taken refl) m starts ends

-- From instructions in order, the last of which ends before `n`, xd3_iopt_erase leaves exactly those that
-- start before `pos`, in their order: the others, which start at `pos` or behind it, stood behind them,
-- and their slots are in front of the free ones, in the same order.
pub iopt_erase-Erased :
    {k : Sink} (bs : List ℕ) (pos n : ℕ) (e : Encoder k)
    → AreOrdered bs e.iopt_used
    → EndsBefore n e.iopt_used
    → Erased bs pos n e (iopt_erase e pos)
unfolding iopt_erase
iopt_erase-Erased bs pos n e o h =
    erase_loop-Erased bs (length e.iopt_used) pos n e e.iopt_used refl (omega arith) o h

-- Where a match that is right for the target ends behind all instructions of the buffer, which are in
-- order, and a slot is free behind xd3_iopt_erase, that call leaves exactly the instructions that start
-- before the match, and xd3_found_match puts the match, with its position, size and address, behind
-- them, without an error; the buffer stays in order, and one of the free slots is used.
pub found_match-iopt_erase :
    {k : Sink} (bs : List ℕ) (iadd : Rinst) (answer : Option (List Rinst)) (e : Encoder k)
    (i : Rinst) (free : List Rinst) (pos size addr is_source : ℕ)
    → AreOrdered bs e.iopt_used
    → EndsBefore (pos + size) e.iopt_used
    → (iopt_erase e pos).iopt_free ≡ i ∷ free
    → IsMatch bs
        (record i { type = xd3_cpy; xtra = is_source % 256; pos = pos; size = size; addr = addr })
    → Erased bs pos (pos + size) e (iopt_erase e pos)
      × Pushed bs
          (iopt_erase e pos)
          (record i { type = xd3_cpy; xtra = is_source % 256; pos = pos; size = size; addr = addr })
          (found_match iadd answer (iopt_erase e pos) pos size addr is_source)
found_match-iopt_erase bs iadd answer e i free pos size addr is_source o h has m =
    let x = iopt_erase-Erased bs pos (pos + size) e o h in
    (
      x,
      found_match-Pushed bs iadd answer (iopt_erase e pos) i free has x.ordered pos size addr
          is_source m x.starts x.ends,
    )
