-- ===== src/Encoder/Matches.antt =====
-- The target's front parts, and the instructions that go on with them: what the string matcher may
-- hand to xd3_iopt_add_encoding.
use swift_xdelta.Prelude.{
  ℕ, zero, suc, ◌+◌, ◌≤◌, ◌<◌, ◌≡◌, refl, sym, ap, ◌∙◌, arith, ◌⊎◌, some, List, [], ◌∷◌, ◌++◌,
}
use swift_xdelta.Prelude.{length, take, drop, replicate, get_elem?, append_assoc, append-nil}
use swift_xdelta.Prelude.{get_elem?-some}
use swift_xdelta.CodeTable.{xd3_run, xd3_cpy, Rinst}
use swift_xdelta.Window.{overlap_copy, then_copy}

take-nil : (n : ℕ) → take {A = ℕ} n [] ≡ []
take-nil zero = refl
take-nil (suc n) = refl

pub take-sum : (p n : ℕ) (bs : List ℕ) → take (p + n) bs ≡ take p bs ++ take n (drop p bs)
take-sum zero n bs = ap (λ t. take t bs) (omega arith)
take-sum (suc p) n [] = take-nil (suc p + n) ∙ sym (take-nil n)
take-sum (suc p) n (b ∷ bs) =
    ap (λ t. take t (b ∷ bs)) {y = suc (p + n)} (omega arith) ∙ ap (λ t. b ∷ t) (take-sum p n bs)

pub take-all : (bs : List ℕ) → take (length bs) bs ≡ bs
take-all [] = refl
take-all (b ∷ bs) = ap (λ t. b ∷ t) (take-all bs)

take-snoc :
    (p : ℕ) (bs : List ℕ) (b : ℕ) → get_elem? bs p ≡ some b → take p bs ++ b ∷ [] ≡ take (suc p) bs
take-snoc p [] b e = cc
take-snoc zero (x ∷ bs) b e = let same : x ≡ b = cc in ap (λ t. t ∷ []) (sym same)
take-snoc (suc p) (x ∷ bs) b e = ap (λ t. x ∷ t) (take-snoc p bs b e)

get_elem?-take : (p i : ℕ) (bs : List ℕ) → i < p → get_elem? (take p bs) i ≡ get_elem? bs i
get_elem?-take zero i bs h = absurd (omega arith)
get_elem?-take (suc p) i [] h = refl
get_elem?-take (suc p) zero (b ∷ bs) h = refl
get_elem?-take (suc p) (suc i) (b ∷ bs) h = get_elem?-take p i bs (omega arith)

-- The bytes at `pos` are those at `from`, `n` of them.
unfoldable pub Repeats : List ℕ → ℕ → ℕ → ℕ → Type 0
Repeats bs from pos n = (j : ℕ) → j < n → get_elem? bs (from + j) ≡ get_elem? bs (pos + j)

-- The bytes at `pos` are all `b`, `n` of them.
unfoldable pub IsRun : List ℕ → ℕ → ℕ → ℕ → Type 0
IsRun bs b pos n = (j : ℕ) → j < n → get_elem? bs (pos + j) ≡ some b

-- A copy within the target goes on with the target, also where it reads what it writes.
pub overlap_copy-take :
    (n from pos : ℕ) (bs : List ℕ)
    → from < pos
    → pos + n ≤ length bs
    → Repeats bs from pos n
    → overlap_copy n from (take pos bs) ≡ some (take (pos + n) bs)
unfolding overlap_copy Repeats
overlap_copy-take zero from pos bs lt fits same = ap (λ t. some (take t bs)) (omega arith)
overlap_copy-take (suc n) from pos bs lt fits same =
    let (b, e) = get_elem?-some bs pos (omega arith) in
    let at_zero : get_elem? bs from ≡ get_elem? bs pos =
      ap (get_elem? bs) (omega arith) ∙ same 0 (omega arith) ∙ ap (get_elem? bs) (omega arith) in
    let read : get_elem? (take pos bs) from ≡ some b =
      get_elem?-take pos from bs lt ∙ at_zero ∙ e in
    let grown : take pos bs ++ b ∷ [] ≡ take (suc pos) bs = take-snoc pos bs b e in
    unfold then_copy in
    rw (read, grown)
      (overlap_copy-take n (from + 1) (suc pos) bs (omega arith) (omega arith) (λ j h.
          ap (get_elem? bs) (omega arith)
          ∙ same (suc j) (omega arith)
          ∙ ap (get_elem? bs) (omega arith))
        ∙ ap (λ t. some (take t bs)) (omega arith))

pub replicate-take :
    (n pos b : ℕ) (bs : List ℕ)
    → IsRun bs b pos n
    → take pos bs ++ replicate n b ≡ take (pos + n) bs
unfolding IsRun
replicate-take zero pos b bs run = append-nil (take pos bs) ∙ ap (λ t. take t bs) (omega arith)
replicate-take (suc n) pos b bs run =
    sym (append_assoc (take pos bs) (b ∷ []) (replicate n b))
    ∙ ap (λ t. t ++ replicate n b)
        (take-snoc pos bs b (ap (get_elem? bs) (omega arith) ∙ run 0 (omega arith)))
    ∙ replicate-take n (suc pos) b bs
        (λ j h. ap (get_elem? bs) (omega arith) ∙ run (suc j) (omega arith))
    ∙ ap (λ t. take t bs) (omega arith)

-- A copy within the target, or a run, that the target goes on with at `pos`.
pub record IsMatch (bs : List ℕ) (i : Rinst) : Type 0 where
  pub some_size : 1 ≤ i.size
  pub inside : i.pos + i.size ≤ length bs
  pub kind :
      ((i.type ≡ xd3_cpy) × (i.addr < i.pos) × (i.xtra ≡ 0) × Repeats bs i.addr i.pos i.size)
      ⊎ ((i.type ≡ xd3_run) × IsRun bs i.xtra i.pos i.size)
