-- ===== src/RunLength/Longest.antt =====
-- xd3_comprun finds the longest run at the end of its bytes.
use swift_xdelta.Prelude.{
  ℕ, zero, suc, ◌+◌, ◌%◌, ◌<◌, ◌≡◌, ◌≢◌, refl, sym, ap, ◌∙◌, arith, ◌⊎◌, inl, inr, List, [], ◌∷◌,
  ◌++◌, append-nil, append_assoc,
}
use swift_xdelta.Prelude.{
  length, replicate, length-append, length-replicate, Bool-cases, ◌==◌, ==_iff,
}
use swift_xdelta.AddrCache.{usize_mod}
use swift_xdelta.RunLength.{next_run, run_loop, comprun}

-- The bytes before the run do not end in its byte.
abbrev pub Stops : List ℕ → ℕ → Type 0
Stops front c = (front ≡ []) ⊎ ((init : List ℕ) × (b : ℕ) × (front ≡ init ++ b ∷ []) × (b ≢ c))

-- `seg` ends in exactly `s.1` bytes `s.0`.
pub record IsRun (seg : List ℕ) (s : ℕ × ℕ) : Type 0 where
  pub front : List ℕ
  pub split : seg ≡ front ++ replicate s.1 s.0
  pub stops : Stops front s.0

replicate-suc : (n c : ℕ) → replicate (suc n) c ≡ replicate n c ++ c ∷ []
replicate-suc zero c = refl
replicate-suc (suc n) c = ap (λ t. c ∷ t) (replicate-suc n c)

longer_run :
    (pre front : List ℕ) (c l : ℕ)
    → pre ≡ front ++ replicate l c
    → pre ++ c ∷ [] ≡ front ++ replicate (suc l) c
longer_run pre front c l e =
    ap (λ t. t ++ c ∷ []) e
    ∙ append_assoc front (replicate l c) (c ∷ [])
    ∙ ap (λ t. front ++ t) (sym (replicate-suc l c))

-- A byte other than the run's: what stands before it ends in another byte, or there is nothing.
new_run : (pre : List ℕ) (c l b : ℕ) → IsRun pre (c, l) → (l ≡ 0 → pre ≡ []) → b ≢ c → Stops pre b
new_run pre c zero b r none ne = inl (none refl)
new_run pre c (suc l) b r none ne = inr (
  r.front ++ replicate l c,
  c,
  r.split
      ∙ ap (λ t. r.front ++ t) (replicate-suc l c)
      ∙ sym (append_assoc r.front (replicate l c) (c ∷ [])),
  λ e. ne (sym e),
)

run_loop-IsRun :
    (seg pre : List ℕ) (c l : ℕ)
    → IsRun pre (c, l)
    → (l ≡ 0 → pre ≡ [])
    → length pre + length seg < usize_mod
    → IsRun (pre ++ seg) (run_loop (c, l) seg)
unfolding run_loop next_run
run_loop-IsRun [] pre c l r none fits = rw (append-nil pre) r
run_loop-IsRun (b ∷ seg) pre c l r none fits = elim (Bool-cases (b == c)) [
  | inl same ↦
      let e : b ≡ c = (==_iff b c).0 same in
      let small : suc l < usize_mod =
        omega
          (arith, ap length r.split, length-append r.front (replicate l c), length-replicate l c) in
      let no_wrap : (l + 1) % usize_mod ≡ suc l = omega arith in
      rw (same, no_wrap, sym (append_assoc pre (b ∷ []) seg))
        (run_loop-IsRun seg (pre ++ b ∷ []) c (suc l)
          (record {
            front = r.front;
            split = ap (λ t. pre ++ t ∷ []) e ∙ longer_run pre r.front c l r.split;
            stops = r.stops;
          })
          (λ z. absurd (omega arith)) (omega (arith, length-append pre (b ∷ []))))
  | inr other ↦
      rw (other, sym (append_assoc pre (b ∷ []) seg))
        (run_loop-IsRun seg (pre ++ b ∷ []) b 1
          (record { front = pre; split = refl; stops = new_run pre c l b r none (ground arith) })
          (λ z. absurd (omega arith)) (omega (arith, length-append pre (b ∷ []))))
]

-- xd3_comprun of fewer than 2^64 bytes returns a byte and a length such that the bytes end in a run
-- of that length of that byte, and what stands before the run does not end in it.
pub comprun-IsRun : (seg : List ℕ) → length seg < usize_mod → IsRun seg (comprun seg)
unfolding comprun
comprun-IsRun seg fits =
    run_loop-IsRun seg [] 0 0 (record { front = []; split = refl; stops = inl refl }) (λ e. refl)
      (omega arith)
