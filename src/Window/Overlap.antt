-- ===== src/Window/Overlap.antt =====
-- The copy from the target window, byte by byte (the loop of xd3_decode_output_halfinst).
use swift_xdelta.Prelude.{
  ℕ, zero, suc, ◌+◌, ◌<◌, ◌≡◌, refl, sym, ap, ◌∙◌, arith, some, List, [], ◌∷◌, ◌++◌,
}
use swift_xdelta.Prelude.{
  length, get_elem?, length-append, get_elem?-some, get_elem?-append, get_elem?-append_here,
}
use swift_xdelta.Window.{overlap_copy, then_copy}

-- The copy ends with the old bytes and `n` new ones, each equal to the byte that stands as far
-- behind `from` as it stands behind the old bytes, old or new.
pub record Copied (n from : ℕ) (out : List ℕ) : Type 0 where
  pub copy : List ℕ
  pub done : overlap_copy n from out ≡ some copy
  pub longer : length copy ≡ length out + n
  pub old : (k : ℕ) → k < length out → get_elem? copy k ≡ get_elem? out k
  pub repeats : (k : ℕ) → k < n → get_elem? copy (length out + k) ≡ get_elem? copy (from + k)

old_repeat :
    (from : ℕ) (out copy : List ℕ) (b : ℕ)
    → from < length out
    → get_elem? out from ≡ some b
    → ((k : ℕ) → k < length (out ++ b ∷ []) → get_elem? copy k ≡ get_elem? (out ++ b ∷ []) k)
    → get_elem? copy (length out) ≡ get_elem? copy from
old_repeat from out copy b h e old =
    old (length out) (omega (arith, length-append out (b ∷ [])))
    ∙ get_elem?-append_here out [] b
    ∙ sym e
    ∙ sym (get_elem?-append out (b ∷ []) from h)
    ∙ sym (old from (omega (arith, length-append out (b ∷ []))))

Copied-suc :
    (n from : ℕ) (out : List ℕ) (b : ℕ)
    → from < length out
    → get_elem? out from ≡ some b
    → Copied n (from + 1) (out ++ b ∷ [])
    → Copied (suc n) from out
Copied-suc n from out b h e c =
    let len = length-append out (b ∷ []) in
    record {
      copy = c.copy;
      done = unfold overlap_copy in unfold then_copy in rw e c.done;
      longer = omega (arith, c.longer, len);
      old = λ k lt. c.old k (omega (arith, len)) ∙ get_elem?-append out (b ∷ []) k lt;
      repeats = repeats;
    }
  where
    repeats : (k : ℕ) → k < suc n → get_elem? c.copy (length out + k) ≡ get_elem? c.copy (from + k)
    repeats zero lt =
        ap (get_elem? c.copy) (omega arith)
        ∙ old_repeat from out c.copy b h e c.old
        ∙ ap (get_elem? c.copy) (omega arith)
    repeats (suc k) lt =
        ap (get_elem? c.copy) (omega (arith, length-append out (b ∷ [])))
        ∙ c.repeats k (omega arith)
        ∙ ap (get_elem? c.copy) (omega arith)

-- A copy from a byte that is there ends; what it writes repeats the bytes from there on, also where
-- it overtakes the bytes that were there before.
pub overlap_copy-Copied : (n from : ℕ) (out : List ℕ) → from < length out → Copied n from out
overlap_copy-Copied zero from out h = record {
  copy = out;
  done = unfold overlap_copy in refl;
  longer = omega arith;
  old = λ k lt. refl;
  repeats = λ k lt. absurd (omega arith);
}
overlap_copy-Copied (suc n) from out h =
    let (b, e) = get_elem?-some out from h in
    Copied-suc n from out b h e
      (overlap_copy-Copied n (from + 1) (out ++ b ∷ []) (omega (arith, length-append out (b ∷ []))))
