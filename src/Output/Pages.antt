-- ===== src/Output/Pages.antt =====
-- What a chain of pages holds, and that the calls keep every page inside its memory.
use swift_xdelta.Prelude.{ℕ, zero, suc, ◌+◌, ◌≤◌, ◌<◌, ◌≡◌, refl, sym, ap, ◌∙◌, arith}
use swift_xdelta.Prelude.{Option, none, some, List, [], ◌∷◌, ◌++◌, append_assoc, append-nil}
use swift_xdelta.Prelude.{length, set, take, All, length-set}
use mathlib.Core.Path.{subst}
use native.Mathlib.Numerals.{add-one}
use native.Mathlib.Nat.{add-zero}
use swift_xdelta.Output.{
  struct_size, alloc_page, next_answer, from_free_list, Page, Pool, Section, alloc_size, memory,
  alloc_output, copy_to,
}

pub record IsPage (p : Page) : Type 0 where
  pub sized : length p.base ≡ p.avail
  pub inside : p.next ≤ p.avail
  pub roomy : 0 < p.avail

abbrev pub IsPool : Pool → Type 0
IsPool m = All IsPage m.free_list

pub record IsSection (s : Section) : Type 0 where
  pub before : All IsPage s.full
  pub last : IsPage s.tail

abbrev pub page_bytes : Page → List ℕ
page_bytes p = take p.next p.base

abbrev pub pages_bytes : List Page → List ℕ
pages_bytes [] = []
pages_bytes (p ∷ ps) = page_bytes p ++ pages_bytes ps

-- What the section holds so far.
abbrev pub contents : Section → List ℕ
contents s = pages_bytes s.full ++ page_bytes s.tail

pub pages_bytes-append :
    (ps qs : List Page) → pages_bytes (ps ++ qs) ≡ pages_bytes ps ++ pages_bytes qs
pages_bytes-append [] qs = refl
pages_bytes-append (p ∷ ps) qs =
    ap (λ t. page_bytes p ++ t) (pages_bytes-append ps qs) ∙ sym (append_assoc (page_bytes p) _ _)

length-memory : (size : ℕ) (g : ℕ → ℕ) → length (memory size g) ≡ size
unfolding memory
length-memory zero g = refl
length-memory (suc size) g = ap suc (length-memory size (λ i. g (i + 1)))

-- A page from the pool is empty and has room, and the pool stays well formed.
pub record Fresh (p : Page) (m : Pool) : Type 0 where
  pub page : IsPage p
  pub empty : p.next ≡ 0
  pub pool : IsPool m

alloc_page-Fresh :
    (answers : List (Option (ℕ → ℕ))) (m : Pool) (p : Page) (m' : Pool)
    → IsPool m
    → alloc_page (next_answer struct_size answers m) ≡ (some p, m')
    → Fresh p m'
unfolding alloc_page next_answer
alloc_page-Fresh [] m p m' h e = cc
alloc_page-Fresh (none ∷ rest) m p m' h e = cc
alloc_page-Fresh (some g ∷ []) m p m' h e = cc
alloc_page-Fresh (some g ∷ none ∷ rest) m p m' h e = cc
alloc_page-Fresh (some g ∷ some g' ∷ rest) m p m' h e = ground (arith, length-memory alloc_size g')

from_free_list-Fresh :
    (ps : List Page) (m : Pool) (p : Page) (m' : Pool)
    → All IsPage ps
    → IsPool m
    → from_free_list ps m ≡ (some p, m')
    → Fresh p m'
unfolding from_free_list
from_free_list-Fresh [] m p m' hs h e = alloc_page-Fresh m.answers m p m' h e
from_free_list-Fresh (q ∷ ps) m p m' (hq, hs) h e = ground arith

pub alloc_output-Fresh :
    (m : Pool) (p : Page) (m' : Pool) → IsPool m → alloc_output m ≡ (some p, m') → Fresh p m'
unfolding alloc_output
alloc_output-Fresh m p m' h e = from_free_list-Fresh m.free_list m p m' h h e

pub take-set :
    (xs : List ℕ) (n v : ℕ) → n < length xs → take (n + 1) (set xs n v) ≡ take n xs ++ (v ∷ [])
take-set [] n v h = absurd (omega arith)
take-set (x ∷ xs) zero v h = refl
take-set (x ∷ xs) (suc n) v h =
    rw add-one (ap (λ t. x ∷ t) (rw add-one at (take-set xs n v (omega arith))))

pub length-copy_to :
    (base : List ℕ) (at : ℕ) (bytes : List ℕ) → length (copy_to base at bytes) ≡ length base
unfolding copy_to
length-copy_to base at [] = refl
length-copy_to base at (b ∷ bytes) =
    length-copy_to (set base at b) (at + 1) bytes ∙ length-set base at b

pub take-copy_to :
    (base : List ℕ) (at : ℕ) (bytes : List ℕ)
    → at + length bytes ≤ length base
    → take (at + length bytes) (copy_to base at bytes) ≡ take at base ++ bytes
unfolding copy_to
take-copy_to base at [] h = rw (add-zero, append-nil)
take-copy_to base at (b ∷ bytes) h =
    let e : at + suc (length bytes) ≡ (at + 1) + length bytes = omega arith in
    rw (
      e,
      take-copy_to (set base at b) (at + 1) bytes (omega (arith, length-set base at b)),
      take-set base at b (omega arith),
      append_assoc,
    )

-- A refusal leaves the free list as it is.
alloc_page-none :
    (answers : List (Option (ℕ → ℕ))) (m m' : Pool)
    → alloc_page (next_answer struct_size answers m) ≡ (none, m')
    → m'.free_list ≡ m.free_list
unfolding alloc_page next_answer
alloc_page-none [] m m' e = cc
alloc_page-none (none ∷ rest) m m' e = ground arith
alloc_page-none (some g ∷ []) m m' e = ground arith
alloc_page-none (some g ∷ none ∷ rest) m m' e = ground arith
alloc_page-none (some g ∷ some g' ∷ rest) m m' e = cc

from_free_list-none :
    (ps : List Page) (m m' : Pool) → from_free_list ps m ≡ (none, m') → m'.free_list ≡ m.free_list
unfolding from_free_list
from_free_list-none [] m m' e = alloc_page-none m.answers m m' e
from_free_list-none (q ∷ ps) m m' e = cc

pub alloc_output-none : (m m' : Pool) → IsPool m → alloc_output m ≡ (none, m') → IsPool m'
unfolding alloc_output
alloc_output-none m m' h e = subst (All IsPage) (sym (from_free_list-none m.free_list m m' e)) h
