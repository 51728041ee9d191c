-- ===== src/AddrCache/State.antt =====
-- The address cache keeps its shape, and every address in it is a `usize_t` that one of its slots
-- is looked up by.
use swift_xdelta.Prelude.{
  ℕ, zero, suc, ◌+◌, ◌*◌, ◌%◌, ◌<◌, ◌≡◌, refl, sym, ap, ◌∙◌, arith, ◌⊎◌, inl, inr, Bool-cases, true,
  false, some, ltb, ◌==◌, if◌then◌else◌, ok,
}
use swift_xdelta.Prelude.{
  List, [], ◌∷◌, All, get_or, get_elem?, set, replicate, length, length-set, length-replicate,
}
use native.Mathlib.Nat.{mod-lt, mod-eq_of_lt, mul-mod_right}
use swift_xdelta.AddrCache.{Cache, usize_mod, clear, init_cache, update_cache, element}

abbrev pub AreWords : List ℕ → Type 0
AreWords = All (λ a. a < usize_mod)

pub record IsCache (c : Cache) : Type 0 where
  pub near_len : length c.near_array ≡ c.s_near
  pub same_len : length c.same_array ≡ c.s_same * 256
  pub same_some : 0 < c.s_same
  pub slot : c.next_slot < c.s_near
  pub near_words : AreWords c.near_array
  pub same_words : AreWords c.same_array

AreWords-set : (xs : List ℕ) (i v : ℕ) → AreWords xs → v < usize_mod → AreWords (set xs i v)
AreWords-set [] i v h hv = tt
AreWords-set (x ∷ xs) zero v (hx, h) hv = (hv, h)
AreWords-set (x ∷ xs) (suc i) v (hx, h) hv = (hx, AreWords-set xs i v h hv)

AreWords-replicate : (n : ℕ) → AreWords (replicate n 0)
AreWords-replicate zero = tt
AreWords-replicate (suc n) = (omega arith, AreWords-replicate n)

pub get_or-lt : (xs : List ℕ) (i : ℕ) → AreWords xs → get_or xs i 0 < usize_mod
get_or-lt [] i h = omega arith
get_or-lt (x ∷ xs) zero (hx, h) = hx
get_or-lt (x ∷ xs) (suc i) (hx, h) = get_or-lt xs i h

-- An update by a word of usize_t keeps the cache well formed.
pub update_cache-IsCache :
    (c : Cache) (a : ℕ) → IsCache c → a < usize_mod → IsCache (update_cache c a)
unfolding update_cache
update_cache-IsCache c a h ha = ground (
  arith,
  length-set c.near_array c.next_slot a,
  length-set c.same_array (a % (c.s_same * 256)) a,
  AreWords-set c.near_array c.next_slot a h.near_words ha,
  AreWords-set c.same_array (a % (c.s_same * 256)) a h.same_words ha,
)

get_elem?-set :
    (xs : List ℕ) (i j v : ℕ)
    → j < length xs
    → get_elem? (set xs j v) i ≡ (if i == j then some v else get_elem? xs i)
get_elem?-set [] i j v h = absurd (omega arith)
get_elem?-set (x ∷ xs) zero zero v h = refl
get_elem?-set (x ∷ xs) zero (suc j) v h = ground arith
get_elem?-set (x ∷ xs) (suc i) zero v h = ground arith
get_elem?-set (x ∷ xs) (suc i) (suc j) v h =
    get_elem?-set xs i j v (omega arith) ∙ shifted (Bool-cases (i == j))
  where
    shifted :
        ((i == j) ≡ true) ⊎ ((i == j) ≡ false)
        → (if i == j then some v else get_elem? xs i)
          ≡ (if suc i == suc j then some v else get_elem? xs i)
    shifted b = ground arith

-- The cache after an update by an address: the next near slot and the slot that the address is looked
-- up by hold it, both inside their arrays; all other slots hold what they held; and the next near slot
-- is the one behind, or the first.
pub record Updated (c : Cache) (a : ℕ) (c' : Cache) : Type 0 where
  pub cache : IsCache c'
  pub modes : (c'.s_near ≡ c.s_near) × (c'.s_same ≡ c.s_same)
  pub near :
      (i : ℕ)
      → get_elem? c'.near_array i ≡ (if i == c.next_slot then some a else get_elem? c.near_array i)
  pub same :
      (i : ℕ)
      → get_elem? c'.same_array i
        ≡ (if i == a % (c.s_same * 256) then some a else get_elem? c.same_array i)
  pub slot : c'.next_slot ≡ (if suc c.next_slot == c.s_near then 0 else suc c.next_slot)

next_of : (n i : ℕ) → i < n → (i + 1) % n ≡ (if suc i == n then 0 else suc i)
next_of n i h = elim (Bool-cases (suc i == n)) [
  | inl last ↦
      let whole : n * 1 ≡ i + 1 = ground arith in
      rw last (ap (λ t. t % n) (sym whole) ∙ mul-mod_right n 1)
  | inr inside ↦
      let below : i + 1 < n = ground arith in rw inside (mod-eq_of_lt below ∙ omega arith)
]

update_parts :
    (c : Cache) (a : ℕ)
    → IsCache c
    → update_cache c a ≡ record c {
      near_array = set c.near_array c.next_slot a;
      next_slot = (c.next_slot + 1) % c.s_near;
      same_array = set c.same_array (a % (c.s_same * 256)) a;
    }
unfolding update_cache
update_parts c a h =
    let near : ltb 0 c.s_near ≡ true = ground (arith, h.slot) in
    let same : ltb 0 c.s_same ≡ true = ground (arith, h.same_some) in rw (near, same) refl

-- In a well-formed cache, an update by a word of usize_t stores it in the next near slot and in the
-- slot that it is looked up by, both inside their arrays, changes no other slot, moves the next near
-- slot on by one, from the last to the first, and leaves the cache well formed.
pub update_cache-Updated :
    (c : Cache) (a : ℕ) → IsCache c → a < usize_mod → Updated c a (update_cache c a)
update_cache-Updated c a h ha =
    let pos : 0 < c.s_same * 256 = omega (arith, h.same_some) in
    let at : a % (c.s_same * 256) < length c.same_array = omega (arith, mod-lt a pos, h.same_len) in
    let cache = update_cache-IsCache c a h ha in
    let parts = update_parts c a h in
    rw parts (record {
      cache = rw parts at cache;
      modes = (refl, refl);
      near = λ i. get_elem?-set c.near_array i c.next_slot a (omega (arith, h.slot, h.near_len));
      same = λ i. get_elem?-set c.same_array i (a % (c.s_same * 256)) a at;
      slot = next_of c.s_near c.next_slot h.slot;
    })

clear_all : (n : ℕ) (xs : List ℕ) → length xs ≡ n → clear n xs ≡ replicate n 0
clear_all zero [] h = refl
clear_all zero (x ∷ xs) h = absurd (omega arith)
clear_all (suc n) [] h = absurd (omega arith)
clear_all (suc n) (x ∷ xs) h = ap (λ t. 0 ∷ t) (clear_all n xs (omega arith))

-- What xd3_alloc_cache leaves: arrays of the lengths that the code table asks for.
pub record HasArrays (c : Cache) : Type 0 where
  pub near_len : length c.near_array ≡ c.s_near
  pub same_len : length c.same_array ≡ c.s_same * 256

-- A cache of zeros.
pub record IsCleared (c : Cache) : Type 0 where
  pub cache : IsCache c
  pub near : c.near_array ≡ replicate c.s_near 0
  pub same : c.same_array ≡ replicate (c.s_same * 256) 0
  pub first : c.next_slot ≡ 0

pub init_parts :
    (c : Cache)
    → 0 < c.s_near
    → 0 < c.s_same
    → HasArrays c
    → init_cache c ≡ record c {
      near_array = replicate c.s_near 0;
      next_slot = 0;
      same_array = replicate (c.s_same * 256) 0;
    }
unfolding init_cache
init_parts c hn hs h =
    let near : ltb 0 c.s_near ≡ true = ground arith in
    let same : ltb 0 c.s_same ≡ true = ground arith in
    rw
      (
        near,
        same,
        clear_all c.s_near c.near_array h.near_len,
        clear_all (c.s_same * 256) c.same_array h.same_len,
      )
      refl

-- Of arrays that have the lengths that the code table asks for, whatever is in them, xd3_init_cache
-- makes a well-formed cache in which every address is 0 and the first near slot is next, if the code
-- table has near and same addresses.
pub init_cache-IsCleared :
    (c : Cache) → 0 < c.s_near → 0 < c.s_same → HasArrays c → IsCleared (init_cache c)
init_cache-IsCleared c hn hs h = rw (init_parts c hn hs h) (record {
  cache = record {
    near_len = length-replicate {A = ℕ} c.s_near 0;
    same_len = length-replicate {A = ℕ} (c.s_same * 256) 0;
    same_some = hs;
    slot = hn;
    near_words = AreWords-replicate c.s_near;
    same_words = AreWords-replicate (c.s_same * 256);
  };
  near = refl;
  same = refl;
  first = refl;
})

-- Inside an array the read finds what is there.
pub element-get_or : (xs : List ℕ) (i : ℕ) → i < length xs → element xs i ≡ ok (get_or xs i 0)
unfolding element
element-get_or [] i h = absurd (omega arith)
element-get_or (x ∷ xs) zero h = refl
element-get_or (x ∷ xs) (suc i) h = element-get_or xs i (omega arith)
