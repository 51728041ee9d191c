-- ===== src/Adler/Runs.antt =====
-- Runs of the checksum.
use swift_xdelta.Prelude.{◌≡◌, refl, arith, [], ◌∷◌}
use swift_xdelta.Adler.{adler32}
use swift_xdelta.Adler.Sums.{rfc_sums, packed, adler32-rfc_sums}

-- "abc"
adler32_run : adler32 1 (97 ∷ 98 ∷ 99 ∷ []) ≡ 38600999
unfolding adler32
adler32_run = refl

adler32-rfc_sums_example :
    adler32 (packed (1, 0)) (97 ∷ 98 ∷ 99 ∷ []) ≡ packed (rfc_sums (1, 0) (97 ∷ 98 ∷ 99 ∷ []))
adler32-rfc_sums_example =
    adler32-rfc_sums 1 0 (97 ∷ 98 ∷ 99 ∷ []) (omega arith) (omega arith)
      (omega arith, (omega arith, (omega arith, tt)))
