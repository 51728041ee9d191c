-- ===== src/Decoder/Steps.antt =====
-- Every header state of xd3_decode_input goes on where it stopped.
use swift_xdelta.Prelude.{ℕ, ◌≡◌, refl, ap, Bool, List, ltb, Bool-cases, inl, inr, ◌==◌}
use swift_xdelta.Integer.{uint32, uint64}
use swift_xdelta.Decoder.{Stream, M, when, bytes, size, offset}
use swift_xdelta.Decoder.Header.{
  has_bit, srcortgt, step_vchead, step_hdrind, step_secondid, step_tablen, step_near, step_same,
  step_tabdat, step_applen, step_winind, secondary, alloc_array, alloc_cache,
}
use swift_xdelta.Decoder.Lengths.{
  step_cpylen, step_cpyoff, step_enclen, step_tgtlen, step_delind, step_datalen, step_instlen,
  step_addrlen, step_cksum, copy_length, window_cksum, header_done,
}
use swift_xdelta.Decoder.Resume.{
  feed, Asks, AsksOf, resume_of, IsPlain, IsResumable, modify-IsPlain, fail_if-IsPlain,
  return-IsPlain, bind-IsPlain, then-IsPlain, when-IsPlain, alloc-IsPlain, bind-IsResumable,
  then-IsResumable, plain-IsResumable, when-IsResumable,
}
use swift_xdelta.Decoder.Readers.{byte-IsResumable, IsBuffer, bytes-IsResumable}
use swift_xdelta.Decoder.Numbers.{IsPart, integer-IsResumable}

pub ruleset plain_rules = (
  modify-IsPlain, fail_if-IsPlain, return-IsPlain, bind-IsPlain, then-IsPlain, when-IsPlain,
  alloc-IsPlain,
)

part64-IsPart : IsPart (λ s. s.part64) (λ p s. record s { part64 = p })
part64-IsPart = record {
  get_feed = λ ys s. refl;
  put_feed = λ ys p i s. refl;
  get_again = λ ys p i s. refl;
  put_again = λ ys p q i j s. refl;
  inp_again = λ ys p i s. refl;
  asks = λ p i s e. record { taken = e; state = refl; hdr_ind = refl; win_ind = refl };
}

part32-IsPart : IsPart (λ s. s.part32) (λ p s. record s { part32 = p })
part32-IsPart = record {
  get_feed = λ ys s. refl;
  put_feed = λ ys p i s. refl;
  get_again = λ ys p i s. refl;
  put_again = λ ys p q i j s. refl;
  inp_again = λ ys p i s. refl;
  asks = λ p i s e. record { taken = e; state = refl; hdr_ind = refl; win_ind = refl };
}

pub size-IsResumable : IsResumable size
unfolding size
size-IsResumable = integer-IsResumable uint64 _ _ part64-IsPart

pub offset-IsResumable : IsResumable offset
unfolding offset
offset-IsResumable = integer-IsResumable uint32 _ _ part32-IsPart

magic-IsBuffer : IsBuffer (λ s. s.magic) (λ b s. record s { magic = b }) (λ s. 4)
magic-IsBuffer = record {
  get_feed = λ ys s. refl;
  size_feed = λ ys s. refl;
  put_feed = λ ys b i s. refl;
  get_again = λ ys b i s. refl;
  size_again = λ ys b i s. refl;
  put_again = λ ys b c i j s. refl;
  inp_again = λ ys b i s. refl;
  asks = λ b i s e. record { taken = e; state = refl; hdr_ind = refl; win_ind = refl };
}

cksum-IsBuffer : IsBuffer (λ s. s.cksum) (λ b s. record s { cksum = b }) (λ s. 4)
cksum-IsBuffer = record {
  get_feed = λ ys s. refl;
  size_feed = λ ys s. refl;
  put_feed = λ ys b i s. refl;
  get_again = λ ys b i s. refl;
  size_again = λ ys b i s. refl;
  put_again = λ ys b c i j s. refl;
  inp_again = λ ys b i s. refl;
  asks = λ b i s e. record { taken = e; state = refl; hdr_ind = refl; win_ind = refl };
}

pub appheader-IsBuffer :
    IsBuffer (λ s. s.appheader) (λ b s. record s { appheader = b }) (λ s. s.appheadsz)
appheader-IsBuffer = record {
  get_feed = λ ys s. refl;
  size_feed = λ ys s. refl;
  put_feed = λ ys b i s. refl;
  get_again = λ ys b i s. refl;
  size_again = λ ys b i s. refl;
  put_again = λ ys b c i j s. refl;
  inp_again = λ ys b i s. refl;
  asks = λ b i s e. record { taken = e; state = refl; hdr_ind = refl; win_ind = refl };
}

magic-IsResumable : IsResumable (bytes (λ s. s.magic) (λ b s. record s { magic = b }) (λ s. 4))
magic-IsResumable = bytes-IsResumable _ _ _ magic-IsBuffer

cksum-IsResumable : IsResumable (bytes (λ s. s.cksum) (λ b s. record s { cksum = b }) (λ s. 4))
cksum-IsResumable = bytes-IsResumable _ _ _ cksum-IsBuffer

-- A condition on an indicator, the same when the part is run again.
pub on_hdr_ind :
    (t : ℕ → Bool) (m : M (Unit {0})) → IsResumable m → IsResumable (when (λ s. t s.hdr_ind) m)
on_hdr_ind t m r = when-IsResumable (λ s. t s.hdr_ind) m (λ ys s. refl) (λ s s' a. ap t a.hdr_ind) r

on_win_ind :
    (t : ℕ → Bool) (m : M (Unit {0})) → IsResumable m → IsResumable (when (λ s. t s.win_ind) m)
on_win_ind t m r = when-IsResumable (λ s. t s.win_ind) m (λ ys s. refl) (λ s s' a. ap t a.win_ind) r

ruleset reading_rules = (
  bind-IsResumable, then-IsResumable, byte-IsResumable, size-IsResumable, offset-IsResumable,
  magic-IsResumable, cksum-IsResumable, modify-IsPlain, fail_if-IsPlain, return-IsPlain,
  bind-IsPlain, then-IsPlain, when-IsPlain, alloc-IsPlain,
)

pub step_vchead-IsResumable : IsResumable step_vchead
unfolding step_vchead
step_vchead-IsResumable = search reading_rules

pub step_hdrind-IsResumable : IsResumable step_hdrind
unfolding step_hdrind
step_hdrind-IsResumable = search reading_rules

secondary-IsResumable : IsResumable secondary
unfolding secondary
secondary-IsResumable = search reading_rules

pub step_secondid-IsResumable : IsResumable step_secondid
unfolding step_secondid
step_secondid-IsResumable = on_hdr_ind (λ x. has_bit x 1) _ (search reading_rules)

pub step_tablen-IsResumable : IsResumable step_tablen
unfolding step_tablen
step_tablen-IsResumable =
    then-IsResumable _ _ (on_hdr_ind (λ x. has_bit x 2) _ (search reading_rules))
      (search plain_rules)

pub step_near-IsResumable : IsResumable step_near
unfolding step_near
step_near-IsResumable =
    then-IsResumable _ _ (on_hdr_ind (λ x. has_bit x 2) _ (search reading_rules))
      (search plain_rules)

pub step_same-IsResumable : IsResumable step_same
unfolding step_same
step_same-IsResumable =
    then-IsResumable _ _ (on_hdr_ind (λ x. has_bit x 2) _ (search reading_rules))
      (search plain_rules)

pub step_applen-IsResumable : IsResumable step_applen
unfolding step_applen
step_applen-IsResumable =
    then-IsResumable _ _ (on_hdr_ind (λ x. has_bit x 4) _ (search reading_rules))
      (search plain_rules)

pub step_cpylen-IsResumable : IsResumable step_cpylen
unfolding step_cpylen
step_cpylen-IsResumable =
    then-IsResumable _ _ (on_win_ind srcortgt _ (search reading_rules)) (search plain_rules)

pub step_cpyoff-IsResumable : IsResumable step_cpyoff
unfolding step_cpyoff
step_cpyoff-IsResumable =
    then-IsResumable _ _ (on_win_ind srcortgt _ (search reading_rules)) (search plain_rules)

pub step_winind-IsResumable : IsResumable step_winind
unfolding step_winind
step_winind-IsResumable = search reading_rules depth 14

pub step_enclen-IsResumable : IsResumable step_enclen
unfolding step_enclen
step_enclen-IsResumable = search reading_rules

pub step_tgtlen-IsResumable : IsResumable step_tgtlen
unfolding step_tgtlen
step_tgtlen-IsResumable = search reading_rules

pub step_delind-IsResumable : IsResumable step_delind
unfolding step_delind
step_delind-IsResumable = search reading_rules

pub step_datalen-IsResumable : IsResumable step_datalen
unfolding step_datalen
step_datalen-IsResumable = search reading_rules

pub step_instlen-IsResumable : IsResumable step_instlen
unfolding step_instlen
step_instlen-IsResumable = search reading_rules

pub step_addrlen-IsResumable : IsResumable step_addrlen
unfolding step_addrlen
step_addrlen-IsResumable = search reading_rules

alloc_array-IsPlain :
    (modes : Stream → ℕ)
    → ((ys : List ℕ) (s : Stream) → modes (feed ys s) ≡ modes s)
    → IsPlain (alloc_array modes)
unfolding alloc_array
alloc_array-IsPlain modes h =
    when-IsPlain (λ s. ltb 0 (modes s)) _ (λ ys s. ap (ltb 0) (h ys s)) (search plain_rules)

pub step_tabdat-IsResumable : IsResumable step_tabdat
unfolding step_tabdat alloc_cache
step_tabdat-IsResumable = plain-IsResumable _ (search (plain_rules, alloc_array-IsPlain) depth 12)

header_done-IsPlain : IsPlain header_done
unfolding header_done
header_done-IsPlain = record {
  same = λ ys s. refl;
  asks_not =
      λ s. elim (Bool-cases (s.current_window == 0)) [ inl t ↦ rw t refl | inr t ↦ rw t refl ];
}

-- The parts that read the copy length and the checksum.
pub cpylen_part-IsResumable : IsResumable (when (λ s. srcortgt s.win_ind) copy_length)
unfolding copy_length
cpylen_part-IsResumable = on_win_ind srcortgt _ (search reading_rules)

pub cksum_part-IsResumable : IsResumable (when (λ s. has_bit s.win_ind 4) window_cksum)
unfolding window_cksum
cksum_part-IsResumable = on_win_ind (λ x. has_bit x 4) window_cksum (search reading_rules)

-- The checksum is read last.
pub step_cksum-IsResumable : IsResumable step_cksum
unfolding step_cksum
step_cksum-IsResumable =
    then-IsResumable _ _ (on_win_ind (λ x. has_bit x 4) window_cksum (search reading_rules))
      (search (plain_rules, header_done-IsPlain) depth 12)
