-- ===== src/Decoder/Retained.antt =====
-- What each header state of xd3_decode_input leaves alone of the stream.
use swift_xdelta.Prelude.{ltb, ℕ}
use swift_xdelta.Decoder.{Stream, when, size}
use swift_xdelta.Decoder.Header.{
  step_vchead, step_hdrind, step_secondid, step_tablen, step_near, step_same, step_tabdat,
  step_applen, step_appdat, step_winind, secondary, table_length, near_modes, same_modes,
  alloc_array, alloc_cache, appheader_size, appheader_buffer, appheader_ready, appheader_bytes,
  init_window, has_bit, srcortgt,
}
use swift_xdelta.Decoder.Lengths.{
  step_cpylen, step_cpyoff, step_enclen, step_tgtlen, step_delind, step_datalen, step_instlen,
  step_addrlen, copy_length, copy_offset, window_cksum,
}
use swift_xdelta.Decoder.Retaining.{
  kept_target, kept_place, kept_all, state_of, Retains, if-Retains, retaining_rules,
}

array-Retains : (modes : Stream → ℕ) → Retains kept_target (alloc_array modes)
unfolding alloc_array
array-Retains modes =
    if-Retains kept_target _ _ (λ s. ltb 0 (modes s)) (search retaining_rules)
      (search (retaining_rules))

pub step_vchead_target : Retains kept_target step_vchead
unfolding step_vchead
step_vchead_target = search (retaining_rules) depth 14

pub step_hdrind_target : Retains kept_target step_hdrind
unfolding step_hdrind
step_hdrind_target = search (retaining_rules) depth 14

pub step_secondid_target : Retains kept_target step_secondid
unfolding step_secondid secondary
step_secondid_target = search (retaining_rules) depth 14

pub step_tablen_target : Retains kept_target step_tablen
unfolding step_tablen table_length
step_tablen_target = search (retaining_rules) depth 14

pub step_near_target : Retains kept_target step_near
unfolding step_near near_modes
step_near_target = search (retaining_rules) depth 14

pub step_same_target : Retains kept_target step_same
unfolding step_same same_modes
step_same_target = search (retaining_rules) depth 14

pub step_tabdat_target : Retains kept_target step_tabdat
unfolding step_tabdat alloc_cache
step_tabdat_target = search (retaining_rules, array-Retains) depth 14

pub step_applen_target : Retains kept_target step_applen
unfolding step_applen appheader_size
step_applen_target = search (retaining_rules) depth 14

pub step_appdat_target : Retains kept_target step_appdat
unfolding step_appdat appheader_bytes appheader_ready appheader_buffer
step_appdat_target = search (retaining_rules) depth 14

pub step_winind_target : Retains kept_target step_winind
unfolding step_winind init_window
step_winind_target = search (retaining_rules) depth 14

pub step_cpylen_target : Retains kept_target step_cpylen
unfolding step_cpylen copy_length
step_cpylen_target = search (retaining_rules) depth 14

pub step_tgtlen_place : Retains kept_place step_tgtlen
unfolding step_tgtlen
step_tgtlen_place = search retaining_rules depth 14

pub step_cpyoff_all : Retains kept_all step_cpyoff
unfolding step_cpyoff copy_offset
step_cpyoff_all = search retaining_rules depth 14

pub step_enclen_all : Retains kept_all step_enclen
unfolding step_enclen
step_enclen_all = search retaining_rules depth 14

pub step_delind_all : Retains kept_all step_delind
unfolding step_delind
step_delind_all = search retaining_rules depth 14

pub step_datalen_all : Retains kept_all step_datalen
unfolding step_datalen
step_datalen_all = search retaining_rules depth 14

pub step_instlen_all : Retains kept_all step_instlen
unfolding step_instlen
step_instlen_all = search retaining_rules depth 14

pub step_addrlen_all : Retains kept_all step_addrlen
unfolding step_addrlen
step_addrlen_all = search retaining_rules depth 14

pub cpylen_part_kept_target : Retains kept_target (when (λ s. srcortgt s.win_ind) copy_length)
unfolding copy_length
cpylen_part_kept_target = search retaining_rules depth 14

pub cpylen_part_state_of : Retains state_of (when (λ s. srcortgt s.win_ind) copy_length)
unfolding copy_length
cpylen_part_state_of = search retaining_rules depth 14

pub cksum_part_kept_all : Retains kept_all (when (λ s. has_bit s.win_ind 4) window_cksum)
unfolding window_cksum
cksum_part_kept_all = search retaining_rules depth 14

pub cksum_part_state_of : Retains state_of (when (λ s. has_bit s.win_ind 4) window_cksum)
unfolding window_cksum
cksum_part_state_of = search retaining_rules depth 14

pub size_kept_all : Retains kept_all (size)
size_kept_all = search retaining_rules depth 14

pub size_state_of : Retains state_of (size)
size_state_of = search retaining_rules depth 14
