-- ===== src/Decoder/Taken.antt =====
-- Every call in the header of xd3_decode_input takes a front of its input.
use swift_xdelta.Prelude.{ℕ, ltb, ◌≡◌, true}
use swift_xdelta.Decoder.{State, Stream, M}
use swift_xdelta.Decoder.Header.{
  step_vchead, step_hdrind, step_secondid, step_tablen, step_near, step_same, step_tabdat,
  step_applen, step_appdat, step_winind, secondary, table_length, near_modes, same_modes,
  alloc_array, alloc_cache, appheader_size, appheader_buffer, appheader_ready, appheader_bytes,
  init_window,
}
use swift_xdelta.Decoder.Lengths.{
  step_cpylen, step_cpyoff, step_enclen, step_tgtlen, step_delind, step_datalen, step_instlen,
  step_addrlen, copy_length, copy_offset, step_cksum, window_cksum, header_done, header_case,
  decode_header, from_vchead, from_hdrind, from_secondid, from_tablen, from_near, from_same,
  from_tabdat, from_applen, from_appdat, from_winind, from_cpylen, from_cpyoff, from_enclen,
  from_tgtlen, from_delind, from_datalen, from_instlen, from_addrlen,
}
use swift_xdelta.Decoder.Entry.{is_header}
use swift_xdelta.Decoder.Taking.{
  none-Taken, TakenOf, Takes, done-Takes, if-Takes, then-Takes, taking_rules,
}

array-Takes : (modes : Stream → ℕ) → Takes (alloc_array modes)
unfolding alloc_array
array-Takes modes = if-Takes (λ s. ltb 0 (modes s)) _ _ (search taking_rules) done-Takes

header_done-Takes : Takes header_done
unfolding header_done
header_done-Takes = record { takes = λ s. none-Taken s.inp }

vchead-Takes : Takes step_vchead
unfolding step_vchead
vchead-Takes = search (taking_rules) depth 14

hdrind-Takes : Takes step_hdrind
unfolding step_hdrind
hdrind-Takes = search (taking_rules) depth 14

secondid-Takes : Takes step_secondid
unfolding step_secondid secondary
secondid-Takes = search (taking_rules) depth 14

tablen-Takes : Takes step_tablen
unfolding step_tablen table_length
tablen-Takes = search (taking_rules) depth 14

near-Takes : Takes step_near
unfolding step_near near_modes
near-Takes = search (taking_rules) depth 14

same-Takes : Takes step_same
unfolding step_same same_modes
same-Takes = search (taking_rules) depth 14

tabdat-Takes : Takes step_tabdat
unfolding step_tabdat alloc_cache
tabdat-Takes = search (taking_rules, array-Takes) depth 14

applen-Takes : Takes step_applen
unfolding step_applen appheader_size
applen-Takes = search (taking_rules) depth 14

appdat-Takes : Takes step_appdat
unfolding step_appdat appheader_bytes appheader_ready appheader_buffer
appdat-Takes = search (taking_rules) depth 14

winind-Takes : Takes step_winind
unfolding step_winind init_window
winind-Takes = search (taking_rules) depth 14

cpylen-Takes : Takes step_cpylen
unfolding step_cpylen copy_length
cpylen-Takes = search (taking_rules) depth 14

cpyoff-Takes : Takes step_cpyoff
unfolding step_cpyoff copy_offset
cpyoff-Takes = search (taking_rules) depth 14

enclen-Takes : Takes step_enclen
unfolding step_enclen
enclen-Takes = search (taking_rules) depth 14

tgtlen-Takes : Takes step_tgtlen
unfolding step_tgtlen
tgtlen-Takes = search (taking_rules) depth 14

delind-Takes : Takes step_delind
unfolding step_delind
delind-Takes = search (taking_rules) depth 14

datalen-Takes : Takes step_datalen
unfolding step_datalen
datalen-Takes = search (taking_rules) depth 14

instlen-Takes : Takes step_instlen
unfolding step_instlen
instlen-Takes = search (taking_rules) depth 14

addrlen-Takes : Takes step_addrlen
unfolding step_addrlen
addrlen-Takes = search (taking_rules) depth 14

cksum-Takes : Takes step_cksum
unfolding step_cksum window_cksum
cksum-Takes = search (taking_rules, header_done-Takes) depth 14

from_addrlen-Takes : Takes from_addrlen
unfolding from_addrlen
from_addrlen-Takes = then-Takes _ _ addrlen-Takes cksum-Takes

from_instlen-Takes : Takes from_instlen
unfolding from_instlen
from_instlen-Takes = then-Takes _ _ instlen-Takes from_addrlen-Takes

from_datalen-Takes : Takes from_datalen
unfolding from_datalen
from_datalen-Takes = then-Takes _ _ datalen-Takes from_instlen-Takes

from_delind-Takes : Takes from_delind
unfolding from_delind
from_delind-Takes = then-Takes _ _ delind-Takes from_datalen-Takes

from_tgtlen-Takes : Takes from_tgtlen
unfolding from_tgtlen
from_tgtlen-Takes = then-Takes _ _ tgtlen-Takes from_delind-Takes

from_enclen-Takes : Takes from_enclen
unfolding from_enclen
from_enclen-Takes = then-Takes _ _ enclen-Takes from_tgtlen-Takes

from_cpyoff-Takes : Takes from_cpyoff
unfolding from_cpyoff
from_cpyoff-Takes = then-Takes _ _ cpyoff-Takes from_enclen-Takes

from_cpylen-Takes : Takes from_cpylen
unfolding from_cpylen
from_cpylen-Takes = then-Takes _ _ cpylen-Takes from_cpyoff-Takes

from_winind-Takes : Takes from_winind
unfolding from_winind
from_winind-Takes = then-Takes _ _ winind-Takes from_cpylen-Takes

from_appdat-Takes : Takes from_appdat
unfolding from_appdat
from_appdat-Takes = then-Takes _ _ appdat-Takes from_winind-Takes

from_applen-Takes : Takes from_applen
unfolding from_applen
from_applen-Takes = then-Takes _ _ applen-Takes from_appdat-Takes

from_tabdat-Takes : Takes from_tabdat
unfolding from_tabdat
from_tabdat-Takes = then-Takes _ _ tabdat-Takes from_applen-Takes

from_same-Takes : Takes from_same
unfolding from_same
from_same-Takes = then-Takes _ _ same-Takes from_tabdat-Takes

from_near-Takes : Takes from_near
unfolding from_near
from_near-Takes = then-Takes _ _ near-Takes from_same-Takes

from_tablen-Takes : Takes from_tablen
unfolding from_tablen
from_tablen-Takes = then-Takes _ _ tablen-Takes from_near-Takes

from_secondid-Takes : Takes from_secondid
unfolding from_secondid
from_secondid-Takes = then-Takes _ _ secondid-Takes from_tablen-Takes

from_hdrind-Takes : Takes from_hdrind
unfolding from_hdrind
from_hdrind-Takes = then-Takes _ _ hdrind-Takes from_secondid-Takes

from_vchead-Takes : Takes from_vchead
unfolding from_vchead
from_vchead-Takes = then-Takes _ _ vchead-Takes from_hdrind-Takes

case-Takes : (after : M (Unit {0})) (σ : State) → is_header σ ≡ true → Takes (header_case after σ)
unfolding header_case is_header
case-Takes after State.vchead h = from_vchead-Takes
case-Takes after State.hdrind h = from_hdrind-Takes
case-Takes after State.secondid h = from_secondid-Takes
case-Takes after State.tablen h = from_tablen-Takes
case-Takes after State.near h = from_near-Takes
case-Takes after State.same h = from_same-Takes
case-Takes after State.tabdat h = from_tabdat-Takes
case-Takes after State.applen h = from_applen-Takes
case-Takes after State.appdat h = from_appdat-Takes
case-Takes after State.winind h = from_winind-Takes
case-Takes after State.cpylen h = from_cpylen-Takes
case-Takes after State.cpyoff h = from_cpyoff-Takes
case-Takes after State.enclen h = from_enclen-Takes
case-Takes after State.tgtlen h = from_tgtlen-Takes
case-Takes after State.delind h = from_delind-Takes
case-Takes after State.datalen h = from_datalen-Takes
case-Takes after State.instlen h = from_instlen-Takes
case-Takes after State.addrlen h = from_addrlen-Takes
case-Takes after State.cksum h = cksum-Takes
case-Takes after other h = absurd (cc)

-- In a header state a call of xd3_decode_input, however it ends, has taken a front of its input byte by
-- byte and in order, the rest is still there, and `total_in` has counted each byte taken.
pub decode_header-TakenOf :
    (after : M (Unit {0})) (s : Stream)
    → is_header s.state ≡ true
    → TakenOf s.inp (decode_header after s)
unfolding decode_header
decode_header-TakenOf after s h = (case-Takes after s.state h).takes s
