-- ===== src/Decoder/Reading.antt =====
-- The sections of a window leave alone what xd3_decode_emit needs of it, wherever their input ends.
use swift_xdelta.Prelude.{ℕ, ◌≡◌, refl, Bool, true, not, ◌==◌, List, inl, inr, Bool-cases}
use swift_xdelta.Decoder.{State, Stream, Desect, modify}
use swift_xdelta.Decoder.Sections.{
  Slot, data_slot, inst_slot, addr_slot, new_copy, allocate, consume, take_direct, sect_take,
  take_copy, take_input, decode_section, finish_window, from_addr, from_inst, from_data,
  sections_case, skip_body,
}
use swift_xdelta.Decoder.Keeping.{
  skips, view, reads, KeptOf, Keeps, reads-LateOf, modify-Keeps, goto-Keeps, return-Keeps,
  fail_if-Keeps, alloc-Keeps, bind-Keeps, then-Keeps, choose-Keeps, when-Keeps,
}
use swift_xdelta.Decoder.Leads.{Leads, leading_rules}

ruleset keeping_rules = (
  modify-Keeps, goto-Keeps, return-Keeps, fail_if-Keeps, alloc-Keeps, bind-Keeps, then-Keeps,
  choose-Keeps, when-Keeps,
)

record IsPlace (x : Slot) : Type 0 where
  put_view : (d : Desect) (s : Stream) → view (x.put d s) ≡ view s
  put_state : (d : Desect) (s : Stream) → (x.put d s).state ≡ s.state

data-IsPlace : IsPlace data_slot
data-IsPlace = record { put_view = λ d s. refl; put_state = λ d s. refl }

inst-IsPlace : IsPlace inst_slot
inst-IsPlace = record { put_view = λ d s. refl; put_state = λ d s. refl }

addr-IsPlace : IsPlace addr_slot
addr-IsPlace = record { put_view = λ d s. refl; put_state = λ d s. refl }

module _ (x : Slot) (p : IsPlace x) where
  allocate-Keeps : Keeps (allocate x)
  unfolding allocate new_copy
  allocate-Keeps = search (keeping_rules, p.put_view, p.put_state) depth 12

  consume-Keeps :
      (n : Stream → ℕ) (buf : Stream → List ℕ) → Keeps (modify (λ s. consume x (n s) (buf s) s))
  unfolding consume
  consume-Keeps n buf = modify-Keeps _ (λ s. p.put_view _ s) (λ s. p.put_state _ s)

  take_input-Keeps : (copy : Bool) → Keeps (take_input x copy)
  unfolding take_input take_direct take_copy sect_take
  take_input-Keeps copy = search (keeping_rules, allocate-Keeps, consume-Keeps) depth 12

  section-Keeps :
      (nstate : State) (copy : Bool) → reads nstate ≡ true → Keeps (decode_section x nstate copy)
  unfolding decode_section
  section-Keeps nstate copy h =
      search (keeping_rules, p.put_view, p.put_state, take_input-Keeps, h) depth 12

from_addr-Keeps : (copy : Bool) → Keeps (from_addr copy)
unfolding from_addr
from_addr-Keeps copy = section-Keeps addr_slot addr-IsPlace State.emit copy refl

from_inst-Keeps : (copy : Bool) → Keeps (from_inst copy)
unfolding from_inst
from_inst-Keeps copy =
    then-Keeps _ _ (section-Keeps inst_slot inst-IsPlace State.sect_addr copy refl)
      (from_addr-Keeps copy)

from_data-Keeps : (copy : Bool) → Keeps (from_data copy)
unfolding from_data
from_data-Keeps copy =
    then-Keeps _ _ (section-Keeps data_slot data-IsPlace State.sect_inst copy refl)
      (from_inst-Keeps copy)

pub case-Keeps : (copy : Bool) (σ : State) → Keeps (sections_case copy σ)
unfolding sections_case
case-Keeps copy State.sect_data = from_data-Keeps copy
case-Keeps copy State.sect_inst = from_inst-Keeps copy
case-Keeps copy State.sect_addr = from_addr-Keeps copy
case-Keeps copy other = return-Keeps _

pub skip_body-KeptOf :
    (want n : ℕ) (s : Stream)
    → reads s.state ≡ true
    → skips s ≡ true
    → KeptOf (skip_body want n s) (view s)
unfolding skip_body finish_window
skip_body-KeptOf want n s h k = elim (Bool-cases (not (n == want))) [
  | inl more ↦ rw more (refl, reads-LateOf s.state (skips s) h)
  | inr all ↦ rw all (refl, k)
]

from_addr-Leads : (copy : Bool) → Leads State.emit (from_addr copy)
unfolding from_addr decode_section
from_addr-Leads copy = search leading_rules depth 12

from_inst-Leads : (copy : Bool) → Leads State.emit (from_inst copy)
unfolding from_inst
from_inst-Leads copy = search (leading_rules, from_addr-Leads) depth 12

from_data-Leads : (copy : Bool) → Leads State.emit (from_data copy)
unfolding from_data
from_data-Leads copy = search (leading_rules, from_inst-Leads) depth 12

pub case-Leads : (copy : Bool) (σ : State) → Leads State.emit (sections_case copy σ)
unfolding sections_case
case-Leads copy State.sect_data = from_data-Leads copy
case-Leads copy State.sect_inst = from_inst-Leads copy
case-Leads copy State.sect_addr = from_addr-Leads copy
case-Leads copy other = search leading_rules
