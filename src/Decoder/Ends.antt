-- ===== src/Decoder/Ends.antt =====
-- The header states of xd3_decode_input that set what a window needs: its position, the bound of its
-- length, and the header's end.
use swift_xdelta.Prelude.{
  ℕ, ◌+◌, ◌%◌, ◌≡◌, refl, ◌∙◌, arith, ◌==◌, ◌-◌, ltb, Bool, true, false, inl, inr, Bool-cases,
  if◌then◌else◌, invalid_input,
}
use swift_xdelta.AddrCache.{usize_mod}
use swift_xdelta.Window.Setup.{hardmaxwinsize}
use swift_xdelta.Decoder.{State, Stream, Outcome, done, stop, M, then_do, ◌>>◌, modify, fail_if}
use swift_xdelta.Decoder.Lengths.{step_cpylen, step_tgtlen, step_cksum, header_done}
use swift_xdelta.Decoder.Steps.{size-IsResumable, cpylen_part-IsResumable, cksum_part-IsResumable}
use swift_xdelta.Decoder.Leads.{LeadsOf}
use swift_xdelta.Decoder.Entry.{is_header}
use swift_xdelta.Decoder.Retaining.{RetainedOf, state_of}
use swift_xdelta.Decoder.Retained.{
  cpylen_part_kept_target, cpylen_part_state_of, cksum_part_kept_all, cksum_part_state_of,
  size_kept_all, size_state_of,
}
use swift_xdelta.Decoder.Awaiting.{
  At, HeaderOf, CarriedOf, Awaits, At-IsAwaiting, IsBase-kept, carried-HeaderOf, target-CarriedOf,
  all-CarriedOf,
}

state-LeadsOf {ℓ} :
    {A : Type ℓ} (σ τ : State) (r : Outcome A) → RetainedOf state_of σ r → σ ≡ τ → LeadsOf τ r
state-LeadsOf σ τ (done a t) h e = h ∙ e
state-LeadsOf σ τ (stop x t) h e = tt

carried-CarriedOf {ℓ κ} :
    {A : Type ℓ} {B : Type κ} (p q : Stream → Type 0) (f : A → M B) (r : Outcome A)
    → CarriedOf p p r
    → ((a : A) (t : Stream) → p t → CarriedOf p q (f a t))
    → CarriedOf p q (then_do f r)
carried-CarriedOf p q f (done a t) h n = n a t h
carried-CarriedOf p q f (stop e t) h n = h

-- DEC_CKSUM: the bytes, and then the check of the window's length.
cksum_end-HeaderOf :
    (s : Stream) (bad : Bool)
    → At State.sect_data true s
    → HeaderOf (then_do {0, 0} (λ a. header_done) (if bad then stop invalid_input s else done tt s))
unfolding HeaderOf header_done
cksum_end-HeaderOf s true h = tt
cksum_end-HeaderOf s false h = elim (Bool-cases (s.current_window == 0)) [
  | inl first ↦ rw first h
  | inr later ↦ rw later h
]

pub cksum-Awaits : Awaits (At State.cksum true) step_cksum
unfolding step_cksum is_header
cksum-Awaits = record {
  awaits = λ s a.
      carried-HeaderOf (At State.cksum true) (At State.cksum true) _ _
        (all-CarriedOf State.cksum State.cksum s _ a (cksum_part_kept_all.retained s)
          (cksum_part-IsResumable.asks s)
          (state-LeadsOf s.state State.cksum _ (cksum_part_state_of.retained s) a.state))
        (λ t. At-IsAwaiting State.cksum true t refl refl)
        (λ u t b.
          cksum_end-HeaderOf (record t { state = State.sect_data }) _
            (record {
              state = refl;
              base = IsBase-kept t (record t { state = State.sect_data }) b.base refl;
              place = b.place;
            }));
}

-- DEC_CPYLEN: the position is set behind the copy window.
pub cpylen-CarriedOf :
    (s : Stream)
    → At State.cpylen false s
    → CarriedOf (At State.cpylen false) (At State.cpyoff true) (step_cpylen s)
unfolding step_cpylen
cpylen-CarriedOf s a =
    carried-CarriedOf (At State.cpylen false) (At State.cpyoff true) _ _
      (target-CarriedOf State.cpylen State.cpylen s _ a (cpylen_part_kept_target.retained s)
        (cpylen_part-IsResumable.asks s)
        (state-LeadsOf s.state State.cpylen _ (cpylen_part_state_of.retained s) a.state))
      (λ u t b. record { state = refl; base = IsBase-kept t _ b.base refl; place = λ f. refl })

-- DEC_TGTLEN: the target's length is bounded.
tgtlen_end-CarriedOf :
    (v : ℕ) (s : Stream)
    → At State.tgtlen true s
    → CarriedOf (At State.tgtlen true) (At State.delind true) (
        (modify (λ s. record s { tgtlen = v; state = State.delind })
            >> (fail_if (λ s. ltb (usize_mod - 1 - s.cpylen) s.tgtlen) invalid_input
                >> (fail_if (λ s. ltb hardmaxwinsize s.tgtlen) invalid_input
                    >> modify (λ s. record s { maxpos = (s.cpylen + s.tgtlen) % usize_mod }))))
          s)
tgtlen_end-CarriedOf v s a = elim (Bool-cases (ltb (usize_mod - 1 - s.cpylen) v)) [
  | inl over ↦ rw over (refl, λ i. absurd (cc))
  | inr fits ↦ rw fits (elim (Bool-cases (ltb hardmaxwinsize v)) [
    | inl large ↦ rw large (refl, λ i. absurd (cc))
    | inr small ↦ rw small (record {
      state = refl;
      base = record {
        source = a.base.source;
        block = a.base.block;
        buffer = a.base.buffer;
        nothing = a.base.nothing;
        idle = a.base.idle;
        target = ground arith;
      };
      place = λ f. a.place refl;
    })
  ])
]

pub tgtlen-CarriedOf :
    (s : Stream)
    → At State.tgtlen true s
    → CarriedOf (At State.tgtlen true) (At State.delind true) (step_tgtlen s)
unfolding step_tgtlen
tgtlen-CarriedOf s a =
    carried-CarriedOf (At State.tgtlen true) (At State.delind true) _ _
      (all-CarriedOf State.tgtlen State.tgtlen s _ a (size_kept_all.retained s)
        (size-IsResumable.asks s)
        (state-LeadsOf s.state State.tgtlen _ (size_state_of.retained s) a.state))
      (λ v t b. tgtlen_end-CarriedOf v t b)
