-- ===== src/Decoder/Leads.antt =====
-- The state in which each header state of xd3_decode_input falls through.
use swift_xdelta.Prelude.{
  inl, inr, Bool-cases, ◌||◌, ◌==◌, internal, invalid_input, ℕ, ◌≡◌, refl, sym, ap, ◌∙◌, Bool, true,
  false, if◌then◌else◌, Rvalue,
}
use swift_xdelta.Decoder.{
  State, Stream, Outcome, done, stop, M, then_do, ◌>>=◌, ◌>>◌, modify, fail_if, return_, when, byte,
}
use swift_xdelta.Decoder.Header.{
  has_bit, step_vchead, step_hdrind, step_secondid, step_tablen, step_near, step_same, step_tabdat,
  step_applen, step_appdat, step_winind, secondary,
}
use swift_xdelta.Decoder.Lengths.{
  step_cpylen, step_cpyoff, step_enclen, step_tgtlen, step_delind, step_datalen, step_instlen,
  step_addrlen,
}

abbrev pub LeadsOf {ℓ} : {A : Type ℓ} → State → Outcome A → Type 0
LeadsOf σ (done a s) = s.state ≡ σ
LeadsOf σ (stop e s) = Unit

-- A part that, where it goes on, goes on in state `σ`; and a part that does not change the state.
pub record Leads {ℓ} {A : Type ℓ} (σ : State) (m : M A) : Type 0 where
  pub leads : (s : Stream) → LeadsOf σ (m s)

pub record Stays {ℓ} {A : Type ℓ} (m : M A) : Type 0 where
  pub stays : (s : Stream) → LeadsOf s.state (m s)

pub modify-Leads :
    (σ : State) (f : Stream → Stream) → ((s : Stream) → (f s).state ≡ σ) → Leads σ (modify f)
modify-Leads σ f h = record { leads = h }

pub modify-Stays : (f : Stream → Stream) → ((s : Stream) → (f s).state ≡ s.state) → Stays (modify f)
modify-Stays f h = record { stays = h }

pub fail_if-Stays : (t : Stream → Bool) (e : Rvalue) → Stays (fail_if t e)
fail_if-Stays t e = record {
  stays = λ s. elim (Bool-cases (t s)) [ inl y ↦ rw y tt | inr n ↦ rw n refl ];
}

pub when-Stays : (t : Stream → Bool) (m : M (Unit {0})) → Stays m → Stays (when t m)
when-Stays t m k = record {
  stays = λ s. elim (Bool-cases (t s)) [ inl y ↦ rw y (k.stays s) | inr n ↦ rw n refl ];
}

late {ℓ κ} :
    {A : Type ℓ} {B : Type κ} (σ : State) (f : A → M B) (r : Outcome A)
    → ((a : A) → Leads σ (f a))
    → LeadsOf σ (then_do f r)
late σ f (done a s) h = (h a).leads s
late σ f (stop e s) h = tt

pub bind-Leads {ℓ κ} :
    {A : Type ℓ} {B : Type κ} (σ : State) (m : M A) (f : A → M B)
    → ((a : A) → Leads σ (f a))
    → Leads σ (m >>= f)
bind-Leads σ m f h = record { leads = λ s. late σ f (m s) h }

pub then-Leads {ℓ κ} :
    {A : Type ℓ} {B : Type κ} (σ : State) (m : M A) (k : M B) → Leads σ k → Leads σ (m >> k)
then-Leads σ m k h = record { leads = λ s. late σ (λ a. k) (m s) (λ a. h) }

pub return-Leads {ℓ} : {A : Type ℓ} (σ : State) (e : Rvalue) → Leads σ (return_ {A = A} e)
return-Leads σ e = record { leads = λ s. tt }

moved {κ} : {B : Type κ} (σ τ : State) (r : Outcome B) → σ ≡ τ → LeadsOf σ r → LeadsOf τ r
moved σ τ (done b t) e l = l ∙ e
moved σ τ (stop x t) e l = tt

now {ℓ κ} :
    {A : Type ℓ} {B : Type κ} (σ : State) (k : M B) (r : Outcome A)
    → LeadsOf σ r
    → Stays k
    → LeadsOf σ (then_do (λ a. k) r)
now σ k (done a s) l h = moved s.state σ (k s) l (h.stays s)
now σ k (stop e s) l h = tt

pub then-Leads-Stays {ℓ κ} :
    {A : Type ℓ} {B : Type κ} (σ : State) (m : M A) (k : M B)
    → Leads σ m
    → Stays k
    → Leads σ (m >> k)
then-Leads-Stays σ m k l h = record { leads = λ s. now σ k (m s) (l.leads s) h }

pub then-Stays {ℓ κ} :
    {A : Type ℓ} {B : Type κ} (m : M A) (k : M B) → Stays m → Stays k → Stays (m >> k)
then-Stays m k l h = record { stays = λ s. now s.state k (m s) (l.stays s) h }

pub ruleset leading_rules = (
  return-Leads, bind-Leads, then-Leads, modify-Leads, then-Leads-Stays, modify-Stays, fail_if-Stays,
  then-Stays, when-Stays,
)

pub vchead-Leads : Leads State.hdrind step_vchead
unfolding step_vchead
vchead-Leads = search leading_rules depth 12

pub hdrind-Leads : Leads State.secondid step_hdrind
unfolding step_hdrind
hdrind-Leads = search leading_rules depth 12

pub tablen-Leads : Leads State.near step_tablen
unfolding step_tablen
tablen-Leads = search leading_rules depth 12

pub near-Leads : Leads State.same step_near
unfolding step_near
near-Leads = search leading_rules depth 12

pub same-Leads : Leads State.tabdat step_same
unfolding step_same
same-Leads = search leading_rules depth 12

pub applen-Leads : Leads State.appdat step_applen
unfolding step_applen
applen-Leads = search leading_rules depth 12

pub appdat-Leads : Leads State.winind step_appdat
unfolding step_appdat
appdat-Leads = search leading_rules depth 12

pub tabdat-Leads : Leads State.applen step_tabdat
unfolding step_tabdat
tabdat-Leads = search leading_rules depth 12

pub winind-Leads : Leads State.cpylen step_winind
unfolding step_winind
winind-Leads = search leading_rules depth 12

pub cpylen-Leads : Leads State.cpyoff step_cpylen
unfolding step_cpylen
cpylen-Leads = search leading_rules depth 12

pub cpyoff-Leads : Leads State.enclen step_cpyoff
unfolding step_cpyoff
cpyoff-Leads = search leading_rules depth 12

pub enclen-Leads : Leads State.tgtlen step_enclen
unfolding step_enclen
enclen-Leads = search leading_rules depth 12

pub datalen-Leads : Leads State.instlen step_datalen
unfolding step_datalen
datalen-Leads = search leading_rules depth 12

pub instlen-Leads : Leads State.addrlen step_instlen
unfolding step_instlen
instlen-Leads = search leading_rules depth 12

pub addrlen-Leads : Leads State.cksum step_addrlen
unfolding step_addrlen
addrlen-Leads = search leading_rules depth 12

pub tgtlen-Leads : Leads State.delind step_tgtlen
unfolding step_tgtlen
tgtlen-Leads = search leading_rules depth 12

pub delind-Leads : Leads State.datalen step_delind
unfolding step_delind
delind-Leads = search leading_rules depth 12

abbrev pub stream_of {ℓ} : {A : Type ℓ} → Outcome A → Stream
stream_of (done a s) = s
stream_of (stop e s) = s

pub led :
    (τ : State) (t : Stream) (r : Outcome (Unit {0})) → LeadsOf τ r → r ≡ done tt t → t.state ≡ τ
led τ t (done a u) l e = sym (ap (λ r. (stream_of r).state) e) ∙ l
led τ t (stop x u) l e = cc

refused :
    (b : Bool) (u t : Stream)
    → ¬ (
        then_do {0, 0} {A = Unit {0}}
          (λ a. return_ {0} {A = Unit {0}} invalid_input)
          (if b then stop internal u else done tt u)
        ≡ done tt t)
refused true u t h = cc
refused false u t h = cc

secondary_stops : (s t : Stream) → ¬ (secondary s ≡ done tt t)
unfolding secondary
secondary_stops s t = ended (byte s)
  where
    ended :
        (r : Outcome ℕ)
        → ¬ (
            then_do
              (λ b.
                modify (λ s. record s { secondid = b; state = State.tablen })
                >> fail_if
                    (λ s. (s.secondid == 16) || (s.secondid == 1) || (s.secondid == 2))
                    internal
                >> return_ {0} {A = Unit {0}} invalid_input)
              r
            ≡ done tt t)
    ended (done b s') h = refused ((b == 16) || (b == 1) || (b == 2)) _ t h
    ended (stop x s') h = cc

-- Without the indicator's bit there is nothing to read, and the state stays; with it no compressor is
-- there.
pub secondid_stays :
    (s t : Stream)
    → step_secondid s ≡ done tt t
    → (t.state ≡ s.state) × (t.hdr_ind ≡ s.hdr_ind) × (has_bit s.hdr_ind 1 ≡ false)
unfolding step_secondid
secondid_stays s t e = branch (has_bit s.hdr_ind 1) e
  where
    branch :
        (b : Bool)
        → (if b then secondary s else done tt s) ≡ done tt t
        → (t.state ≡ s.state) × (t.hdr_ind ≡ s.hdr_ind) × (b ≡ false)
    branch true h = absurd (secondary_stops s t h)
    branch false h =
        (sym (ap (λ r. (stream_of r).state) h), sym (ap (λ r. (stream_of r).hdr_ind) h), refl)
