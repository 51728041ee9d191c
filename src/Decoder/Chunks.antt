-- ===== src/Decoder/Chunks.antt =====
-- xdelta3/xdelta3-decode.h: every header case of xd3_decode_input goes on in the next call where it
-- stopped.
use swift_xdelta.Prelude.{◌≡◌, refl, ap, ◌∙◌, true, false, if◌then◌else◌}
use swift_xdelta.Decoder.{State, Stream, done, M, then_do}
use swift_xdelta.Decoder.Header.{
  has_bit, step_vchead, step_hdrind, step_secondid, step_tablen, step_near, step_same, step_tabdat,
  step_applen, step_appdat, step_winind, secondary,
}
use swift_xdelta.Decoder.Lengths.{
  step_cpylen, step_cpyoff, step_enclen, step_tgtlen, step_delind, step_datalen, step_instlen,
  step_addrlen, step_cksum, from_vchead, from_hdrind, from_secondid, from_tablen, from_near,
  from_same, from_tabdat, from_applen, from_appdat, from_winind, from_cpylen, from_cpyoff,
  from_enclen, from_tgtlen, from_delind, from_datalen, from_instlen, from_addrlen, header_case,
  decode_header,
}
use swift_xdelta.Decoder.Steps.{
  step_vchead-IsResumable, step_hdrind-IsResumable, step_secondid-IsResumable,
  step_tablen-IsResumable, step_near-IsResumable, step_same-IsResumable, step_tabdat-IsResumable,
  step_applen-IsResumable, step_winind-IsResumable, step_cpylen-IsResumable,
  step_cpyoff-IsResumable, step_enclen-IsResumable, step_tgtlen-IsResumable,
  step_delind-IsResumable, step_datalen-IsResumable, step_instlen-IsResumable,
  step_addrlen-IsResumable, step_cksum-IsResumable,
}
use swift_xdelta.Decoder.AppHeader.{step_appdat-IsResumable}
use swift_xdelta.Decoder.Leads.{
  led, vchead-Leads, hdrind-Leads, tablen-Leads, near-Leads, same-Leads, tabdat-Leads, applen-Leads,
  appdat-Leads, winind-Leads, cpylen-Leads, cpyoff-Leads, enclen-Leads, tgtlen-Leads, delind-Leads,
  datalen-Leads, instlen-Leads, addrlen-Leads, secondid_stays,
}
use swift_xdelta.Decoder.Entry.{
  is_header, Here, IsEntry, last-IsEntry, bind-IsEntry, case-Here, step-IsEntry,
}

module _ (after : M (Unit {0})) where
  cksum-IsEntry : (s : Stream) → s.state ≡ State.cksum → IsEntry after step_cksum s
  unfolding header_case is_header
  cksum-IsEntry s e =
      last-IsEntry after step_cksum s step_cksum-IsResumable (case-Here after State.cksum s refl e)

  addrlen-IsEntry : (s : Stream) → s.state ≡ State.addrlen → IsEntry after from_addrlen s
  unfolding header_case is_header from_addrlen
  addrlen-IsEntry =
      step-IsEntry after State.addrlen State.cksum step_addrlen step_cksum step_addrlen-IsResumable
        addrlen-Leads (λ s e. case-Here after State.addrlen s refl e) cksum-IsEntry

  instlen-IsEntry : (s : Stream) → s.state ≡ State.instlen → IsEntry after from_instlen s
  unfolding header_case is_header from_instlen
  instlen-IsEntry =
      step-IsEntry after State.instlen State.addrlen step_instlen from_addrlen
        step_instlen-IsResumable instlen-Leads (λ s e. case-Here after State.instlen s refl e)
        addrlen-IsEntry

  datalen-IsEntry : (s : Stream) → s.state ≡ State.datalen → IsEntry after from_datalen s
  unfolding header_case is_header from_datalen
  datalen-IsEntry =
      step-IsEntry after State.datalen State.instlen step_datalen from_instlen
        step_datalen-IsResumable datalen-Leads (λ s e. case-Here after State.datalen s refl e)
        instlen-IsEntry

  delind-IsEntry : (s : Stream) → s.state ≡ State.delind → IsEntry after from_delind s
  unfolding header_case is_header from_delind
  delind-IsEntry =
      step-IsEntry after State.delind State.datalen step_delind from_datalen step_delind-IsResumable
        delind-Leads (λ s e. case-Here after State.delind s refl e) datalen-IsEntry

  tgtlen-IsEntry : (s : Stream) → s.state ≡ State.tgtlen → IsEntry after from_tgtlen s
  unfolding header_case is_header from_tgtlen
  tgtlen-IsEntry =
      step-IsEntry after State.tgtlen State.delind step_tgtlen from_delind step_tgtlen-IsResumable
        tgtlen-Leads (λ s e. case-Here after State.tgtlen s refl e) delind-IsEntry

  enclen-IsEntry : (s : Stream) → s.state ≡ State.enclen → IsEntry after from_enclen s
  unfolding header_case is_header from_enclen
  enclen-IsEntry =
      step-IsEntry after State.enclen State.tgtlen step_enclen from_tgtlen step_enclen-IsResumable
        enclen-Leads (λ s e. case-Here after State.enclen s refl e) tgtlen-IsEntry

  cpyoff-IsEntry : (s : Stream) → s.state ≡ State.cpyoff → IsEntry after from_cpyoff s
  unfolding header_case is_header from_cpyoff
  cpyoff-IsEntry =
      step-IsEntry after State.cpyoff State.enclen step_cpyoff from_enclen step_cpyoff-IsResumable
        cpyoff-Leads (λ s e. case-Here after State.cpyoff s refl e) enclen-IsEntry

  cpylen-IsEntry : (s : Stream) → s.state ≡ State.cpylen → IsEntry after from_cpylen s
  unfolding header_case is_header from_cpylen
  cpylen-IsEntry =
      step-IsEntry after State.cpylen State.cpyoff step_cpylen from_cpyoff step_cpylen-IsResumable
        cpylen-Leads (λ s e. case-Here after State.cpylen s refl e) cpyoff-IsEntry

  winind-IsEntry : (s : Stream) → s.state ≡ State.winind → IsEntry after from_winind s
  unfolding header_case is_header from_winind
  winind-IsEntry =
      step-IsEntry after State.winind State.cpylen step_winind from_cpylen step_winind-IsResumable
        winind-Leads (λ s e. case-Here after State.winind s refl e) cpylen-IsEntry

  appdat-IsEntry : (s : Stream) → s.state ≡ State.appdat → IsEntry after from_appdat s
  unfolding header_case is_header from_appdat
  appdat-IsEntry =
      step-IsEntry after State.appdat State.winind step_appdat from_winind step_appdat-IsResumable
        appdat-Leads (λ s e. case-Here after State.appdat s refl e) winind-IsEntry

  applen-IsEntry : (s : Stream) → s.state ≡ State.applen → IsEntry after from_applen s
  unfolding header_case is_header from_applen
  applen-IsEntry =
      step-IsEntry after State.applen State.appdat step_applen from_appdat step_applen-IsResumable
        applen-Leads (λ s e. case-Here after State.applen s refl e) appdat-IsEntry

  tabdat-IsEntry : (s : Stream) → s.state ≡ State.tabdat → IsEntry after from_tabdat s
  unfolding header_case is_header from_tabdat
  tabdat-IsEntry =
      step-IsEntry after State.tabdat State.applen step_tabdat from_applen step_tabdat-IsResumable
        tabdat-Leads (λ s e. case-Here after State.tabdat s refl e) applen-IsEntry

  same-IsEntry : (s : Stream) → s.state ≡ State.same → IsEntry after from_same s
  unfolding header_case is_header from_same
  same-IsEntry =
      step-IsEntry after State.same State.tabdat step_same from_tabdat step_same-IsResumable
        same-Leads (λ s e. case-Here after State.same s refl e) tabdat-IsEntry

  near-IsEntry : (s : Stream) → s.state ≡ State.near → IsEntry after from_near s
  unfolding header_case is_header from_near
  near-IsEntry =
      step-IsEntry after State.near State.same step_near from_same step_near-IsResumable near-Leads
        (λ s e. case-Here after State.near s refl e) same-IsEntry

  tablen-IsEntry : (s : Stream) → s.state ≡ State.tablen → IsEntry after from_tablen s
  unfolding header_case is_header from_tablen
  tablen-IsEntry =
      step-IsEntry after State.tablen State.near step_tablen from_near step_tablen-IsResumable
        tablen-Leads (λ s e. case-Here after State.tablen s refl e) near-IsEntry

  -- Without an identifier, the function is past the case while the state is still the case's.
  unset-Here :
      (s t : Stream)
      → s.state ≡ State.secondid
      → step_secondid s ≡ done tt t
      → Here after from_tablen t
  unfolding decode_header header_case is_header from_secondid step_secondid
  unset-Here s t e d =
      let (st, ind, clear) = secondid_stays s t d in
      record {
        header = ap is_header (st ∙ e);
        here = λ u e1 e2.
            let off : has_bit u.hdr_ind 1 ≡ false = ap (λ x. has_bit x 1) (e2 ∙ ind) ∙ clear in
            ap (λ σ. header_case after σ u) (e1 ∙ st ∙ e)
            ∙ ap (λ b. then_do (λ a. from_tablen) (if b then secondary u else done tt u)) off;
      }

  secondid-IsEntry : (s : Stream) → s.state ≡ State.secondid → IsEntry after from_secondid s
  unfolding header_case is_header from_secondid from_tablen
  secondid-IsEntry s e =
      bind-IsEntry after step_secondid from_tablen s step_secondid-IsResumable
        (case-Here after State.secondid s refl e)
        (λ t d.
          bind-IsEntry after step_tablen from_near t step_tablen-IsResumable (unset-Here s t e d)
            (λ u d2. near-IsEntry u (led State.near u (step_tablen t) (tablen-Leads.leads t) d2)))

  hdrind-IsEntry : (s : Stream) → s.state ≡ State.hdrind → IsEntry after from_hdrind s
  unfolding header_case is_header from_hdrind
  hdrind-IsEntry =
      step-IsEntry after State.hdrind State.secondid step_hdrind from_secondid
        step_hdrind-IsResumable hdrind-Leads (λ s e. case-Here after State.hdrind s refl e)
        secondid-IsEntry

  vchead-IsEntry : (s : Stream) → s.state ≡ State.vchead → IsEntry after from_vchead s
  unfolding header_case is_header from_vchead
  vchead-IsEntry =
      step-IsEntry after State.vchead State.hdrind step_vchead from_hdrind step_vchead-IsResumable
        vchead-Leads (λ s e. case-Here after State.vchead s refl e) hdrind-IsEntry

  pub header-IsEntry :
      (σ : State) (s : Stream)
      → is_header σ ≡ true
      → s.state ≡ σ
      → IsEntry after (header_case after σ) s
  unfolding header_case is_header
  header-IsEntry State.vchead s h e = vchead-IsEntry s e
  header-IsEntry State.hdrind s h e = hdrind-IsEntry s e
  header-IsEntry State.secondid s h e = secondid-IsEntry s e
  header-IsEntry State.tablen s h e = tablen-IsEntry s e
  header-IsEntry State.near s h e = near-IsEntry s e
  header-IsEntry State.same s h e = same-IsEntry s e
  header-IsEntry State.tabdat s h e = tabdat-IsEntry s e
  header-IsEntry State.applen s h e = applen-IsEntry s e
  header-IsEntry State.appdat s h e = appdat-IsEntry s e
  header-IsEntry State.winind s h e = winind-IsEntry s e
  header-IsEntry State.cpylen s h e = cpylen-IsEntry s e
  header-IsEntry State.cpyoff s h e = cpyoff-IsEntry s e
  header-IsEntry State.enclen s h e = enclen-IsEntry s e
  header-IsEntry State.tgtlen s h e = tgtlen-IsEntry s e
  header-IsEntry State.delind s h e = delind-IsEntry s e
  header-IsEntry State.datalen s h e = datalen-IsEntry s e
  header-IsEntry State.instlen s h e = instlen-IsEntry s e
  header-IsEntry State.addrlen s h e = addrlen-IsEntry s e
  header-IsEntry State.cksum s h e = cksum-IsEntry s e
  header-IsEntry other s h e = absurd (cc)
