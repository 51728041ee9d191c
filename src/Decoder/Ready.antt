-- ===== src/Decoder/Ready.antt =====
-- xd3_decode_sections hands xd3_decode_emit a window with its invariant, wherever its input ends.
use swift_xdelta.Prelude.{
  ℕ, ◌≡◌, refl, ap, arith, Bool, true, false, not, ◌==◌, List, [], if◌then◌else◌, length, Result,
  ok, err, OkAll, ◌≤◌, Rvalue,
}
use swift_xdelta.Window.{Window}
use swift_xdelta.Window.Safety.{IsWindow, IsDecoding, BothDone}
use swift_xdelta.AddrCache.Reads.{IsReadable}
use swift_xdelta.Window.Setup.{
  IsFresh, IsFresh-IsWindow, new_buffer, setup_buffers, setup_buffers-IsWindow,
}
use swift_xdelta.Decoder.{
  State, Stream, Outcome, done, stop, M, then_do, ◌>>◌, modify, when, answer, alloc,
}
use swift_xdelta.Prelude.{if_both, ◌∷◌, output, min}
use swift_xdelta.Decoder.Sections.{
  finish_window, sections_case, window_of, more, with_window, small_buffer, set_up, larger_buffer,
  setup_out, read_sections, decode_sections,
}
use swift_xdelta.Decoder.Keeping.{
  skips, core, view, reads, LateOf, KeptOf, Keeps, fail_if-Keeps, when_skipped-Keeps,
  finish_window-KeptOf,
}
use swift_xdelta.Decoder.Leads.{led}
use swift_xdelta.Decoder.Reading.{case-Keeps, case-Leads, skip_body-KeptOf}

rewrap : (w v : Window) → v ≡ w → IsFresh w → IsFresh v
rewrap w v e h = rw e h

-- What xd3_decode_emit needs does not depend on the sections.
view-IsFresh : (s t : Stream) → IsFresh (window_of s) → view t ≡ view s → IsFresh (window_of t)
view-IsFresh s t h e =
    let c : IsFresh (core s) = record {
      source = h.source;
      nothing = h.nothing;
      idle = h.idle;
      position = h.position;
      target = h.target;
      copy = h.copy;
      block = h.block;
      buffer = h.buffer;
    } in
    let d = rewrap (core s) (core t) (ap (λ v. v.0) e) c in
    record {
      source = d.source;
      nothing = d.nothing;
      idle = d.idle;
      position = d.position;
      target = d.target;
      copy = d.copy;
      block = d.block;
      buffer = d.buffer;
    }

-- A window before its first instruction, with a cache for the default code table.
pub record IsStarted (w : Window) : Type 0 where
  pub fresh : IsFresh w
  pub cache : IsReadable w.acache

IsStarted-IsDecoding : (w : Window) → IsStarted w → IsDecoding w
IsStarted-IsDecoding w h = record { window = IsFresh-IsWindow w h.fresh; cache = h.cache }

view-IsStarted :
    (s t : Stream) → IsStarted (window_of s) → view t ≡ view s → IsStarted (window_of t)
view-IsStarted s t h e =
    let same : t.acache ≡ s.acache = ap (λ v. v.0.acache) e in
    record { fresh = view-IsFresh s t h.fresh e; cache = rw same h.cache }

setup_buffers_acache :
    (memory : Bool) (w : Window) → OkAll (λ v. v.acache ≡ w.acache) (setup_buffers memory w)
unfolding setup_buffers new_buffer
setup_buffers_acache false w = ground arith
setup_buffers_acache true w = ground arith

-- What a window's end leaves, where the window was not skipped.
pub record Finished (s : Stream) : Type 0 where
  pub target : length s.out ≡ s.tgtlen
  pub inst : s.inst_sect.buf ≡ []
  pub data_ : s.data_sect.buf ≡ []
  pub addr : s.addr_sect.buf ≡ []

-- The stream before a call, by its state: a fresh window, one that may have been started, and one
-- that is finished.
unfoldable pub IsReadyAt : State → Stream → Type 0
IsReadyAt State.sect_data s = IsStarted (window_of s)
IsReadyAt State.sect_inst s = IsStarted (window_of s)
IsReadyAt State.sect_addr s = IsStarted (window_of s)
IsReadyAt State.emit s = IsDecoding (window_of s)
IsReadyAt State.finish s = BothDone (window_of s) × (skips s ≡ false → Finished s)
IsReadyAt other s = ⊥

LateOf-IsReadyAt :
    (σ : State) (s : Stream) → LateOf σ (skips s) → IsStarted (window_of s) → IsReadyAt σ s
unfolding IsReadyAt
LateOf-IsReadyAt State.sect_data s l h = h
LateOf-IsReadyAt State.sect_inst s l h = h
LateOf-IsReadyAt State.sect_addr s l h = h
LateOf-IsReadyAt State.emit s l h = IsStarted-IsDecoding (window_of s) h
LateOf-IsReadyAt State.finish s l h = (h.fresh.idle, λ n. absurd (cc))
LateOf-IsReadyAt other s l h = absurd l

-- A part that, on a fresh window, goes on with the window's invariant.
unfoldable pub SetUpOf : Outcome (Unit {0}) → Type 0
SetUpOf (done a t) = IsDecoding (window_of t) × (t.state ≡ State.emit)
SetUpOf (stop e t) = IsReadyAt t.state t

IsReadyAt-kept :
    (s t : Stream) (e : Rvalue)
    → IsStarted (window_of s)
    → KeptOf {A = Unit {0}} (stop e t) (view s)
    → IsReadyAt t.state t
IsReadyAt-kept s t e h (k, l) =
    LateOf-IsReadyAt t.state t (rw (ap (λ v. v.1) k) l) (view-IsStarted s t h k)

with_window-IsWindow :
    (w : Window) (s : Stream) → IsWindow w → IsWindow (window_of (with_window w s))
unfolding with_window
with_window-IsWindow w s h = record {
  roomy = record {
    room = h.roomy.room;
    fits = h.roomy.fits;
    blocks = h.roomy.blocks;
    source = h.roomy.source;
  };
  half1 = h.half1;
  half2 = h.half2;
  position = h.position;
}

-- The window that xd3_decode_setup_buffers has prepared is the stream's.
pub with_window-IsDecoding :
    (w : Window) (s : Stream) → IsDecoding w → IsDecoding (window_of (with_window w s))
with_window-IsDecoding w s h = record {
  window = with_window-IsWindow w s h.window;
  cache = unfold with_window in h.cache;
}

setup_buffers-IsDecoding :
    (memory : Bool) (w : Window)
    → IsStarted w
    → OkAll
        (λ v. IsDecoding v × (v.tgtlen ≤ v.space_out) × (v.tgtlen ≡ w.tgtlen))
        (setup_buffers memory w)
setup_buffers-IsDecoding memory w h =
    with_cache (setup_buffers memory w) (setup_buffers-IsWindow memory w h.fresh)
      (setup_buffers_acache memory w)
  where
    with_cache :
        (m : Result Window)
        → OkAll (λ v. IsWindow v × (v.tgtlen ≤ v.space_out) × (v.tgtlen ≡ w.tgtlen)) m
        → OkAll (λ v. v.acache ≡ w.acache) m
        → OkAll (λ v. IsDecoding v × (v.tgtlen ≤ v.space_out) × (v.tgtlen ≡ w.tgtlen)) m
    with_cache (err e) p q = tt
    with_cache (ok v) (k, room, len) q = (record { window = k; cache = rw q h.cache }, room, len)

set_up-SetUpOf :
    (s : Stream) (r : Result Window)
    → s.state ≡ State.emit
    → IsStarted (window_of s)
    → OkAll (λ v. IsDecoding v × (v.tgtlen ≤ v.space_out) × (v.tgtlen ≡ s.tgtlen)) r
    → SetUpOf (set_up s r)
unfolding set_up SetUpOf with_window IsReadyAt
set_up-SetUpOf s (ok w) e h (i, j, k) = (with_window-IsDecoding w s i, e)
set_up-SetUpOf s (err x) e h k = rw e (IsStarted-IsDecoding (window_of s) h)

flag-SetUpOf :
    (r : Outcome (Unit {0}))
    → SetUpOf r
    → SetUpOf (then_do {0, 0} (λ u. modify (λ s. record s { has_next_out = true })) r)
unfolding SetUpOf IsReadyAt
flag-SetUpOf (done a t) (h, e) = (h, e)
flag-SetUpOf (stop x t) h = h

larger-SetUpOf :
    (l : List Bool) (s : Stream)
    → s.state ≡ State.emit
    → IsStarted (window_of s)
    → SetUpOf (
        then_do
          (λ a.
            (λ s. set_up s (setup_buffers a (window_of s)))
            >> modify (λ s. record s { has_next_out = true }))
          (answer s l))
unfolding answer
larger-SetUpOf [] s e h =
    flag-SetUpOf _ (set_up-SetUpOf s _ e h (setup_buffers-IsDecoding false (window_of s) h))
larger-SetUpOf (a ∷ l) s e h =
    flag-SetUpOf _
      (set_up-SetUpOf (record s { answers = l }) _ e h (setup_buffers-IsDecoding a (window_of s) h))

setup_out-SetUpOf :
    (s : Stream) → s.state ≡ State.emit → IsStarted (window_of s) → SetUpOf (setup_out s)
unfolding setup_out larger_buffer alloc
setup_out-SetUpOf s e h =
    if_both SetUpOf (small_buffer s) _ _ (larger-SetUpOf s.answers s e h)
      (set_up-SetUpOf s _ e h (setup_buffers-IsDecoding true (window_of s) h))

-- A part that keeps the window, and then one that sets it up.
kept-SetUpOf :
    (k : M (Unit {0})) (s : Stream) (r : Outcome (Unit {0}))
    → IsStarted (window_of s)
    → KeptOf r (view s)
    → ((t : Stream)
        → r ≡ done tt t
        → reads t.state ≡ true
        → IsStarted (window_of t)
        → SetUpOf (k t))
    → SetUpOf (then_do (λ a. k) r)
unfolding SetUpOf
kept-SetUpOf k s (done tt t) h (e, rd) next = next t refl rd (view-IsStarted s t h e)
kept-SetUpOf k s (stop x t) h kept next = IsReadyAt-kept s t x h kept

then-SetUpOf :
    (m k : M (Unit {0})) (s : Stream)
    → Keeps m
    → ((t : Stream) → reads t.state ≡ true → IsStarted (window_of t) → SetUpOf (k t))
    → reads s.state ≡ true
    → IsStarted (window_of s)
    → SetUpOf ((m >> k) s)
then-SetUpOf m k s p next rd h =
    kept-SetUpOf k s (m s) h (p.keeps s rd) (λ t e rd' h'. next t rd' h')

tail-SetUpOf :
    (s : Stream)
    → s.state ≡ State.emit
    → IsStarted (window_of s)
    → SetUpOf ((when (λ s. s.skip_emit) finish_window >> setup_out) s)
unfolding finish_window SetUpOf
tail-SetUpOf s e h = branch s.skip_emit refl
  where
    branch :
        (b : Bool)
        → s.skip_emit ≡ b
        → SetUpOf (then_do (λ a. setup_out) (if b then finish_window s else done tt s))
    branch true skip =
        IsReadyAt-kept s _ output h (finish_window-KeptOf s (ap reads e) (ground arith))
    branch false not_skipped = setup_out-SetUpOf s e h

sections-SetUpOf :
    (copy : Bool) (s : Stream)
    → reads s.state ≡ true
    → IsStarted (window_of s)
    → SetUpOf (
        ((λ s. sections_case copy s.state s)
            >> (when (λ s. s.skip_emit) finish_window >> setup_out))
          s)
sections-SetUpOf copy s rd h =
    kept-SetUpOf _ s (sections_case copy s.state s) h ((case-Keeps copy s.state).keeps s rd)
      (λ t e rd' h'. tail-SetUpOf t (led State.emit t _ ((case-Leads copy s.state).leads s) e) h')

read_sections-SetUpOf :
    (want n : ℕ) (s : Stream)
    → reads s.state ≡ true
    → IsStarted (window_of s)
    → SetUpOf (read_sections want n s)
unfolding read_sections
read_sections-SetUpOf want n s =
    then-SetUpOf _ _ s
      (when_skipped-Keeps (λ s. s.skip_window) _ (λ s e. ground arith) (skip_body-KeptOf want n))
      (sections-SetUpOf (not (n == want)))

record SetsUp (m : M (Unit {0})) : Type 0 where
  sets_up : (s : Stream) → reads s.state ≡ true → IsStarted (window_of s) → SetUpOf (m s)

then-SetsUp : (m k : M (Unit {0})) → Keeps m → SetsUp k → SetsUp (m >> k)
then-SetsUp m k p q = record { sets_up = λ s. then-SetUpOf m k s p q.sets_up }

rest-SetsUp : SetsUp (λ s. read_sections (more s) (min (more s) (length s.inp.next_in)) s)
rest-SetsUp = record { sets_up = λ s. read_sections-SetUpOf _ _ s }

just_hdr-Keeps : Keeps (when (λ s. s.just_hdr) finish_window)
just_hdr-Keeps = when_skipped-Keeps (λ s. s.just_hdr) _ (λ s e. ground arith) finish_window-KeptOf

decode_sections-SetsUp : SetsUp decode_sections
unfolding decode_sections
decode_sections-SetsUp = search (then-SetsUp, fail_if-Keeps, just_hdr-Keeps, rest-SetsUp) depth 8

pub decode_sections-SetUpOf :
    (s : Stream) → reads s.state ≡ true → IsStarted (window_of s) → SetUpOf (decode_sections s)
decode_sections-SetUpOf = decode_sections-SetsUp.sets_up
