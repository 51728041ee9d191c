-- ===== src/Decoder/Whole.antt =====
-- xd3_decode_input from the sections of a window to its end, over the window's decoder.
use swift_xdelta.Prelude.{◌≡◌, Rvalue, invalid_input, winfinish, ◌+◌, ◌%◌}
use swift_xdelta.Integer.{xoff_mod}
use swift_xdelta.Window.{Window, Turn, moved, suspended, failed, unwritten, spent}
use swift_xdelta.Window.Safety.{BothDone}
use swift_xdelta.Decoder.{State, Stream}
use swift_xdelta.Decoder.Sections.{window_of}
use swift_xdelta.Decoder.Ready.{IsReadyAt}

-- A call in a window returns with the stream ready for the next one, or fails; it reads nothing
-- unwritten, and ends.
unfoldable pub ReadyOf : Turn (Rvalue × Stream) → Type 0
ReadyOf (moved (e, s)) = IsReadyAt s.state s
ReadyOf (suspended e r) = ⊥
ReadyOf (failed e) = Unit
ReadyOf unwritten = ⊥
ReadyOf spent = ⊥

-- The end of a window counts it, keeps where it stood and how long it was, and leaves the stream
-- before the next window's indicator.
abbrev pub WindowEnded : Stream → Rvalue → Stream → Type 0
WindowEnded s e t =
    (e ≡ winfinish)
    × (t.state ≡ State.winind)
    × (t.window_count ≡ (s.window_count + 1) % xoff_mod)
    × (t.lastlen ≡ s.tgtlen)
    × (t.laststart ≡ s.winstart)
    × BothDone (window_of t)

-- What a call leaves, by the state that it starts in.
unfoldable pub ReturnOf : State → Stream → Turn (Rvalue × Stream) → Type 0
ReturnOf State.finish s (moved (e, t)) = WindowEnded s e t
ReturnOf State.finish s other = ⊥
ReturnOf σ s r = ReadyOf r

-- A call on a stream that encodes is refused, and changes nothing.
abbrev pub Refused : Stream → Turn (Rvalue × Stream) → Type 0
Refused s r = r ≡ moved (invalid_input, s)
