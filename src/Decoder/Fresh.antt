-- ===== src/Decoder/Fresh.antt =====
-- The header of xd3_decode_input, from any of its states, up to a fresh window.
use swift_xdelta.Prelude.{◌^◌, ◌<◌, refl, true}
use swift_xdelta.Window.Setup.{IsFresh}
use swift_xdelta.Decoder.{State, Stream}
use swift_xdelta.Decoder.Sections.{window_of}
use swift_xdelta.Decoder.Awaiting.{At}

-- The window that a header hands on is fresh for xd3_decode_sections and xd3_decode_emit, where the
-- copy window is shorter than 2^63 bytes.
pub At-IsFresh :
    (s : Stream) → At State.sect_data true s → s.cpylen < 2 ^ 63 → IsFresh (window_of s)
At-IsFresh s a h = record {
  source = a.base.source;
  nothing = a.base.nothing;
  idle = a.base.idle;
  position = a.place refl;
  target = a.base.target;
  copy = h;
  block = a.base.block;
  buffer = a.base.buffer;
}
