-- ===== src/Decoder/Calls.antt =====
-- xdelta3/xdelta3-decode.h: the header of xd3_decode_input over all the calls that read it.
use swift_xdelta.Prelude.{
  ℕ, ◌≡◌, refl, sym, ap, ◌∙◌, true, List, [], ◌∷◌, ◌++◌, append_assoc, append-nil,
}
use swift_xdelta.Decoder.{Stream, Outcome, M}
use swift_xdelta.Decoder.Lengths.{decode_header}
use swift_xdelta.Decoder.Resume.{feed}
use swift_xdelta.Decoder.Entry.{is_header, resume_header, WaitsOf, IsEntry}
use swift_xdelta.Decoder.Chunks.{header-IsEntry}

-- The input that comes in pieces.
pub concat : List (List ℕ) → List ℕ
concat [] = []
concat (xs ∷ xss) = xs ++ concat xss

-- The calls after the one with outcome `r`, each with the next piece of the input.
pub more_calls : M (Unit {0}) → List (List ℕ) → Outcome (Unit {0}) → Outcome (Unit {0})
more_calls after [] r = r
more_calls after (xs ∷ xss) r = more_calls after xss (resume_header after xs r)

entry :
    (after : M (Unit {0})) (s : Stream)
    → is_header s.state ≡ true
    → IsEntry after (decode_header after) s
unfolding decode_header
entry after s h =
    let e = header-IsEntry after s.state s h refl in record { again = e.again; waits = e.waits }

feed-feed : (xs ys : List ℕ) (s : Stream) → feed ys (feed xs s) ≡ feed (xs ++ ys) s
feed-feed xs ys s =
    ap (λ l. record s { inp = record s.inp { next_in = l } }) (append_assoc s.inp.next_in xs ys)

feed_nothing : (s : Stream) → feed [] s ≡ s
feed_nothing s =
    ap (λ l. record s { inp = record s.inp { next_in = l } }) (append-nil s.inp.next_in)

-- In a header state, however the input is cut into pieces, the calls of xd3_decode_input with one piece
-- each, made as long as XD3_INPUT comes back, have the outcome of a single call with the whole input.
pub more_calls-concat :
    (after : M (Unit {0})) (xss : List (List ℕ)) (s : Stream)
    → is_header s.state ≡ true
    → more_calls after xss (decode_header after s) ≡ decode_header after (feed (concat xss) s)
unfolding more_calls concat
more_calls-concat after [] s h = ap (decode_header after) (sym (feed_nothing s))
more_calls-concat after (xs ∷ xss) s h =
    ap (more_calls after xss) (sym ((entry after s h).again xs))
    ∙ more_calls-concat after xss (feed xs s) h
    ∙ ap (decode_header after) (feed-feed xs (concat xss) s)

-- In a header state, a call that returns XD3_INPUT has taken all of its input and is still in a header
-- state.
pub decode_header-Waits :
    (after : M (Unit {0})) (s : Stream) → is_header s.state ≡ true → WaitsOf (decode_header after s)
decode_header-Waits after s h = (entry after s h).waits
