-- ===== src/AddrCache/RoundTrip.antt =====
-- xd3_decode_address undoes xd3_encode_address, and leaves the decoder with the encoder's cache.
use swift_xdelta.Prelude.{ℕ, ◌+◌, ◌-◌, ◌*◌, ◌%◌, ◌<◌, ◌≡◌, refl, ap, arith}
use swift_xdelta.Prelude.{some, List, [], ◌∷◌, ◌++◌, lt→ltb, le→ltb, Result, ok, err, ◌>>=◌, length}
use swift_xdelta.Integer.{uint64, encode_integer, read_integer}
use swift_xdelta.Integer.RoundTrip.{read-encode, encode_integer-Encodes}
use swift_xdelta.Sink.{Sect, Sink, emit_size_lem}
use swift_xdelta.AddrCache.{
  Cache, Form, byte, integer, AddressIn, usize_mod, update_cache, choose_mode, emit_form,
  finish_address, encode_address, decode_address, take_same, finish_decode,
}
use swift_xdelta.AddrCache.State.{IsCache, element-get_or}
use swift_xdelta.AddrCache.Search.{IsChoice, IsReading, choose_mode-IsChoice}

-- What a form is written as.
data Wrote : Form → List ℕ → Type 0 where
  wrote_byte : (b : ℕ) → Wrote (byte b) (b ∷ [])
  wrote_integer : (d : ℕ) (bs : List ℕ) → encode_integer d ≡ some bs → Wrote (integer d) bs

abbrev decoded : Cache → ℕ → List ℕ → Result AddressIn
decoded c a rest = ok (record { val = a; rest = rest; cache = update_cache c a })

read_back :
    (d : ℕ) (bs rest : List ℕ)
    → d < usize_mod
    → encode_integer d ≡ some bs
    → read_integer uint64 (bs ++ rest) ≡ ok (d, rest)
read_back d bs rest h e =
    let (bs', e', size, read) = read-encode uint64 d rest h in
    let same : bs ≡ bs' = cc in rw same read

decode_address-integer :
    (c : Cache) (a here m d : ℕ) (bs rest : List ℕ)
    → IsReading c a here (record { bestd = d; bestm = m })
    → encode_integer d ≡ some bs
    → decode_address c here m (bs ++ rest) ≡ decoded c a rest
unfolding decode_address
decode_address-integer c a here m d bs rest r e =
    rw (lt→ltb m (2 + c.s_near) r.mode, read_back d bs rest r.word e)
      (ap (λ m. m >>= finish_decode c rest) r.means)

decode_address-byte :
    (c : Cache) (a here m b : ℕ) (rest : List ℕ)
    → IsChoice c a here (m, byte b)
    → IsCache c
    → decode_address c here m (b ∷ rest) ≡ decoded c a rest
unfolding decode_address take_same IsChoice
decode_address-byte c a here m b rest (lo, hi, hb, e) h =
    let row = m - (2 + c.s_near) in
    let inside : row * 256 + b < length c.same_array = omega (arith, h.same_len) in
    let byte : b % 256 ≡ b = omega arith in
    rw (le→ltb m (2 + c.s_near) lo, byte, element-get_or c.same_array (row * 256 + b) inside, e)
      refl

-- What an address that was written without an error has done.
pub record Encoded (k : Sink) (o : k.Out) (c : Cache) (a here mode : ℕ) : Type 0 where
  pub bestm : ℕ
  pub bytes : List ℕ
  pub status : (encode_address k o c a here mode).status ≡ ok ((mode + bestm) % 256)
  pub written :
      k.holds (encode_address k o c a here mode).out Sect.addr ≡ k.holds o Sect.addr ++ bytes
  pub cache : (encode_address k o c a here mode).cache ≡ update_cache c a
  pub in_table : bestm < 2 + c.s_near + c.s_same
  pub read_back : (rest : List ℕ) → decode_address c here bestm (bytes ++ rest) ≡ decoded c a rest

-- What a form that was written without an error has left.
record FormWritten (k : Sink) (o : k.Out) (form : Form) : Type 0 where
  bytes : List ℕ
  wrote : Wrote form bytes
  holds : k.holds (emit_form k o form).1 Sect.addr ≡ k.holds o Sect.addr ++ bytes

integer_written :
    (k : Sink) (o : k.Out) (d : ℕ) (bs : List ℕ)
    → k.IsValid o
    → encode_integer d ≡ some bs
    → (emit_form k o (integer d)).0 ≡ ok tt
    → FormWritten k o (integer d)
unfolding emit_form
integer_written k o d bs v e h = record {
  bytes = bs;
  wrote = wrote_integer d bs e;
  holds =
      let lem = emit_size_lem k o Sect.addr d e in
      rw lem (k.emit_ok o Sect.addr bs v (rw lem at h));
}

byte_written :
    (k : Sink) (o : k.Out) (b : ℕ)
    → k.IsValid o
    → (emit_form k o (byte b)).0 ≡ ok tt
    → FormWritten k o (byte b)
unfolding emit_form
byte_written k o b v h = record {
  bytes = b ∷ [];
  wrote = wrote_byte b;
  holds = k.emit_ok o Sect.addr (b ∷ []) v h;
}

form_written :
    (k : Sink) (o : k.Out) (c : Cache) (a here m : ℕ) (form : Form)
    → k.IsValid o
    → IsChoice c a here (m, form)
    → (emit_form k o form).0 ≡ ok tt
    → FormWritten k o form
unfolding IsChoice
form_written k o c a here m (byte b) v ch h = byte_written k o b v h
form_written k o c a here m (integer d) v ch h =
    let (bs, e, more) = encode_integer-Encodes d ch.word in integer_written k o d bs v e h

choice_read_back :
    (c : Cache) (a here m : ℕ) (form : Form) (bs rest : List ℕ)
    → IsChoice c a here (m, form)
    → IsCache c
    → Wrote form bs
    → decode_address c here m (bs ++ rest) ≡ decoded c a rest
choice_read_back c a here m form bs rest ch h (wrote_byte b) =
    decode_address-byte c a here m b rest ch h
choice_read_back c a here m form bs rest ch h (wrote_integer d bs' e) =
    decode_address-integer c a here m d bs' rest (unfold IsChoice in ch) e

choice_in_table :
    (c : Cache) (a here m : ℕ) (form : Form)
    → IsChoice c a here (m, form)
    → m < 2 + c.s_near + c.s_same
unfolding IsChoice
choice_in_table c a here m (byte b) ch = ch.1
choice_in_table c a here m (integer d) ch = omega (arith, ch.mode)

finish_ok :
    (k : Sink) (c : Cache) (a mode m : ℕ) (r : Result (Unit {0}) × k.Out)
    → (finish_address k c a mode r).status ≡ ok m
    → (r.0 ≡ ok tt)
      × (finish_address k c a mode r
          ≡ record { status = ok (mode % 256); out = r.1; cache = update_cache c a })
unfolding finish_address
finish_ok k c a mode m (ok u, o) e = (refl, refl)
finish_ok k c a mode m (err x, o) e = cc

encoded :
    (k : Sink) (o : k.Out) (c : Cache) (a here mode m : ℕ) (r : ℕ × Form)
    → choose_mode c a here ≡ r
    → k.IsValid o
    → IsChoice c a here r
    → IsCache c
    → (encode_address k o c a here mode).status ≡ ok m
    → Encoded k o c a here mode
unfolding encode_address
encoded k o c a here mode m (bestm, form) e v ch h st =
    let (done, final) = finish_ok k c a (mode + bestm) m (emit_form k o form) (rw e at st) in
    let w = form_written k o c a here bestm form v ch done in
    record {
      bestm = bestm;
      bytes = w.bytes;
      status = rw (e, final);
      written = rw (e, final) w.holds;
      cache = rw (e, final);
      in_table = choice_in_table c a here bestm form ch;
      read_back = λ rest. choice_read_back c a here bestm form w.bytes rest ch h w.wrote;
    }

-- If the encoder writes an address before `here` without running out of memory, it appends some
-- bytes to the address section and adds a mode of the code table to `*mode`; from those bytes, in
-- that mode and from the same cache, the decoder reads the address and stops behind them; and both
-- end with the cache updated by the address.
pub decode-encode_address :
    (k : Sink) (o : k.Out) (c : Cache) (a here mode m : ℕ)
    → k.IsValid o
    → IsCache c
    → a < here
    → here < usize_mod
    → (encode_address k o c a here mode).status ≡ ok m
    → Encoded k o c a here mode
decode-encode_address k o c a here mode m v h lt hh e =
    encoded k o c a here mode m (choose_mode c a here) refl v
      (choose_mode-IsChoice c a here h lt hh) h e
