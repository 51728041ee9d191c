-- ===== src/AddrCache/Runs.antt =====
-- Runs of the address codec, and its theorems at concrete inputs.
use swift_xdelta.Prelude.{◌≡◌, refl, arith, [], ◌∷◌, ok, replicate}
use swift_xdelta.Output.{Section}
use swift_xdelta.Integer.{encode_integer}
use swift_xdelta.Output.Pages.{IsSection}
use swift_xdelta.Output.Sections.{Outputs, AreValid, page_sink, section_of, emit}
use swift_xdelta.Sink.{Sect, hdr, emit_size}
use swift_xdelta.AddrCache.{
  Cache, init_cache, update_cache, choose_mode, search_near, encode_address, byte, integer,
}
use swift_xdelta.AddrCache.State.{
  IsCache, HasArrays, IsCleared, init_cache-IsCleared, Updated, update_cache-Updated,
}
use swift_xdelta.AddrCache.RoundTrip.{Encoded, decode-encode_address}

-- Two near slots and one row of same addresses, as xd3_alloc_cache leaves them.
abbrev blank : Cache
blank = record {
  s_near = 2;
  s_same = 1;
  next_slot = 9;
  near_array = 5 ∷ 7 ∷ [];
  same_array = replicate 256 9;
}

abbrev start : Cache
start = record {
  s_near = 2;
  s_same = 1;
  next_slot = 0;
  near_array = 0 ∷ 0 ∷ [];
  same_array = replicate 256 0;
}

abbrev empty_section : Section
empty_section = record {
  full = [];
  tail = record { base = 0 ∷ 0 ∷ 0 ∷ 0 ∷ []; next = 0; avail = 4 };
}

abbrev outputs : Outputs
outputs = record {
  pool = record { free_list = []; answers = [] };
  hdr_out = empty_section;
  data_out = empty_section;
  inst_out = empty_section;
  addr_out = empty_section;
}

init_runs : init_cache blank ≡ start
unfolding init_cache
init_runs = refl

-- 1000 from 1200: the distance 200 is the smaller integer.
here_is_nearer : choose_mode start 1000 1200 ≡ (1, integer 200)
unfolding choose_mode search_near
here_is_nearer = refl

near_is_nearer : choose_mode (update_cache start 1000) 1010 9000 ≡ (2, integer 10)
unfolding choose_mode search_near update_cache
near_is_nearer = refl

same_is_hit :
    choose_mode (update_cache (update_cache (update_cache start 5000) 1) 2) 5000 99999
    ≡ (4, byte 136)
unfolding choose_mode search_near update_cache
same_is_hit = refl

IsSection-outputs : (s : Sect) → IsSection (section_of outputs s)
IsSection-outputs hdr = omega arith
IsSection-outputs _ = omega arith

outputs-AreValid : AreValid outputs
outputs-AreValid = record { pool = tt; all = IsSection-outputs }

abbrev fresh_cache : Cache
fresh_cache = init_cache blank

blank-HasArrays : HasArrays blank
blank-HasArrays = record { near_len = refl; same_len = refl }

fresh_cache-IsCache : IsCache fresh_cache
fresh_cache-IsCache = (init_cache-IsCleared blank (omega arith) (omega arith) blank-HasArrays).cache

written_here : (encode_address page_sink outputs fresh_cache 1000 1200 3).status ≡ ok 4
unfolding encode_address choose_mode search_near init_cache emit_size emit encode_integer
written_here = refl

decode-encode_address_example : Encoded page_sink outputs fresh_cache 1000 1200 3
decode-encode_address_example =
    decode-encode_address page_sink outputs fresh_cache 1000 1200 3 4 outputs-AreValid
      fresh_cache-IsCache (omega arith) (omega arith) written_here

init_cache-IsCleared_example : IsCleared (init_cache blank)
init_cache-IsCleared_example =
    init_cache-IsCleared blank (omega arith) (omega arith) blank-HasArrays

update_cache-Updated_example : Updated fresh_cache 5000 (update_cache fresh_cache 5000)
update_cache-Updated_example =
    update_cache-Updated fresh_cache 5000 fresh_cache-IsCache (omega arith)
