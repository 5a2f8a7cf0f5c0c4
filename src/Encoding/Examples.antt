-- ===== src/Encoding/Examples.antt =====
-- Encodings of 300 and of short slices, and handles.
use lightkv.Prelude.{◌≡◌, refl, arith, some, [], ◌∷◌, ◌++◌}
use lightkv.Encoding.{varint_loop, put_varint32, put_varint64, get_varint32, get_varint64}
use lightkv.Encoding.Varint.{varint_round_trip}

varint_round_trip_example :
    (get_varint32 (put_varint32 [] 300 ++ 7 ∷ []) ≡ some (300, 7 ∷ []))
    × (get_varint64 (put_varint64 [] 5000000000 ++ 7 ∷ []) ≡ some (5000000000, 7 ∷ []))
varint_round_trip_example = varint_round_trip 300 5000000000 (7 ∷ []) (omega arith) (omega arith)

two_bytes : put_varint64 [] 300 ≡ (172 ∷ []) ++ 2 ∷ []
unfolding put_varint64 varint_loop
two_bytes = refl
