-- ===== src/InternalKey/Examples.antt =====
-- Internal keys of the user keys `a` and `b`.
use lightkv.Prelude.{ℕ, ◌≡◌, arith, List, [], ◌∷◌}
use lightkv.Slice.{slice_compare}
use lightkv.InternalKey.{make_internal_key, compare_internal_keys}
use lightkv.InternalKey.Order.{sizes_or_versions, internal_key_order}

abbrev key_a : List ℕ
key_a = b'a' ∷ []

internal_key_order_example :
    compare_internal_keys (make_internal_key key_a 5 1) (make_internal_key key_a 4 1)
    ≡ sizes_or_versions (slice_compare key_a key_a) 5 1 4 1
internal_key_order_example =
    internal_key_order key_a 5 1 key_a 4 1 (omega arith) (omega arith) (omega arith) (omega arith)
      (omega arith)
