-- ===== src/Block/Checksum.antt =====
-- The checksum that Finish appends is the one that Block's constructor verifies.
use lightkv.Prelude.{
  ℕ, ◌-◌, ◌<◌, ◌^◌, true, false, List, [], ◌++◌, length, leb, ◌==◌, ◌≡◌, refl, sym, ap, ◌∙◌, arith,
  length-append, append-nil, take-append_length, drop-append_length, ==_iff,
}
use lightkv.Encoding.{put_fixed32, decode_fixed32, decode_fixed, fixed_bytes}
use lightkv.Encoding.Fixed.{length-fixed_bytes, decode_fixed-fixed_bytes}
use lightkv.Crc.{crc32c}
use lightkv.Crc.Laws.{crc_extend-lt}
use lightkv.Block.{Builder, new_builder, finish, finished_bytes, reset, checksum_ok}

crc32c-lt : (bytes : List ℕ) → crc32c bytes < 2 ^ 32
unfolding crc32c
crc32c-lt bytes = crc_extend-lt 0 bytes (omega arith)

-- A checksum stored behind the bytes that it covers is accepted, and any other is refused.
pub checksum_verdict :
    (body : List ℕ) (stored : ℕ)
    → stored < 2 ^ 32
    → checksum_ok (put_fixed32 body stored) ≡ (stored == crc32c body)
unfolding checksum_ok put_fixed32 decode_fixed32
checksum_verdict body stored small =
    rw (long, size)
      (rw
        (
          drop-append_length body (fixed_bytes 4 stored),
          take-append_length body (fixed_bytes 4 stored),
          stored_back,
        )
        refl)
  where
    long : leb 4 (length (body ++ fixed_bytes 4 stored)) ≡ true
    long = ground (arith, length-append body (fixed_bytes 4 stored), length-fixed_bytes 4 stored)

    size : length (body ++ fixed_bytes 4 stored) - 4 ≡ length body
    size = omega (arith, length-append body (fixed_bytes 4 stored), length-fixed_bytes 4 stored)

    stored_back : decode_fixed 4 (fixed_bytes 4 stored) ≡ stored
    stored_back =
        ap (decode_fixed 4) (sym (append-nil _)) ∙ decode_fixed-fixed_bytes 4 stored [] small

-- Finish of a running builder leaves a block whose checksum is verified; a second Finish changes
-- nothing; and Reset leaves a builder that is as good as new.
pub finish_verified :
    (b : Builder)
    → b.finished ≡ false
    → (checksum_ok (finish b).buffer ≡ true)
      × (finish (finish b) ≡ finish b)
      × (reset (finish b) ≡ new_builder b.restart_interval)
unfolding finish finished_bytes reset new_builder
finish_verified b running =
    rw running (checksum_verdict _ _ (crc32c-lt _) ∙ (==_iff _ _).1 refl, refl, refl)
