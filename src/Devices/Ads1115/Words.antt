-- ===== src/Devices/Ads1115/Words.antt =====
-- The two bytes of a register in ads1115.go, and the register over the bus.
use local_worker.Common.{ℕ, ◌*◌, ◌/◌, ◌^◌, ◌<◌, ◌==◌, ==_iff, ◌≡◌, refl, bit_and, bit_or, true}
use local_worker.Common.Bits.{check_below, check_below_lem}
use local_worker.Devices.Ads1115.{word_of, word_bytes}

words_table :
    check_below 65536 (λ v. bit_or (bit_and (v / 2 ^ 8) 0xff * 2 ^ 8) (bit_and v 0xff) == v) ≡ true
unfolding check_below
words_table = refl

-- Every 16 bit value is what the reader of a register makes of the two bytes that the writer of a
-- register sends for it.
pub word_of-word_bytes : (v : ℕ) → v < 2 ^ 16 → word_of (word_bytes v) ≡ v
unfolding word_of word_bytes
word_of-word_bytes v h = (==_iff _ _).0 (check_below_lem 65536 _ v words_table h)
