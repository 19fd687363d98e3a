-- ===== src/Types/Examples.antt =====
-- Five bits of two bytes.
use gsdb.Common.{ℕ, ◌≡◌, arith, List, [], ◌∷◌, ok}
use gsdb.Types.{memcpy_bits}
use gsdb.Types.BitCopy.{Copied, memcpy_bits-Copied}

memcpy_bits-Copied_example :
    (dest' : List ℕ) × (memcpy_bits (0xff ∷ 0 ∷ []) 1 (0xb4 ∷ 0x01 ∷ []) 6 5 ≡ ok dest')
    × Copied (0xff ∷ 0 ∷ []) (0xb4 ∷ 0x01 ∷ []) 1 6 5 dest'
memcpy_bits-Copied_example =
    memcpy_bits-Copied 5 (0xff ∷ 0 ∷ []) (0xb4 ∷ 0x01 ∷ []) 1 6 (omega arith) (omega arith)
      (omega arith) (omega arith) (omega arith, (omega arith, tt)) (omega arith, (omega arith, tt))
