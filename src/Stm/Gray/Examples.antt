-- ===== src/Stm/Gray/Examples.antt =====
-- The round trip of the Gray code at a concrete timestamp.
use coresight.Prelude.{◌≡◌, ◌+◌, arith}
use coresight.Stm.Gray.{bin_to_gray, gray_to_bin, gray_loop, gray_to_bin-bin_to_gray}

gray_to_bin-bin_to_gray_example :
    (gray_to_bin (bin_to_gray 0x1234_5678) ≡ 0x1234_5678)
    × (gray_loop (64 + 3) (bin_to_gray 0x1234_5678) 0 ≡ gray_to_bin (bin_to_gray 0x1234_5678))
gray_to_bin-bin_to_gray_example = gray_to_bin-bin_to_gray 0x1234_5678 3 (omega arith)
