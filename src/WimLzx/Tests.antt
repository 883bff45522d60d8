-- ===== src/WimLzx/Tests.antt =====
-- Runs of lib/wim_lzx/lib.rs on small chunks, and the theorems at concrete inputs.
use theos.Base.{ℕ, ◌≡◌, ◌≢◌, ◌≤◌, refl, List, [], ◌∷◌, length, none, some, done, ok}
use theos.WimLzx.{new, window_size}
use theos.WimLzx.Reader.{get_bits, try_feed, ensure_at_least}
use theos.WimLzx.Trees.{read_block_header}
use theos.WimLzx.Blocks.{decompress, block_loop, read_block}
use theos.WimLzx.CallTargets.{decode_e8}
use theos.WimLzx.Termination.{decompress-ends, decompress-length}

-- One block of two bytes, 65 and 66, that is not compressed.
abbrev two_bytes : List ℕ
two_bytes = 0 ∷ 0x60 ∷ 0 ∷ 0x20 ∷ 1 ∷ 0 ∷ 0 ∷ 0 ∷ 1 ∷ 0 ∷ 0 ∷ 0 ∷ 1 ∷ 0 ∷ 0 ∷ 0 ∷ 65 ∷ 66 ∷ []

decompress_two_bytes : decompress two_bytes 2 ≡ some (done (ok (65 ∷ 66 ∷ [])))
unfolding decompress block_loop read_block read_block_header get_bits try_feed ensure_at_least new
    decode_e8
decompress_two_bytes = refl

decompress-ends_example : decompress two_bytes 2 ≢ none
decompress-ends_example = decompress-ends two_bytes 2

decompress-length_example : (length {A = ℕ} (65 ∷ 66 ∷ []) ≡ 2) × (2 ≤ window_size)
decompress-length_example = decompress-length two_bytes 2 (65 ∷ 66 ∷ []) decompress_two_bytes
