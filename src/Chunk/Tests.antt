-- ===== src/Chunk/Tests.antt =====
-- Examples for NonAlignedCopy.h; the first is the one in the comment at the top of that file.
use qemu_cvbd_shraed_memory.Common.{◌≡◌, refl, List, [], ◌∷◌, arith}
use qemu_cvbd_shraed_memory.Common.Int.{pos, ◌+ℤ◌, ◌-ℤ◌, rem}
use qemu_cvbd_shraed_memory.Chunk.{Piece, init, is_valid, next, pieces}
use qemu_cvbd_shraed_memory.Chunk.Partition.{piece, Tiles, AllFit, pieces_cover}
use qemu_cvbd_shraed_memory.Chunk.Bounds.{after, IsSafe, after-IsSafe}

abbrev three_pieces : List Piece
three_pieces = pieces 8192 (init (pos 6144) (pos 8192) (pos 4096))

comment_example : three_pieces ≡ piece 6144 2048 ∷ piece 8192 4096 ∷ piece 12288 2048 ∷ []
unfolding pieces init is_valid next ◌+ℤ◌ ◌-ℤ◌ rem
comment_example = refl

pieces_cover_example : Tiles 6144 14336 three_pieces × AllFit 4096 14336 three_pieces
pieces_cover_example = pieces_cover 8192 6144 8192 4096 (omega arith) (omega arith)

after-IsSafe_example : IsSafe (after 2 (init (pos 6144) (pos 8192) (pos 4096)))
after-IsSafe_example = after-IsSafe 6144 8192 4096 2 (omega arith) (omega arith) (omega arith)
