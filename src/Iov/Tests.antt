-- ===== src/Iov/Tests.antt =====
-- Examples for `iov_to_buf` and `iov_from_buf`.
use qemu_cvbd_shraed_memory.Common.{◌≤◌, ◌≡◌, refl, ◌↔◌, List, [], ◌∷◌, length, map, arith}
use qemu_cvbd_shraed_memory.Iov.{Bytes, iov_to_buf, iov_from_buf}
use qemu_cvbd_shraed_memory.Iov.Gather.{flat, iov_to_buf_lem}
use qemu_cvbd_shraed_memory.Iov.Scatter.{iov_from_buf_lem, to_buf-from_buf}

abbrev scattered : List Bytes
scattered = (1 ∷ 2 ∷ []) ∷ [] ∷ (3 ∷ 4 ∷ 5 ∷ []) ∷ []

gather_run : (iov_to_buf scattered 1 3 0 []).out ≡ 2 ∷ 3 ∷ 4 ∷ []
unfolding iov_to_buf
gather_run = refl

scatter_run :
    (iov_from_buf scattered 1 (7 ∷ 8 ∷ []) 2 0).iov ≡ (1 ∷ 7 ∷ []) ∷ [] ∷ (8 ∷ 4 ∷ 5 ∷ []) ∷ []
unfolding iov_from_buf
scatter_run = refl

iov_to_buf_lem_example :
    let g = iov_to_buf scattered 1 3 0 [] in
    (g.out ≡ 2 ∷ 3 ∷ 4 ∷ []) × (g.done ≡ 3) × ((g.offset ≡ 0) ↔ (1 ≤ 5))
iov_to_buf_lem_example = iov_to_buf_lem scattered 1 3

iov_from_buf_lem_example :
    let r = iov_from_buf scattered 1 (7 ∷ 8 ∷ []) 2 0 in
    (flat r.iov ≡ 1 ∷ 7 ∷ 8 ∷ 4 ∷ 5 ∷ [])
    × (map length r.iov ≡ 2 ∷ 0 ∷ 3 ∷ [])
    × ((r.offset ≡ 0) ↔ (1 ≤ 5))
iov_from_buf_lem_example = iov_from_buf_lem scattered 1 (7 ∷ 8 ∷ []) 2 (omega arith)

to_buf-from_buf_example :
    (iov_to_buf (iov_from_buf scattered 0 (7 ∷ 8 ∷ 9 ∷ []) 3 0).iov 0 3 0 []).out ≡ 7 ∷ 8 ∷ 9 ∷ []
to_buf-from_buf_example = to_buf-from_buf scattered (7 ∷ 8 ∷ 9 ∷ []) 3 (omega arith) (omega arith)
