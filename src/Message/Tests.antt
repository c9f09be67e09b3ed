-- ===== src/Message/Tests.antt =====
-- Examples for the names in an OpenRequest: a buffer with old bytes, and a zeroed one.
use qemu_cvbd_shraed_memory.Message.Sizes.{header_size, reply_size}
use qemu_cvbd_shraed_memory.Common.{◌≡◌, refl, some, [], ◌∷◌, replicate, arith}
use qemu_cvbd_shraed_memory.Message.{codes, blank, OpenRequest, init_open, c_string}
use qemu_cvbd_shraed_memory.Message.Names.{prepend, init_open_lem}

abbrev used : OpenRequest
used = record { header = blank; volume_name = 9 ∷ 9 ∷ 9 ∷ 0 ∷ []; reply_mq_name = replicate 4 0 }

abbrev named : OpenRequest
named = record used { volume_name = 97 ∷ 98 ∷ 9 ∷ 0 ∷ []; reply_mq_name = 97 ∷ 98 ∷ 0 ∷ 0 ∷ [] }

stale_byte : c_string named.volume_name ≡ some (97 ∷ 98 ∷ 9 ∷ [])
unfolding c_string
stale_byte = refl

init_open_lem_example :
    (r' : OpenRequest) × (init_open used (codes "ab") (codes "q") ≡ some r')
    × (c_string r'.volume_name ≡ prepend (codes "ab") (c_string (9 ∷ 0 ∷ [])))
    × (c_string r'.reply_mq_name ≡ prepend (codes "ab") (c_string (0 ∷ 0 ∷ [])))
init_open_lem_example =
    init_open_lem used (codes "ab") (codes "q") (omega arith) (omega arith) (omega arith)

-- The sizes, in bytes.
sizes_run : (header_size ≡ 32) × (reply_size ≡ 524328)
unfolding header_size reply_size
sizes_run = (refl, refl)
