-- ===== src/Message/Names.antt =====
-- SharedMemShared.h: the names that a server reads out of an OpenRequest.
use qemu_cvbd_shraed_memory.Common.{
  ◌+◌, ◌≤◌, ◌≡◌, ◌≢◌, refl, Option, none, some, [], ◌∷◌, ◌++◌, length, drop, arith,
}
use qemu_cvbd_shraed_memory.Iov.{Bytes, overwrite}
use qemu_cvbd_shraed_memory.Message.{OpenRequest, init_open, c_string}

-- No byte of a C string is 0.
abbrev pub NoNul : Bytes → Type 0
NoNul [] = Unit {0}
NoNul (c ∷ s) = (c ≢ 0) × NoNul s

-- A string, and then what the string of the rest is.
abbrev pub prepend : Bytes → Option Bytes → Option Bytes
prepend name none = none
prepend name (some rest) = some (name ++ rest)

c_string-append :
    (name rest : Bytes) → NoNul name → c_string (name ++ rest) ≡ prepend name (c_string rest)
unfolding c_string
c_string-append [] rest n = go (c_string rest)
  where
    go : (o : Option Bytes) → o ≡ prepend [] o
    go none = refl
    go (some s) = refl
c_string-append (c ∷ name) rest n = ground (arith, c_string-append name rest n.1)

-- For a name that fits in both arrays, `OpenRequest::init` copies it without its NUL: the server
-- reads the name and then the bytes that the buffer held behind it, up to their first NUL. Both
-- arrays get the volume's name; the name of the reply queue is not used.
pub init_open_lem :
    (r : OpenRequest) (name mq_name : Bytes)
    → length name ≤ length r.volume_name
    → length name ≤ length r.reply_mq_name
    → NoNul name
    → (r' : OpenRequest) × (init_open r name mq_name ≡ some r')
      × (c_string r'.volume_name ≡ prepend name (c_string (drop (length name) r.volume_name)))
      × (c_string r'.reply_mq_name ≡ prepend name (c_string (drop (length name) r.reply_mq_name)))
unfolding init_open
init_open_lem r name mq_name fits mq_fits n =
    let z : 0 + length name ≡ length name = omega arith in
    (
      record r {
        volume_name = overwrite r.volume_name 0 name;
        reply_mq_name = overwrite r.reply_mq_name 0 name;
      },
      ground arith,
      rw z (c_string-append name (drop (length name) r.volume_name) n),
      rw z (c_string-append name (drop (length name) r.reply_mq_name) n),
    )
