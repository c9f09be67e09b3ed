-- ===== src/Message.antt =====
-- SharedMemShared.h: the requests and replies that clients and the server exchange, and its
-- constants. A union is the member that was stored last; `Layout` is how the compiler lays the
-- members over one another, which decides what a cast to another member reads.
pub mod Names
pub mod Sizes
mod Tests
use Prim.Native.Char.{code}
use Prim.Native.String
use Prim.Native.String.{String}
use qemu_cvbd_shraed_memory.Common.{
  ℕ, ◌+◌, ◌*◌, ◌≡◌, Bool, true, false, Option, none, some, List, [], ◌∷◌, length, ltb, ◌==◌,
  if◌then◌else◌,
}
use qemu_cvbd_shraed_memory.Common.Int.{ℤ}
use qemu_cvbd_shraed_memory.Iov.{Bytes, overwrite}

abbrev pub codes : String → Bytes
codes String.[] = []
codes (String.◌∷◌ c s) = code c ∷ codes s

-- `vd_request_mq_name_format`.
abbrev pub request_mq_name_format : Bytes
request_mq_name_format = codes "##equest_mq_"

abbrev pub max_queue_num : ℕ
max_queue_num = 1

abbrev pub max_queue_size : ℕ
max_queue_size = 32

abbrev pub max_sectors_write : ℕ
max_sectors_write = 128

-- The same expression in `WriteRequest`, `ReadRequest` and `ReadReply`.
abbrev pub max_data_size : ℕ
max_data_size = 4096 * max_sectors_write

pub data RequestType : Type 0 where
  req_unknow req_read req_write req_open req_close req_getsize req_fsync : RequestType

pub record Header : Type 0 where
  pub stop : Bool
  pub type : RequestType
  pub id : ℕ
  pub volume : ℕ
  pub acb : ℕ

-- The constructor without arguments.
abbrev pub blank : Header
blank = record { stop = false; type = req_unknow; id = 0; volume = 0; acb = 0 }

pub record WriteRequest : Type 0 where
  pub header : Header
  pub offset : ℤ
  pub size_in_bytes : ℕ
  pub bytes : Bytes  -- the array `data`

pub record ReadRequest : Type 0 where
  pub header : Header
  pub offset : ℤ
  pub size_in_bytes : ℕ

-- The two arrays of PATH_MAX bytes.
pub record OpenRequest : Type 0 where
  pub header : Header
  pub volume_name : Bytes
  pub reply_mq_name : Bytes

pub record ReadReply : Type 0 where
  pub header : Header
  pub size_in_bytes : ℕ
  pub bytes : Bytes  -- the array `data`

pub record OpenReply : Type 0 where
  pub header : Header
  pub volume : ℕ
  pub err : ℤ

pub record GetSizeReply : Type 0 where
  pub header : Header
  pub size_in_bytes : ℤ

pub record FsyncReply : Type 0 where
  pub header : Header
  pub err : ℤ

-- `CloseRequest`, `GetSizeRequest` and `FsyncRequest` hold a header and nothing else.
pub data Request : Type 0 where
  write_request : WriteRequest → Request
  read_request : ReadRequest → Request
  open_request : OpenRequest → Request
  close_request getsize_request fsync_request : Header → Request

pub data Reply : Type 0 where
  read_reply : ReadReply → Reply
  open_reply : OpenReply → Reply
  getsize_reply : GetSizeReply → Reply
  fsync_reply : FsyncReply → Reply

-- Every member begins with its header, so a cast to `Header` reads it whatever was stored.
abbrev pub header_of : Request → Header
header_of (write_request r) = r.header
header_of (read_request r) = r.header
header_of (open_request r) = r.header
header_of (close_request h) = h
header_of (getsize_request h) = h
header_of (fsync_request h) = h

abbrev pub reply_header : Reply → Header
reply_header (read_reply r) = r.header
reply_header (open_reply r) = r.header
reply_header (getsize_reply r) = r.header
reply_header (fsync_reply r) = r.header

-- The casts of the unions; one to the member that was stored gives it back.
pub record Layout : Type 0 where
  pub as_write : Request → WriteRequest
  pub as_read : Request → ReadRequest
  pub as_open : Request → OpenRequest
  pub as_read_reply : Reply → ReadReply
  pub as_open_reply : Reply → OpenReply
  pub as_getsize_reply : Reply → GetSizeReply
  pub as_fsync_reply : Reply → FsyncReply
  pub as_write_lem : (r : WriteRequest) → as_write (write_request r) ≡ r
  pub as_read_lem : (r : ReadRequest) → as_read (read_request r) ≡ r
  pub as_open_lem : (r : OpenRequest) → as_open (open_request r) ≡ r
  pub as_read_reply_lem : (r : ReadReply) → as_read_reply (read_reply r) ≡ r
  pub as_open_reply_lem : (r : OpenReply) → as_open_reply (open_reply r) ≡ r
  pub as_getsize_reply_lem : (r : GetSizeReply) → as_getsize_reply (getsize_reply r) ≡ r
  pub as_fsync_reply_lem : (r : FsyncReply) → as_fsync_reply (fsync_reply r) ≡ r

-- `WriteRequest::init` and `ReadRequest::init`.
abbrev pub init_write : WriteRequest → ℤ → ℕ → WriteRequest
init_write r offset size = record r { offset = offset; size_in_bytes = size }

abbrev pub init_read : ReadRequest → ℤ → ℕ → ReadRequest
init_read r offset size = record r { offset = offset; size_in_bytes = size }

-- `OpenRequest::init`, on C strings given without their NUL. Both copies take `strlen` bytes of the
-- volume's name; `none` where one runs past its array.
unfoldable pub init_open : OpenRequest → Bytes → Bytes → Option OpenRequest
init_open r volume_name reply_mq_name =
    if ltb (length r.volume_name) (length volume_name)
    then none
    else if ltb (length r.reply_mq_name) (length volume_name)
    then none
    else some (record r {
      volume_name = overwrite r.volume_name 0 volume_name;
      reply_mq_name = overwrite r.reply_mq_name 0 volume_name;
    })

-- The C string that begins an array: up to its first NUL. `none` where the array holds none.
unfoldable pub c_string : Bytes → Option Bytes
c_string [] = none
c_string (c ∷ cs) =
    let rest = c_string cs in
    if c == 0 then some [] else elim rest [ none ↦ none | some s ↦ some (c ∷ s) ]
