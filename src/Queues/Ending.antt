-- ===== src/Queues/Ending.antt =====
-- SharedMemServer.h: what `~SharedMemServer` does at a queue that can be sent to.
use qemu_cvbd_shraed_memory.Common.{ℕ, ◌≡◌, ◌<◌, List, ◌∷◌, length, arith}
use qemu_cvbd_shraed_memory.Common.Outcome.{stopped, crashed}
use qemu_cvbd_shraed_memory.Iov.{Bytes}
use qemu_cvbd_shraed_memory.Message.{close_request}
use qemu_cvbd_shraed_memory.Message.Sizes.{request_size-header_size}
use qemu_cvbd_shraed_memory.Host.{Env}
use qemu_cvbd_shraed_memory.Queues.{stop_header, stop_queues}

-- Where the first queue has room, a whole request is read from an object that is smaller.
stop_queues_lem :
    (env : Env) (decimal : ℕ → Bytes) (i h : ℕ) (hs : List ℕ) (s : env.requests.Shm)
    → length (env.requests.messages h s) < env.requests.capacity h s
    → stop_queues env decimal i (h ∷ hs) s ≡ stopped crashed
unfolding stop_queues
stop_queues_lem env decimal i h hs s room =
    let (shm, sent) = env.requests.send_room h (close_request (stop_header env decimal)) s room in
    ground (arith, sent, request_size-header_size env.path_max)
