-- ===== src/System/Flight/Order.antt =====
-- In every order of the steps, the server applies the posted requests in the order in which they were
-- posted.
use qemu_cvbd_shraed_memory.Common.{
  ℕ, ◌+◌, ◌≡◌, ◌≢◌, ◌≤◌, refl, sym, ap, ap₂, ◌∙◌, Bool, List, [], ◌∷◌, ◌++◌, append-nil,
  append_assoc, All, length, take, drop, arith, some,
}
use qemu_cvbd_shraed_memory.Common.Int.{pos}
use qemu_cvbd_shraed_memory.Common.Outcome.{ok}
use qemu_cvbd_shraed_memory.Iov.{Bytes}
use qemu_cvbd_shraed_memory.Message.{
  Request, Reply, read_request, write_request, fsync_request, getsize_request, ReadRequest,
  read_reply, fsync_reply, getsize_reply,
}
use qemu_cvbd_shraed_memory.Host.{Env, ret, fail}
use qemu_cvbd_shraed_memory.Server.{VolumeState, Server, handle_requests, neg}
use qemu_cvbd_shraed_memory.Server.Files.{dispatch-read}
use qemu_cvbd_shraed_memory.Server.Served.{
  dispatch-fsync, dispatch-getsize, stored, synced, sized, read-returns, fsync-returns,
  getsize-returns,
}
use qemu_cvbd_shraed_memory.AsyncClient.{Client}
use qemu_cvbd_shraed_memory.System.{System, after_client}
use qemu_cvbd_shraed_memory.System.Steps.{serve-returns}
use qemu_cvbd_shraed_memory.System.Sequential.{
  Reliable, at, IsInside, after, after_all, heard, heard_all,
}
use qemu_cvbd_shraed_memory.System.Sequential.Serving.{length-after}
use qemu_cvbd_shraed_memory.System.Flight.{queued, answers, Inv}
use qemu_cvbd_shraed_memory.System.Flight.Logs.{sends, Starts}

pub All-left : {A : Type 0} (P : A → Type 0) (xs ys : List A) → All P (xs ++ ys) → All P xs
All-left P [] ys h = tt
All-left P (x ∷ xs) ys h = (h.0, All-left P xs ys h.1)

pub All-right : {A : Type 0} (P : A → Type 0) (xs ys : List A) → All P (xs ++ ys) → All P ys
All-right P [] ys h = h
All-right P (x ∷ xs) ys h = All-right P xs ys h.1

head_of : {A : Type 0} {x y : A} {xs ys : List A} → x ∷ xs ≡ y ∷ ys → x ≡ y
head_of e = cc

module _ (env : Env) (v : VolumeState) (disk : Bytes) where
  -- The requests of `done` have taken effect, one after the other, and the others wait; the answers that
  -- were taken and those that wait are what the requests of `done` hear.
  pub record Ordered (sent : List Request) (taken : List Reply) (done : List Request)
      (t : System env) : Type 0 where
    pub served : done ++ queued env t ≡ sent
    pub bytes : env.host.contents v.fd t.server.disk ≡ after_all done disk
    pub told : taken ++ answers env t ≡ heard_all done disk

  pub started-Ordered :
      (sent : List Request) (taken : List Reply) (done : List Request) (t : System env)
      (c : Client env)
      → Starts env t c
      → Ordered sent taken done t
      → Ordered
          (sent ++ sends env t (after_client env t c))
          (taken ++ [])
          done
          (after_client env t c)
  started-Ordered sent taken done t c (grown, same, kept) o = record {
    served =
        ap (λ xs. done ++ xs) grown
        ∙ sym (append_assoc done (queued env t) (sends env t (after_client env t c)))
        ∙ ap (λ xs. xs ++ sends env t (after_client env t c)) o.served;
    bytes = o.bytes;
    told = rw (append-nil taken, same) o.told;
  }

module _ (env : Env) (v : VolumeState) (volume : ℕ) (nonnull : volume ≢ 0) (disk : Bytes) where
  pub length-after_all :
      (ms : List Request)
      → All (IsInside volume (length disk)) ms
      → length (after_all ms disk) ≡ length disk
  length-after_all ms inside = go ms disk refl inside
    where
      go :
          (ms : List Request) (b : Bytes)
          → length b ≡ length disk
          → All (IsInside volume (length disk)) ms
          → length (after_all ms b) ≡ length disk
      go [] b same inside = same
      go (m ∷ ms) b same inside =
          go ms (after m b) (length-after env volume v nonnull m b (rw same (inside.0)) ∙ same)
            inside.1

  module _ (reliable : Reliable env.host v.fd) (b : Bytes) (x u : Server env)
      (here_bytes : env.host.contents v.fd x.disk ≡ b) where
    -- What the server reads and sends.
    stored-exact :
        (r : ReadRequest)
        → r.offset ≡ pos (at r.offset)
        → at r.offset + r.size_in_bytes ≤ length b
        → (stored env x u v r ≡ take r.size_in_bytes (drop (at r.offset) b))
          × (length (stored env x u v r) ≡ r.size_in_bytes)
    stored-exact r o inside =
        let n = r.size_in_bytes in
        let (loaded, d, got, full) =
          reliable.whole.read_whole n (at r.offset) x.disk
            (omega (arith, inside, ap (length {A = ℕ}) here_bytes)) in
        let (short, text, unchanged) =
          env.host.pread_lem v.fd n (at r.offset) loaded x.disk d got in
        let whole_call : env.host.pread v.fd n r.offset x.disk ≡ (ret loaded, d) = rw o got in
        let is : stored env x u v r ≡ loaded =
          ap (λ y. elim (y.0) [ ret c ↦ c | fail e ↦ [] ]) whole_call in
        (is ∙ text ∙ rw (full, here_bytes) refl, ap (length {A = ℕ}) is ∙ full)

    synced-zero : synced env x u v ≡ pos 0
    synced-zero =
        let (d, done, unchanged) = reliable.synced x.disk in
        ap (λ y. elim (y.0) [ ret _ ↦ pos 0 | fail e ↦ neg e ]) done

    sized-exact : sized env x u v ≡ pos (length b)
    sized-exact =
        let (d, asked, unchanged) = reliable.sized x.disk in
        ap (λ y. elim (y.0) [ ret n ↦ pos n | fail e ↦ pos 0 ]) asked
        ∙ ap (λ c. pos (length {A = ℕ} c)) here_bytes

  module _ (reliable : Reliable env.host v.fd) (b : Bytes) (t : System env) (inv : Inv env v t)
      (here_bytes : env.host.contents v.fd t.server.disk ≡ b) (ms : List Request) (go : Bool)
      (u : Server env) (run : handle_requests env 1 t.server ≡ ok go u) where
    -- A request that was served has found room for its answer.
    pub accepts :
        (m : Request) (a : Reply)
        → queued env t ≡ m ∷ ms
        → IsInside volume (length b) m
        → heard m b ≡ a ∷ []
        → (rshm : env.replies.Shm) × (env.replies.send v.reply_mq a t.server.outgoing ≡ some rshm)
    accepts (read_request r) a first inside hears =
        let ((goes, type, same), o, small, fits) = inside in
        let (shm, left, handled) =
          serve-returns env t.server u (read_request r) ms go (rw inv.one_request_mq first) goes
            run in
        let before : Server env = record (t.server) { incoming = shm } in
        let vol = (rw first at (inv.sent)).0.2 in
        let (sent, kept) =
          read-returns env before u v r (rw vol inv.nonnull) (rw vol inv.live)
            (sym (dispatch-read env before r type) ∙ handled) in
        let (exact, size) = stored-exact reliable b before u here_bytes r o fits in
        let reply : ℕ → Bytes → Reply =
          λ k c. read_reply (record { header = r.header; size_in_bytes = k; bytes = c }) in
        let same_reply : a ≡ reply (length (stored env before u v r)) (stored env before u v r) =
          sym (head_of hears) ∙ sym (ap₂ reply size exact) in
        (u.outgoing, ap (λ y. env.replies.send v.reply_mq y t.server.outgoing) same_reply ∙ sent)
    accepts (fsync_request h) a first inside hears =
        let (goes, type, same) = inside in
        let (shm, left, handled) =
          serve-returns env t.server u (fsync_request h) ms go (rw inv.one_request_mq first) goes
            run in
        let before : Server env = record (t.server) { incoming = shm } in
        let vol = (rw first at (inv.sent)).0.2 in
        let (sent, kept) =
          fsync-returns env before u v h (rw vol inv.nonnull) (rw vol inv.live)
            (sym (dispatch-fsync env before h type) ∙ handled) in
        let zero = synced-zero reliable b before u here_bytes in
        let same_reply : a ≡ fsync_reply (record { header = h; err = synced env before u v }) =
          sym (head_of hears) ∙ sym (ap (λ e. fsync_reply (record { header = h; err = e })) zero) in
        (u.outgoing, ap (λ y. env.replies.send v.reply_mq y t.server.outgoing) same_reply ∙ sent)
    accepts (getsize_request h) a first inside hears =
        let (goes, type, same) = inside in
        let (shm, left, handled) =
          serve-returns env t.server u (getsize_request h) ms go (rw inv.one_request_mq first) goes
            run in
        let before : Server env = record (t.server) { incoming = shm } in
        let vol = (rw first at (inv.sent)).0.2 in
        let (sent, kept) =
          getsize-returns env before u v h (rw vol inv.nonnull) (rw vol inv.live)
            (sym (dispatch-getsize env before h type) ∙ handled) in
        let same_reply : a
            ≡ getsize_reply (record { header = h; size_in_bytes = sized env before u v }) =
          sym (head_of hears)
          ∙ sym (
              ap (λ n. getsize_reply (record { header = h; size_in_bytes = n }))
                (sized-exact reliable b before u here_bytes)) in
        (u.outgoing, ap (λ y. env.replies.send v.reply_mq y t.server.outgoing) same_reply ∙ sent)
    accepts (write_request w) a first inside hears = absurd (cc (hears))
    accepts other a first inside hears = absurd ((rw first at (inv.sent)).0)
