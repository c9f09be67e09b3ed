-- ===== src/System/Flight/Futures.antt =====
-- The answers that the reply thread has still to take, those that the server has yet to send included.
use qemu_cvbd_shraed_memory.Common.{
  ℕ, ◌≡◌, refl, sym, ap, ◌∙◌, List, [], ◌∷◌, ◌++◌, append_assoc, All, arith,
}
use qemu_cvbd_shraed_memory.Iov.{Bytes}
use qemu_cvbd_shraed_memory.Message.{Request, Reply, read_request, fsync_request, getsize_request}
use qemu_cvbd_shraed_memory.Host.{Env}
use qemu_cvbd_shraed_memory.AsyncClient.{Client}
use qemu_cvbd_shraed_memory.Server.{VolumeState}
use qemu_cvbd_shraed_memory.System.{System, after_client}
use qemu_cvbd_shraed_memory.System.Sequential.{after_all, heard, heard_all}
use qemu_cvbd_shraed_memory.System.Flight.{asks, asked, tells, told, queued, answers}
use qemu_cvbd_shraed_memory.System.Flight.Counts.{told-append}
use qemu_cvbd_shraed_memory.System.Flight.Logs.{heard_all-append}
use qemu_cvbd_shraed_memory.System.Flight.Order.{Ordered}

-- What a block hears is what it asked for.
told-heard : (m : Request) (disk : Bytes) (a : ℕ) → told (heard m disk) a ≡ asks m a
told-heard (read_request r) disk a = omega arith
told-heard (fsync_request h) disk a = omega arith
told-heard (getsize_request h) disk a = omega arith
told-heard other disk a = refl

pub told-heard_all :
    (ms : List Request) (disk : Bytes) (a : ℕ) → told (heard_all ms disk) a ≡ asked ms a
told-heard_all [] disk a = refl
told-heard_all (m ∷ ms) disk a = omega (
  arith,
  told-append (heard m disk) (heard_all ms (after_all (m ∷ []) disk)) a,
  told-heard m disk a,
  told-heard_all ms (after_all (m ∷ []) disk) a,
)

-- A reply that names a block is this one.
abbrev pub IsRight : ℕ → Reply → Reply → Type 0
IsRight a answer r = tells r a ≡ 1 → r ≡ answer

pub All-unnamed :
    (a : ℕ) (answer : Reply) (rs : List Reply) → told rs a ≡ 0 → All (IsRight a answer) rs
All-unnamed a answer [] zero_told = tt
All-unnamed a answer (r ∷ rs) zero_told =
    (λ named. absurd (omega (arith, zero_told, named)), All-unnamed a answer rs (omega arith))

append_cancel : {A : Type 0} (xs ys zs : List A) → xs ++ ys ≡ xs ++ zs → ys ≡ zs
append_cancel [] ys zs e = e
append_cancel (x ∷ xs) ys zs e = append_cancel xs ys zs (cc)

module _ (env : Env) (v : VolumeState) where
  abbrev pub future : System env → List Reply
  future s = answers env s ++ heard_all (queued env s) (env.host.contents v.fd s.server.disk)

  -- With the answers that were taken, they are what all the posted requests hear.
  future-Ordered :
      (disk : Bytes) (sent : List Request) (taken : List Reply) (done : List Request)
      (t : System env)
      → Ordered env v disk sent taken done t
      → taken ++ future t ≡ heard_all sent disk
  future-Ordered disk sent taken done t o =
      sym (append_assoc taken (answers env t) _)
      ∙ ap (λ xs. xs ++ heard_all (queued env t) (env.host.contents v.fd t.server.disk)) o.told
      ∙ ap (λ b. heard_all done disk ++ heard_all (queued env t) b) o.bytes
      ∙ sym (heard_all-append done (queued env t) disk)
      ∙ ap (λ ms. heard_all ms disk) o.served

  -- Serving moves an answer from one part to the other.
  pub future-serve :
      (disk : Bytes) (sent : List Request) (taken : List Reply) (done done' : List Request)
      (t u : System env)
      → Ordered env v disk sent taken done t
      → Ordered env v disk sent taken done' u
      → future u ≡ future t
  future-serve disk sent taken done done' t u o o' =
      append_cancel taken (future u) (future t)
        (future-Ordered disk sent taken done' u o' ∙ sym (future-Ordered disk sent taken done t o))

  -- A started request adds what it will hear.
  pub future-start :
      (t : System env) (c : Client env) (extra : List Request)
      → queued env (after_client env t c) ≡ queued env t ++ extra
      → answers env (after_client env t c) ≡ answers env t
      → future (after_client env t c)
        ≡ future t
          ++ heard_all extra (after_all (queued env t) (env.host.contents v.fd t.server.disk))
  future-start t c extra grown same =
      let disk = env.host.contents v.fd t.server.disk in
      rw (same, grown)
        (ap (λ xs. answers env t ++ xs) (heard_all-append (queued env t) extra disk)
          ∙ sym (
              append_assoc (answers env t) (heard_all (queued env t) disk)
                (heard_all extra (after_all (queued env t) disk))))
