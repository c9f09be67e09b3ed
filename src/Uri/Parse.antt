-- ===== src/Uri/Parse.antt =====
-- cvbd.c: what a filename must be for `cvbd_parse_filename` to take it, and what it stores.
use qemu_cvbd_shraed_memory.Common.{
  ℕ, zero, suc, ◌≡◌, sym, ◌↔◌, ◌≢◌, refl, ap₂, ◌⊎◌, inl, inr, true, false, Option, some, [], ◌∷◌,
  ◌++◌, replicate, arith, ◌==◌, Bool-cases, Option-cases,
}
use qemu_cvbd_shraed_memory.Common.Int.{pos, negsuc}
use qemu_cvbd_shraed_memory.Iov.{Bytes}
use qemu_cvbd_shraed_memory.Message.{codes}
use qemu_cvbd_shraed_memory.Uri.{
  Uri, Dict, Parsed, parsed, parse_stopped, eq_bytes, strstr, skip_slashes, put_export, path_of,
  parse_uri, parse_filename,
}

eq_bytes_sound : (a b : Bytes) → eq_bytes a b ≡ true → a ≡ b
eq_bytes_sound [] [] e = refl
eq_bytes_sound [] (y ∷ b) e = absurd (cc)
eq_bytes_sound (x ∷ a) [] e = absurd (cc)
eq_bytes_sound (x ∷ a) (y ∷ b) e =
    let head : x ≡ y = ground arith in
    let tail : eq_bytes a b ≡ true = ground arith in ap₂ ◌∷◌ head (eq_bytes_sound a b tail)

-- A name that does not begin with a slash.
abbrev pub Plain : Bytes → Type 0
Plain [] = Unit {0}
Plain (c ∷ p) = c ≢ b'/'

skip_slashes-split :
    (p : Bytes) → (k : ℕ) × (p ≡ replicate k b'/' ++ skip_slashes p) × Plain (skip_slashes p)
unfolding skip_slashes
skip_slashes-split [] = (0, refl, tt)
skip_slashes-split (c ∷ p) = elim (Bool-cases (c == b'/')) [
  | inl slash ↦
      let (k, e, plain) = skip_slashes-split p in
      let head : c ≡ b'/' = ground arith in rw (slash, skip_slashes) (suc k, ap₂ ◌∷◌ head e, plain)
  | inr other ↦ rw (other, skip_slashes) (0, refl, ground arith)
]

abbrev pub Exported : Bytes → Dict → Dict → Type 0
Exported name dict dict' =
    ((name ≡ []) × (dict' ≡ dict)) ⊎ ((name ≢ []) × (dict' ≡ record dict { export = some name }))

put_export-Exported : (name : Bytes) (dict : Dict) → Exported name dict (put_export name dict)
unfolding put_export
put_export-Exported [] dict = inl (refl, refl)
put_export-Exported (c ∷ name) dict = inr (ground arith, refl)

abbrev pub Accepted : (Bytes → Option Uri) → Bytes → Dict → Dict → Type 0
Accepted uri_parse filename dict dict' =
    (uri : Uri) × (uri_parse filename ≡ some uri)
    × (uri.scheme ≡ some (codes "cvbd"))
    × (k : ℕ) × (name : Bytes) × (path_of uri ≡ replicate k b'/' ++ name)
    × Plain name
    × Exported name dict dict'

parse_uri-accepts :
    (uri_parse : Bytes → Option Uri) (filename : Bytes) (dict dict' : Dict) (n : ℕ)
    → parse_uri uri_parse filename dict ≡ parsed (pos n) dict'
    → Accepted uri_parse filename dict dict'
unfolding parse_uri
parse_uri-accepts uri_parse filename dict dict' n e = elim (Option-cases (uri_parse filename)) [
  | inl missing ↦ absurd (ground arith)
  | inr (uri, p) ↦ elim (Option-cases (uri.scheme)) [
    | inl missing ↦ absurd (ground arith)
    | inr (scheme, q) ↦ elim (Bool-cases (eq_bytes scheme (codes "cvbd"))) [
      | inr other ↦ absurd (ground arith)
      | inl same ↦
          let (k, path, plain) = skip_slashes-split (path_of uri) in
          let stored : put_export (skip_slashes (path_of uri)) dict ≡ dict' = ground arith in
          (
            uri,
            p,
            rw (← eq_bytes_sound scheme (codes "cvbd") same) q,
            k,
            skip_slashes (path_of uri),
            path,
            plain,
            rw (← stored) (put_export-Exported (skip_slashes (path_of uri)) dict),
          )
    ]
  ]
]

skip_slashes-strip :
    (k : ℕ) (name : Bytes) → Plain name → skip_slashes (replicate k b'/' ++ name) ≡ name
unfolding skip_slashes
skip_slashes-strip zero [] plain = refl
skip_slashes-strip zero (c ∷ name) plain = ground arith
skip_slashes-strip (suc k) name plain = ground (arith, skip_slashes-strip k name plain)

put_export_unique :
    (name : Bytes) (dict dict' : Dict) → Exported name dict dict' → put_export name dict ≡ dict'
unfolding put_export
put_export_unique [] dict dict' (inl (e, same)) = sym same
put_export_unique [] dict dict' (inr (ne, set)) = absurd (ne refl)
put_export_unique (c ∷ name) dict dict' (inl (e, same)) = absurd (ground arith)
put_export_unique (c ∷ name) dict dict' (inr (ne, set)) = sym set

parse_filename-takes :
    (uri_parse : Bytes → Option Uri) (filename : Bytes) (dict dict' : Dict)
    → strstr filename (codes "://") ≡ true
    → Accepted uri_parse filename dict dict'
    → parse_filename uri_parse filename dict ≡ some (dict', false)
unfolding parse_filename parse_uri
parse_filename-takes uri_parse filename dict dict' sep
      (uri, p, scheme, k, name, path, plain, exported) =
    let rest : skip_slashes (path_of uri) ≡ name = rw path (skip_slashes-strip k name plain) in
    let put = put_export_unique name dict dict' exported in rw (sep, p, scheme, rest, put) refl

-- Exactly these filenames are taken without an error: those that contain "://" and parse as a URI
-- with the scheme "cvbd". The option "export" is then the URI's path ("/" for a URI without one)
-- without its leading slashes, and the options are left alone if nothing remains of the path.
pub parse_filename-accepts :
    (uri_parse : Bytes → Option Uri) (filename : Bytes) (dict dict' : Dict)
    → (parse_filename uri_parse filename dict ≡ some (dict', false))
      ↔ ((strstr filename (codes "://") ≡ true) × Accepted uri_parse filename dict dict')
unfolding parse_filename
parse_filename-accepts uri_parse filename dict dict' = (
  (λ e. go (parse_uri uri_parse filename dict) refl e),
  λ (sep, accepted). parse_filename-takes uri_parse filename dict dict' sep accepted,
)
  where
    go :
        (r : Parsed)
        → parse_uri uri_parse filename dict ≡ r
        → parse_filename uri_parse filename dict ≡ some (dict', false)
        → (strstr filename (codes "://") ≡ true) × Accepted uri_parse filename dict dict'
    go (parse_stopped x) p e = absurd (ground arith)
    go (parsed (negsuc n) other) p e = absurd (ground arith)
    go (parsed (pos n) other) p e =
        (ground arith, parse_uri-accepts uri_parse filename dict dict' n (ground arith))
