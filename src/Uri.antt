-- ===== src/Uri.antt =====
-- cvbd.c and cvbd_syncio.c: the name of a volume in a URL, and the options that `cvbd_open` reads.
-- The two files have the same text here. `uri_parse` is QEMU's, a parameter.
pub mod Parse
mod Tests
use qemu_cvbd_shraed_memory.Common.{
  ℕ, ◌≡◌, Bool, true, false, ◌||◌, ◌&&◌, Option, none, some, List, [], ◌∷◌, ◌==◌, if◌then◌else◌,
}
use qemu_cvbd_shraed_memory.Common.Int.{ℤ, pos, negsuc}
use qemu_cvbd_shraed_memory.Common.Outcome.{Stop, crashed}
use qemu_cvbd_shraed_memory.Iov.{Bytes}
use qemu_cvbd_shraed_memory.Message.{codes}

-- The fields of QEMU's `URI` that are read; each may be a null pointer.
pub record Uri : Type 0 where
  pub scheme : Option Bytes
  pub path : Option Bytes

-- The two options that matter here: "export" and "filename".
pub record Dict : Type 0 where
  pub export : Option Bytes

abbrev pub eq_bytes : Bytes → Bytes → Bool
eq_bytes [] [] = true
eq_bytes [] (y ∷ ys) = false
eq_bytes (x ∷ xs) [] = false
eq_bytes (x ∷ xs) (y ∷ ys) = x == y && eq_bytes xs ys

abbrev pub is_prefix : Bytes → Bytes → Bool
is_prefix [] ys = true
is_prefix (x ∷ xs) [] = false
is_prefix (x ∷ xs) (y ∷ ys) = x == y && is_prefix xs ys

-- `strstr(haystack, needle) != NULL`.
unfoldable pub strstr : Bytes → Bytes → Bool
strstr [] needle = is_prefix needle []
strstr (x ∷ xs) needle = is_prefix needle (x ∷ xs) || strstr xs needle

-- `p += strspn(p, "/")`.
unfoldable pub skip_slashes : Bytes → Bytes
skip_slashes [] = []
skip_slashes (c ∷ p) = let rest = skip_slashes p in if c == b'/' then rest else c ∷ p

-- The result of a parser of this file: its return value and the options, or undefined behaviour.
pub data Parsed : Type 0 where
  parsed : ℤ → Dict → Parsed
  parse_stopped : Stop → Parsed

abbrev pub minus_einval : ℤ
minus_einval = negsuc 21

-- `if (p[0]) qdict_put(dict, "export", …)`.
unfoldable pub put_export : Bytes → Dict → Dict
put_export [] dict = dict
put_export (c ∷ p) dict = record dict { export = some (c ∷ p) }

-- `uri->path ? uri->path : "/"`.
unfoldable pub path_of : Uri → Bytes
path_of uri = elim (uri.path) [ none ↦ codes "/" | some p ↦ p ]

module _ (uri_parse : Bytes → Option Uri) where
  -- `cvbd_parse_uri`. `strcmp` reads the scheme without a test for null.
  unfoldable pub parse_uri : Bytes → Dict → Parsed
  unfolding put_export path_of
  parse_uri filename dict = elim (uri_parse filename) [
    | none ↦ parsed minus_einval dict
    | some uri ↦ elim (uri.scheme) [
      | none ↦ parse_stopped crashed
      | some scheme ↦
          if eq_bytes scheme (codes "cvbd")
          then parsed (pos 0) (put_export (skip_slashes (path_of uri)) dict)
          else parsed minus_einval dict
    ]
  ]

  -- `cvbd_parse_filename`: the options, and whether an error was set.
  unfoldable pub parse_filename : Bytes → Dict → Option (Dict × Bool)
  unfolding parse_uri
  parse_filename filename dict =
      if strstr filename (codes "://")
      then elim (parse_uri filename dict) [
        | parse_stopped e ↦ none
        | parsed r dict' ↦ elim r [ pos n ↦ some (dict', false) | negsuc n ↦ some (dict', true) ]
      ]
      else some (dict, true)
