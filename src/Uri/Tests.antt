-- ===== src/Uri/Tests.antt =====
-- Examples for the filename of a volume, with a parser that knows one URI.
use qemu_cvbd_shraed_memory.Common.{◌≡◌, ◌↔◌, refl, true, false, Option, none, some}
use qemu_cvbd_shraed_memory.Iov.{Bytes}
use qemu_cvbd_shraed_memory.Message.{codes}
use qemu_cvbd_shraed_memory.Uri.{
  Uri, Dict, strstr, skip_slashes, put_export, path_of, parse_uri, parse_filename,
}
use qemu_cvbd_shraed_memory.Uri.Parse.{Accepted, parse_filename-accepts}

abbrev one_uri : Bytes → Option Uri
one_uri filename = some (record { scheme = some (codes "cvbd"); path = some (codes "//v1") })

abbrev no_export : Dict
no_export = record { export = none }

abbrev exported : Dict
exported = record { export = some (codes "v1") }

accepted_run : parse_filename one_uri (codes "cvbd:////v1") no_export ≡ some (exported, false)
unfolding parse_filename parse_uri strstr skip_slashes put_export path_of
accepted_run = refl

no_scheme_run :
    parse_filename (λ _. some (record { scheme = none; path = none })) (codes "x://") no_export
    ≡ none
unfolding parse_filename parse_uri strstr
no_scheme_run = refl

parse_filename-accepts_example :
    (parse_filename one_uri (codes "cvbd:////v1") no_export ≡ some (exported, false)) ↔ (
      (strstr (codes "cvbd:////v1") (codes "://") ≡ true)
      × Accepted one_uri (codes "cvbd:////v1") no_export exported)
parse_filename-accepts_example =
    parse_filename-accepts one_uri (codes "cvbd:////v1") no_export exported
