-- ===== src/Stdlibc/Pathname/Tests.antt =====
-- The functions on path names at `/ab/c` and at a path without a slash in front.
use mein_os.Prelude.{◌≡◌, refl, [], ◌∷◌}
use mein_os.Procm.Lookup.{same_name}
use mein_os.Libmeinos.Path.{
  slash, count_slashes, parse, cut, until_slash, after_slash, reject_dots, reject_from, reject_part,
  output, real_parts, write_parts, separator,
}
use mein_os.Stdlibc.Pathname.{dirname, realpath}
use mein_os.Stdlibc.Pathname.Last.{dirname_lem}

dirname_lem_example : dirname (slash ∷ 97 ∷ 98 ∷ slash ∷ 99 ∷ []) ≡ slash ∷ 97 ∷ 98 ∷ []
unfolding parse count_slashes cut until_slash after_slash
dirname_lem_example = dirname_lem (97 ∷ 98 ∷ slash ∷ 99 ∷ [])

-- In the directory `/b` the file `a` becomes `/ba`.
glued : realpath (slash ∷ 98 ∷ []) (97 ∷ []) ≡ slash ∷ 98 ∷ 97 ∷ []
unfolding realpath reject_dots reject_from reject_part same_name output real_parts write_parts
    separator parse count_slashes cut until_slash after_slash
glued = refl
