-- ===== src/Libmeinos/Path/Tests.antt =====
-- The theorems on paths at the string `/a/../b`, and what becomes of `./a`.
use mein_os.Prelude.{ℕ, suc, ◌+◌, ◌≤◌, ◌≡◌, refl, true, List, [], ◌∷◌, length}
use mein_os.Procm.Lookup.{same_name}
use mein_os.Libmeinos.Path.{
  ParsedPath, cut, until_slash, after_slash, real_parts, reject_from, reject_part, write_parts,
  separator, slash, dot, count_slashes, parse, reject_dots, output, output_size,
}
use mein_os.Libmeinos.Path.Names.{join}
use mein_os.Libmeinos.Path.Parse.{NoSlash, join-parse}
use mein_os.Libmeinos.Path.Output.{output-fits}
use mein_os.Libmeinos.Path.Dots.{output-reject_dots-parse}

-- `/a/../b`
abbrev text : List ℕ
text = slash ∷ 97 ∷ slash ∷ dot ∷ dot ∷ slash ∷ 98 ∷ []

abbrev path : ParsedPath
path = record { parts = [] ∷ (97 ∷ []) ∷ (dot ∷ dot ∷ []) ∷ (98 ∷ []) ∷ []; root = true }

path-parse : parse text ≡ path
unfolding parse count_slashes cut until_slash after_slash
path-parse = refl

-- The output of `./a` without its dot is the path `/a`.
relative : output (reject_dots (parse (dot ∷ slash ∷ 97 ∷ []))) ≡ slash ∷ 97 ∷ []
unfolding output reject_dots parse count_slashes real_parts reject_from cut reject_part same_name
    until_slash after_slash write_parts separator
relative = refl

join-parse_example :
    (join (parse text).parts ≡ text)
    × (length (parse text).parts ≡ suc (count_slashes text))
    × NoSlash (parse text).parts
join-parse_example = join-parse text

output-fits_example : length (output path) + 1 ≤ output_size path
output-fits_example = output-fits path

output-reject_dots-parse_example : output (reject_dots (parse text)) ≡ slash ∷ 98 ∷ []
unfolding parse count_slashes same_name cut until_slash after_slash
output-reject_dots-parse_example =
    output-reject_dots-parse (97 ∷ slash ∷ dot ∷ dot ∷ slash ∷ 98 ∷ [])
