-- ===== src/Tests/Texts.antt =====
-- carbonc/common.cc and carbonc/fs.cc: the theorems on strings and paths at concrete ones.
use carbonlang.Prelude.{◌≡◌, refl, [], ◌∷◌, All, Bytes, codes}
use carbonlang.Text.{slash, find_last_of, split, get_directory, basename, split_extension, join}
use carbonlang.Text.Split.{unsplit, ended, Lacks, unsplit-split}
use carbonlang.Text.Paths.{IsSplit, split_extension-IsSplit, join-get_directory}

abbrev file : Bytes
file = codes "src/std.io/print.cb"

splits_file : split (codes "a/bc") slash ≡ codes "a" ∷ codes "bc" ∷ []
unfolding split
splits_file = refl

unsplit-split_example :
    All (Lacks slash) (split file slash) × (unsplit slash (split file slash) ≡ ended slash file)
unsplit-split_example = unsplit-split file slash

split_extension-IsSplit_example :
    IsSplit file (split_extension file).0 (split_extension file).1 (split_extension file).2
split_extension-IsSplit_example = split_extension-IsSplit file

join-get_directory_example : join (get_directory file) (basename file) ≡ file
join-get_directory_example = join-get_directory file 9 (unfold find_last_of in refl) refl refl
