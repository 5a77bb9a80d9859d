-- ===== src/Resources.antt =====
-- resources/resources.go: the mounts of a removed container whose files are removed.
use Prim.Native.Nat.{Ordering}
use Prim.Native.String.{compare}
use text.Mathlib.Text.{starts_with}
use barrel.Prelude.{String, Bool, List, [], ◌∷◌, any, if◌then◌else◌}

-- `matchPrefix`
unfoldable pub match_prefix : List String → String → Bool
match_prefix prefixes path = any (λ prefix. starts_with path prefix) prefixes

-- `sort.Strings`
unfoldable pub insert_path : String → List String → List String
insert_path p [] = p ∷ []
insert_path p (q ∷ qs) =
    let rest = insert_path p qs in elim (compare p q) [ Ordering.gt ↦ q ∷ rest | _ ↦ p ∷ q ∷ qs ]

unfoldable pub sort_strings : List String → List String
unfolding insert_path
sort_strings [] = []
sort_strings (p ∷ ps) = insert_path p (sort_strings ps)

-- The loop of `minify` after `curr`.
unfoldable pub minify_after : String → List String → List String
minify_after curr [] = []
minify_after curr (p ∷ ps) =
    let rest = minify_after curr ps in
    let next = minify_after p ps in if starts_with p curr then rest else p ∷ next

abbrev pub minify_sorted : List String → List String
minify_sorted [] = []
minify_sorted (p ∷ ps) = p ∷ minify_after p ps

-- `minify`
unfoldable pub minify : List String → List String
unfolding minify_after sort_strings
minify paths = minify_sorted (sort_strings paths)

abbrev pub matching : List String → List String → List String
matching prefixes [] = []
matching prefixes (p ∷ ps) =
    let rest = matching prefixes ps in if match_prefix prefixes p then p ∷ rest else rest

-- `RecycleMounts`: the paths that `os.RemoveAll` is called of, in order.
unfoldable pub recycle_mounts : List String → List String → List String
unfolding minify match_prefix
recycle_mounts prefixes paths = matching prefixes (minify paths)
