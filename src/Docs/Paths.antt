-- ===== src/Docs/Paths.antt =====
-- What hack/gendocs uses of Go's strings, path and path/filepath, at texts of ASCII characters.
use unsealer.Prelude.{
  ℕ, ◌-◌, Bool, false, not, ◌&&◌, ◌||◌, List, [], ◌∷◌, ◌++◌, ◌==◌, leb, if◌then◌else◌,
}
use unsealer.Text.{Text, text, text_eq}
use unsealer.Validation.{is_blank}

-- `strings.Replace(s, "_", string(d), -1)`
unfoldable pub replace_underscore : ℕ → Text → Text
replace_underscore d [] = []
replace_underscore d (c ∷ s) = (if c == b'_' then d else c) ∷ replace_underscore d s

-- `strings.ContainsRune(s, '_')`
unfoldable pub has_underscore : Text → Bool
has_underscore [] = false
has_underscore (c ∷ s) = c == b'_' || has_underscore s

abbrev pub between : ℕ → ℕ → ℕ → Bool
between low high c = leb low c && leb c high

-- `isSeparator` of package strings.
abbrev pub is_separator : ℕ → Bool
is_separator c =
    not (between b'0' b'9' c || (between b'a' b'z' c || (between b'A' b'Z' c || c == b'_')))

abbrev pub to_title : ℕ → ℕ
to_title c = if between b'a' b'z' c then c - 32 else c

-- `strings.Title` after the character `prev`.
unfoldable pub title_after : ℕ → Text → Text
title_after prev [] = []
title_after prev (c ∷ s) = (if is_separator prev then to_title c else c) ∷ title_after c s

unfoldable pub title : Text → Text
unfolding title_after
title s = title_after b' ' s

unfoldable pub contains_slash : Text → Bool
contains_slash [] = false
contains_slash (c ∷ s) = c == b'/' || contains_slash s

-- `path.Ext`: from the last dot on, if no slash follows it.
unfoldable pub ext : Text → Text
unfolding contains_slash
ext [] = []
ext (c ∷ s) =
    let rest = ext s in
    if not (is_blank rest) then rest else if c == b'.' && not (contains_slash s) then c ∷ s else []

-- `strings.TrimSuffix`
unfoldable pub trim_suffix : Text → Text → Text
trim_suffix suffix [] = []
trim_suffix suffix (c ∷ s) =
    let rest = trim_suffix suffix s in if text_eq (c ∷ s) suffix then [] else c ∷ rest

-- The elements of a path, in reverse: what stands between its slashes.
unfoldable pub split_slash : Text → Text → List Text → List Text
split_slash current [] done = current ∷ done
split_slash current (c ∷ s) done =
    split_slash (if c == b'/' then [] else current ++ c ∷ []) s
      (if c == b'/' then current ∷ done else done)

unfoldable pub reverse_onto : List Text → List Text → List Text
reverse_onto [] done = done
reverse_onto (s ∷ rest) done = reverse_onto rest (s ∷ done)

-- Where `..` leads from the elements so far, the last one first.
abbrev pub up : Bool → List Text → List Text
up rooted [] = if rooted then [] else text ".." ∷ []
up rooted (s ∷ kept) = if text_eq s (text "..") then text ".." ∷ s ∷ kept else kept

-- What one element makes of the elements so far.
abbrev pub push : Bool → List Text → Text → List Text
push rooted kept s =
    if is_blank s || text_eq s (text ".")
    then kept
    else if text_eq s (text "..")
    then up rooted kept
    else s ∷ kept

unfoldable pub resolve : Bool → List Text → List Text → List Text
resolve rooted kept [] = kept
resolve rooted kept (s ∷ rest) = resolve rooted (push rooted kept s) rest

unfoldable pub with_slashes : List Text → Text
with_slashes [] = []
with_slashes (s ∷ []) = s
with_slashes (s ∷ t ∷ rest) = s ++ b'/' ∷ with_slashes (t ∷ rest)

abbrev pub starts_with_slash : Text → Bool
starts_with_slash [] = false
starts_with_slash (c ∷ s) = c == b'/'

-- `filepath.Clean`
unfoldable pub clean : Text → Text
unfolding split_slash resolve reverse_onto with_slashes
clean path =
    let rooted = starts_with_slash path in
    let kept = resolve rooted [] (reverse_onto (split_slash [] path []) []) in
    let body = with_slashes (reverse_onto kept []) in
    if rooted then b'/' ∷ body else if is_blank body then b'.' ∷ [] else body

unfoldable pub drop_blank : List Text → List Text
drop_blank [] = []
drop_blank (s ∷ rest) = let kept = drop_blank rest in if is_blank s then kept else s ∷ kept

abbrev pub clean_joined : List Text → Text
clean_joined [] = []
clean_joined (s ∷ rest) = clean (with_slashes (s ∷ rest))

-- `filepath.Join`, which leaves out empty elements.
unfoldable pub join : List Text → Text
unfolding drop_blank clean with_slashes
join parts = clean_joined (drop_blank parts)
