-- ===== src/Mastodon/Post.antt =====
-- images/blog-klimlive/internal/mastodon/sync.go: the posts of the blog, as texts of bytes in files that are
-- found under their paths.
use hmlb.Prelude.{
  ℕ, ◌+◌, ◌-◌, Bool, false, not, ◌&&◌, ◌||◌, [], ◌∷◌, ◌++◌, Text, text, text_eq, ◌==◌, ltb, leb,
  nat_beq, if◌then◌else◌, length, drop, take, Option, none, some,
}
use mathlib.Core.List.{reverse}
use hmlb.Prelude.Maps.{Map, lookup}
use hmlb.Prelude.Strings.{has_prefix}

abbrev pub Files : Type 0
Files = Map Text Text

-- The shortest front matter, of one byte or more, that is closed by a line of three dashes.
unfoldable pub split_front : Text → Text → Option (Text × Text)
split_front front [] = none
split_front front (c ∷ s) =
    let later = split_front (front ++ c ∷ []) s in
    if not (nat_beq (length front) 0) && has_prefix (c ∷ s) (text "\n---\n")
    then some (front, drop 5 (c ∷ s))
    else later

-- `frontmatterRe`: the front matter and the rest.
unfoldable pub frontmatter : Text → Option (Text × Text)
unfolding split_front
frontmatter raw = if has_prefix raw (text "---\n") then split_front [] (drop 4 raw) else none

-- `strings.Replace` of the first occurrence.
unfoldable pub replace_first : Text → Text → Text → Text
replace_first old new [] = if nat_beq (length old) 0 then new else []
replace_first old new (c ∷ s) =
    let later = replace_first old new s in
    if has_prefix (c ∷ s) old then new ++ drop (length old) (c ∷ s) else c ∷ later

unfoldable pub has_suffix : Text → Text → Bool
has_suffix s p = has_prefix (reverse s) (reverse p)

unfoldable pub trim_slashes : Text → Text
trim_slashes s = reverse (go (reverse s))
  where
    go : Text → Text
    go [] = []
    go (c ∷ r) = if nat_beq c 47 then go r else c ∷ r

unfoldable pub count_dots : Text → ℕ
count_dots [] = 0
count_dots (c ∷ s) = (if nat_beq c 46 then 1 else 0) + count_dots s

abbrev pub has_slash : Text → Bool
has_slash [] = false
has_slash (c ∷ s) = nat_beq c 47 || has_slash s

-- The file name of a path that begins with `dir` and a slash.
abbrev pub name_in : Text → Text → Text
name_in dir path = drop (length dir + 1) path

-- `filepath.Glob` of `index.*.md` in a directory.
unfoldable pub is_translation : Text → Text → Bool
unfolding has_suffix
is_translation dir path =
    let name = name_in dir path in
    has_prefix path (dir ++ text "/")
    && has_prefix name (text "index.")
    && has_suffix name (text ".md")
    && leb 9 (length name)
    && not (has_slash name)

-- An entry of the posts directory.
pub data Entry : Type 0 where
  directory file : Text → Entry

-- The directory of a post and the name of its file.
unfoldable pub post_of : Text → Files → Entry → Option (Text × Text × Text)
unfolding has_suffix count_dots
post_of posts files (directory name) =
    let dir = posts ++ (text "/" ++ name) in
    elim (lookup (dir ++ text "/index.md") files) [
      | none ↦ none
      | some _ ↦ some (dir, name, text "index.md")
    ]
post_of posts files (file name) =
    if has_suffix name (text ".md") && not (ltb 1 (count_dots name))
    then some (posts, text "posts", name)
    else none

-- The last part of a post's address.
unfoldable pub slug : Text → Text → Text
unfolding has_suffix
slug dir_name name =
    let base = if has_suffix name (text ".md") then take (length name - 3) name else name in
    if base == text "index" then dir_name else base

unfoldable pub post_url : Text → Text → Text
unfolding trim_slashes
post_url base slug = trim_slashes base ++ (text "/posts/" ++ (slug ++ text "/"))
