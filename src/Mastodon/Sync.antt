-- ===== src/Mastodon/Sync.antt =====
-- images/blog-klimlive/internal/mastodon: each post of the blog is announced once. A text is the list of
-- its bytes; a file is found under its path.
pub mod Once
use hmlb.Prelude.{
  ◌+◌, Bool, true, false, not, ◌||◌, List, [], ◌∷◌, ◌++◌, Text, text, text_eq, nat_beq,
  if◌then◌else◌, length, keep, Option, none, some, ◌>>=◌,
}
use hmlb.Prelude.Maps.{keys, lookup, insert}
use hmlb.Prelude.Strings.{contains}
use hmlb.Mastodon.Toot.{compose_toot}
use hmlb.Mastodon.Post.{
  frontmatter, replace_first, is_translation, Entry, post_of, slug, post_url, Files,
}

pub record Status : Type 0 where
  pub id : Text
  pub content : Text

pub record PostFrontmatter : Type 0 where
  pub title : Text
  pub summary : Text
  pub draft : Bool
  pub mastodon_post_id : Text

-- The instance is a state `S` that requests may change; `none` is any failure.
pub record Instance (S : Type 0) : Type 0 where
  pub statuses : S → Option (List Status) × S
  pub post_status : Text → S → Option Text × S

-- The loop of `FindStatusByURL`; no id is the empty one.
unfoldable pub find_status : Text → List Status → Text
find_status url [] = []
find_status url (s ∷ ss) = if contains s.content url then s.id else find_status url ss

unfoldable pub find_status_by_url : {S : Type 0} → Instance S → Text → S → Option Text × S
unfolding find_status
find_status_by_url out url s =
    let (r, s') = out.statuses s in
    (elim r [ none ↦ none | some ss ↦ some (find_status url ss) ], s')

-- Whether a file can be written is a parameter, as is the YAML decoder.
module _ {S : Type 0} (out : Instance S) (writable : Text → Bool)
    (parse : Text → Option PostFrontmatter) where
  -- The file with the id in its front matter.
  unfoldable pub rewritten : Text → Text → Text × Text → Files → Option Files
  unfolding replace_first
  rewritten path id (front, rest) files =
      let old = text "mastodonPostId: \"\"" in
      let new = text "mastodonPostId: \"" ++ (id ++ text "\"") in
      let front' = replace_first old new front in
      if writable path
      then some (insert path (text "---\n" ++ (front' ++ (text "\n---\n" ++ rest))) files)
      else none

  -- `none` is an error.
  unfoldable pub set_mastodon_post_id : Text → Text → Files → Option Files
  unfolding frontmatter rewritten
  set_mastodon_post_id path id files = do
    raw ← lookup path files
    parts ← frontmatter raw
    rewritten path id parts files

  -- A translation that cannot be changed is passed over.
  unfoldable pub set_each : List Text → Text → Files → Files
  unfolding set_mastodon_post_id
  set_each [] id files = files
  set_each (p ∷ ps) id files = elim (set_mastodon_post_id p id files) [
    | none ↦ set_each ps id files
    | some files' ↦ set_each ps id files'
  ]

  abbrev pub found_id : Option Text → Text
  found_id none = []
  found_id (some id) = id

  -- The id that was found, or the one of a new toot. `none` is an error; a slice out of range, which
  -- `compose_toot_lem` excludes, counts as one.
  unfoldable pub found_or_new : PostFrontmatter → Text → Text → S → Option Text × S
  found_or_new fm url (c ∷ id) s = (some (c ∷ id), s)
  found_or_new fm url [] s = elim (compose_toot fm.title fm.summary url) [
    | none ↦ (none, s)
    | some toot ↦ out.post_status toot s
  ]

  -- A search that fails counts as one that finds nothing.
  unfoldable pub toot_id : PostFrontmatter → Text → S → Option Text × S
  unfolding find_status_by_url found_or_new
  toot_id fm url s =
      let (found, s') = find_status_by_url out url s in found_or_new fm url (found_id found) s'

  -- The post's own file, and its translations, get the toot's id.
  unfoldable pub mark_post : Text → Text → Text → Files → Option Files
  unfolding set_each is_translation
  mark_post dir path id files = do
    files' ← set_mastodon_post_id path id files
    some (set_each (keep (is_translation dir) (keys files')) id files')

  abbrev pub is_done : PostFrontmatter → Bool
  is_done fm = fm.draft || not (nat_beq (length fm.mastodon_post_id) 0)

  abbrev marked : Text → Text → Option Text → Files → Bool × Files
  marked dir path none files = (false, files)
  marked dir path (some id) files = elim (mark_post dir path id files) [
    | none ↦ (false, files)
    | some files' ↦ (true, files')
  ]

  abbrev pub read_post : Text → Files → Option PostFrontmatter
  read_post path files = do raw ← lookup path files; (front, rest) ← frontmatter raw; parse front

  unfoldable pub announce :
      Option PostFrontmatter → Text → Text → Text → Files → S → Bool × Files × S
  unfolding toot_id mark_post
  announce none dir path url files s = (false, files, s)
  announce (some fm) dir path url files s = elim (is_done fm) [
    | true ↦ (true, files, s)
    | false ↦
        let (id, s') = toot_id fm url s in
        let (ok, files') = marked dir path id files in (ok, files', s')
  ]

  -- Whether the post went without an error, the files and the instance.
  unfoldable pub sync_post : Text → Text × Text × Text → Files → S → Bool × Files × S
  unfolding announce slug post_url
  sync_post base (dir, dir_name, name) files s =
      let path = dir ++ (text "/" ++ name) in
      announce (read_post path files) dir path (post_url base (slug dir_name name)) files s

  -- A post that fails is skipped.
  unfoldable pub sync : Text → Text → List Entry → Files → S → Files × S
  unfolding sync_post post_of
  sync base posts [] files s = (files, s)
  sync base posts (e ∷ es) files s = elim (post_of posts files e) [
    | none ↦ sync base posts es files s
    | some p ↦ let (_, files', s') = sync_post base p files s in sync base posts es files' s'
  ]
