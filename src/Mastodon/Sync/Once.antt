-- ===== src/Mastodon/Sync/Once.antt =====
-- A post is announced once: what a search finds, and the toots that a run makes.
use hmlb.Prelude.{
  ℕ, suc, ◌+◌, ◌≤◌, ◌≡◌, ◌≢◌, ◌⊎◌, refl, ap, ◌∙◌, Bool, true, false, List, [], ◌∷◌, ◌++◌, Text,
  text, text_eq, arith, length, inl, inr, Option, some, none, Option-cases, Bool-cases,
}
use hmlb.Prelude.All.{All}
use hmlb.Prelude.Strings.{contains}
use hmlb.Mastodon.Post.{Entry, Files, post_of, slug, post_url}
use hmlb.Mastodon.Toot.{compose_toot, compose_toot_lem}
use hmlb.Mastodon.Sync.{
  Instance, Status, PostFrontmatter, find_status, find_status_by_url, found_id, found_or_new,
  toot_id, is_done, read_post, announce, sync_post, sync,
}

-- The statuses that do not show an address.
abbrev pub Without : Text → List Status → Type 0
Without url ss = All (λ (s : Status). contains s.content url ≡ false) ss

-- The first status that shows an address.
abbrev pub Shows : Text → List Status → Status → Type 0
Shows url ss x =
    (front : List Status) × (back : List Status) × (ss ≡ front ++ x ∷ back)
    × Without url front
    × (contains x.content url ≡ true)

find_status_lem :
    (url : Text) (ss : List Status)
    → ((x : Status) × Shows url ss x × (find_status url ss ≡ x.id))
      ⊎ (Without url ss × (find_status url ss ≡ []))
unfolding find_status
find_status_lem url [] = inr (tt, refl)
find_status_lem url (s ∷ ss) = elim (Bool-cases (contains s.content url)) [
  | inl hit ↦ inl (s, ([], ss, refl, tt, hit), rw (hit, find_status) refl)
  | inr miss ↦ elim (find_status_lem url ss) [
    | inl (x, (front, back, cut, before, hit), found) ↦ inl (
      x,
      (s ∷ front, back, ap (λ us. s ∷ us) cut, (miss, before), hit),
      rw (miss, find_status) found,
    )
    | inr (all, nothing) ↦ inr ((miss, all), rw (miss, find_status) nothing)
  ]
]

shown_All :
    (P : Status → Type 0) (front back : List Status) (x : Status) → All P (front ++ x ∷ back) → P x
shown_All P [] back x all = all.0
shown_All P (s ∷ front) back x all = shown_All P front back x all.1

module _ {S : Type 0} (out : Instance S) (writable : Text → Bool)
    (parse : Text → Option PostFrontmatter) where
  found_or_new_found :
      (fm : PostFrontmatter) (url id : Text) (s : S)
      → id ≢ []
      → found_or_new out writable parse fm url id s ≡ (some id, s)
  unfolding found_or_new
  found_or_new_found fm url [] s full = absurd (full refl)
  found_or_new_found fm url (c ∷ id) s full = refl

  found_or_new_fresh :
      (fm : PostFrontmatter) (url toot : Text) (s : S)
      → compose_toot fm.title fm.summary url ≡ some toot
      → found_or_new out writable parse fm url [] s ≡ out.post_status toot s
  unfolding found_or_new
  found_or_new_fresh fm url toot s fine = rw (fine, found_or_new) refl

  -- Where a search gives statuses that all have ids: if the post's address stands in one of them,
  -- the post's id is that of the first such status, and nothing is posted; and if it stands in
  -- none, the post's toot is posted, and what comes of that is the result.
  pub toot_id_lem :
      (fm : PostFrontmatter) (url : Text) (ss : List Status) (s t : S)
      → out.statuses s ≡ (some ss, t)
      → All (λ (x : Status). x.id ≢ []) ss
      → ((x : Status) × Shows url ss x × (toot_id out writable parse fm url s ≡ (some x.id, t)))
        ⊎ (Without url ss
            × ((toot : Text) × (compose_toot fm.title fm.summary url ≡ some toot)
                × (toot_id out writable parse fm url s ≡ out.post_status toot t)))
  unfolding toot_id find_status_by_url
  toot_id_lem fm url ss s t got ids =
      let runs : toot_id out writable parse fm url s
          ≡ found_or_new out writable parse fm url (find_status url ss) t =
        rw (got, toot_id) refl in
      elim (find_status_lem url ss) [
        | inl (x, (front, back, cut, before, hit), found) ↦
            let full : x.id ≢ [] = shown_All (λ y. y.id ≢ []) front back x (rw cut at ids) in
            inl (
              x,
              (front, back, cut, before, hit),
              runs
                  ∙ ap (λ i. found_or_new out writable parse fm url i t) found
                  ∙ found_or_new_found fm url x.id t full,
            )
        | inr (all, nothing) ↦
            let (toot, fine, _) = compose_toot_lem fm.title fm.summary url in
            inr (
              all,
              (
                toot,
                fine,
                runs
                    ∙ ap (λ i. found_or_new out writable parse fm url i t) nothing
                    ∙ found_or_new_fresh fm url toot t fine,
              ),
            )
      ]

module _ {S : Type 0} (out : Instance S) (writable : Text → Bool)
    (parse : Text → Option PostFrontmatter) (count : S → ℕ)
    (searches : (s : S) → count (out.statuses s).1 ≡ count s)
    (posts_one : (toot : Text) (s : S) → count (out.post_status toot s).1 ≤ suc (count s)) where
  found_or_new_count :
      (fm : PostFrontmatter) (url id : Text) (s : S)
      → count (found_or_new out writable parse fm url id s).1 ≤ suc (count s)
  unfolding found_or_new
  found_or_new_count fm url (c ∷ id) s = omega arith
  found_or_new_count fm url [] s = elim (Option-cases (compose_toot fm.title fm.summary url)) [
    | inl bad ↦ rw (bad, found_or_new) (omega arith)
    | inr (toot, fine) ↦ rw (fine, found_or_new) (posts_one toot s)
  ]

  find_count : (url : Text) (s : S) → count (find_status_by_url out url s).1 ≡ count s
  unfolding find_status_by_url
  find_count url s = searches s

  toot_id_count :
      (fm : PostFrontmatter) (url : Text) (s : S)
      → count (toot_id out writable parse fm url s).1 ≤ suc (count s)
  unfolding toot_id
  toot_id_count fm url s =
      let found = find_status_by_url out url s in
      omega (
        arith,
        find_count url s,
        found_or_new_count fm url (found_id out writable parse found.0) found.1,
      )

  announce_count :
      (o : Option PostFrontmatter) (dir path url : Text) (files : Files) (s : S)
      → count (announce out writable parse o dir path url files s).2 ≤ suc (count s)
  unfolding announce
  announce_count none dir path url files s = omega arith
  announce_count (some fm) dir path url files s =
      elim (Bool-cases (is_done out writable parse fm)) [
        | inl done ↦ rw (done, announce) (omega arith)
        | inr left ↦ rw (left, announce) (toot_id_count fm url s)
      ]

  sync_post_count :
      (base : Text) (p : Text × Text × Text) (files : Files) (s : S)
      → count (sync_post out writable parse base p files s).2 ≤ suc (count s)
  unfolding sync_post
  sync_post_count base (dir, dir_name, name) files s =
      let path = dir ++ (text "/" ++ name) in
      announce_count (read_post out writable parse path files) dir path
        (post_url base (slug dir_name name)) files s

  -- Where a search posts nothing and a post at most one toot, a whole run posts at most one toot
  -- for each entry of the posts' directory.
  pub sync_count :
      (base posts : Text) (es : List Entry) (files : Files) (s : S)
      → count (sync out writable parse base posts es files s).1 ≤ count s + length es
  unfolding sync
  sync_count base posts [] files s = omega arith
  sync_count base posts (e ∷ es) files s = elim (Option-cases (post_of posts files e)) [
    | inl skipped ↦ rw (skipped, sync) (omega (arith, sync_count base posts es files s))
    | inr (p, post) ↦
        let (ok, files', s') = sync_post out writable parse base p files s in
        rw (post, sync)
          (omega (arith, sync_count base posts es files' s', sync_post_count base p files s))
  ]
