-- ===== src/Mastodon/Examples.antt =====
-- The theorems of the announcements on concrete inputs.
use hmlb.Prelude.{
  ℕ, suc, ◌<◌, ◌≤◌, ◌≡◌, refl, true, false, ◌+◌, List, [], ◌∷◌, some, none, Text, text, arith,
  length, ◌⊎◌,
}
use hmlb.Mastodon.Toot.{compose_toot, whole_toot, without_summary, compose_toot_lem}
use hmlb.Mastodon.Post.{Files, directory}
use hmlb.Mastodon.Sync.{
  Instance, Status, PostFrontmatter, toot_id, find_status, find_status_by_url, sync,
}
use hmlb.Mastodon.Sync.Once.{Shows, Without, toot_id_lem, sync_count}
use hmlb.Prelude.Strings.{contains}

abbrev a_post : PostFrontmatter
a_post = record {
  title = text "News";
  summary = text "All of it";
  draft = false;
  mastodon_post_id = [];
}

-- An instance without a status; the state counts the toots.
abbrev an_instance : Instance ℕ
an_instance = record {
  statuses = λ n. (some [], n);
  post_status = λ toot n. (some (text "7"), suc n);
}

-- One with two statuses, of which the second shows the address `u`.
abbrev two_statuses : List Status
two_statuses =
    record { id = text "3"; content = text "old" }
    ∷ record { id = text "7"; content = text "see u!" }
    ∷ []

abbrev an_archive : Instance ℕ
an_archive = record {
  statuses = λ n. (some two_statuses, n);
  post_status = λ toot n. (some (text "8"), suc n);
}

compose_toot_lem_example :
    (toot : Text) × (compose_toot (text "News") (text "All of it") (text "https://b/posts/n/")
      ≡ some toot)
    × (((length (whole_toot (text "News") (text "All of it") (text "https://b/posts/n/")) ≤ 500)
          × (toot ≡ whole_toot (text "News") (text "All of it") (text "https://b/posts/n/")))
        ⊎ ((500 < length (whole_toot (text "News") (text "All of it") (text "https://b/posts/n/")))
            × ((toot ≡ without_summary (text "News") (text "https://b/posts/n/"))
                ⊎ (length toot ≡ 501))))
compose_toot_lem_example =
    compose_toot_lem (text "News") (text "All of it") (text "https://b/posts/n/")

toot_id_lem_example :
    ((x : Status) × Shows (text "u") two_statuses x
      × (toot_id an_archive (λ p. true) (λ s. none) a_post (text "u") 0 ≡ (some x.id, 0)))
    ⊎ (Without (text "u") two_statuses
        × ((toot : Text) × (compose_toot (text "News") (text "All of it") (text "u") ≡ some toot)
            × (toot_id an_archive (λ p. true) (λ s. none) a_post (text "u") 0
                ≡ an_archive.post_status toot 0)))
toot_id_lem_example =
    toot_id_lem an_archive (λ p. true) (λ s. none) a_post (text "u") two_statuses 0 0 refl
      ((λ e. cc e), ((λ e. cc e), tt))

-- The second status is found.
found_test : toot_id an_archive (λ p. true) (λ s. none) a_post (text "u") 0 ≡ (some (text "7"), 0)
unfolding toot_id find_status_by_url find_status contains
found_test = refl

abbrev some_files : Files
some_files = (text "posts/news/index.md", text "---\ntitle: News\n---\nAll of it.\n") ∷ []

sync_count_example :
    (sync an_instance
      (λ p. true)
      (λ s. some a_post)
      (text "https://b")
      (text "posts")
      (directory (text "news") ∷ directory (text "more") ∷ [])
      some_files
      0).1
    ≤ 0 + 2
sync_count_example =
    sync_count an_instance (λ p. true) (λ s. some a_post) (λ n. n) (λ n. refl)
      (λ toot n. omega arith) (text "https://b") (text "posts")
      (directory (text "news") ∷ directory (text "more") ∷ []) some_files 0
