-- ===== src/Openhands/Thread.antt =====
-- images/openwebui-openhands-proxy/main.go: the key of a chat thread. The JSON decoder and the hash
-- are parameters: `decode` is the `messages` of a body, `none` where `json.Unmarshal` fails.
use hmlb.Prelude.{
  ℕ, List, [], ◌∷◌, ◌++◌, Option, none, some, Text, text, if◌then◌else◌, from_option,
}
use hmlb.Http.{equal_fold}

-- A message's content: a text, an array, or anything else with its JSON rendering, if it has one. A
-- part of an array is its `text`, if it is an object in which that is a text.
pub data Content : Type 0 where
  plain : Text → Content
  parts : List (Option Text) → Content
  other : Option Text → Content

pub record Message : Type 0 where
  pub role : Text
  pub content : Content

pub record Runtime : Type 0 where
  pub decode : Text → Option (List Message)
  pub fold : ℕ → ℕ
  -- the hexadecimal SHA-256
  pub digest : Text → Text

unfoldable pub join_parts : List (Option Text) → Text
join_parts [] = []
join_parts (none ∷ ps) = join_parts ps
join_parts (some t ∷ ps) = t ++ join_parts ps

unfoldable pub content_text : Content → Text
unfolding join_parts
content_text (plain t) = t
content_text (parts ps) = join_parts ps
content_text (other o) = from_option [] o

module _ (rt : Runtime) where
  unfoldable pub hash_content : Content → Text
  unfolding content_text
  hash_content c = rt.digest (content_text c)

  -- The loop over the messages.
  unfoldable pub first_user : List Message → Text
  unfolding hash_content
  first_user [] = []
  first_user (m ∷ ms) =
      if equal_fold rt.fold m.role (text "user") then hash_content m.content else first_user ms

  unfoldable pub extract_thread_key : Text → Text
  unfolding first_user
  extract_thread_key body = elim (rt.decode body) [ none ↦ [] | some ms ↦ first_user ms ]
