-- ===== src/Llama/Setup.antt =====
-- images/llamastack-proxy/main.go, `init`: the settings, and the cache that the proxy starts with.
use hmlb.Prelude.{
  ℕ, ◌≡◌, ◌≢◌, refl, false, List, [], ◌∷◌, ◌++◌, Text, text, text_eq, ◌==◌, nat_beq, if◌then◌else◌,
  map,
}
use hmlb.Prelude.All.{All}
use hmlb.Prelude.Strings.{trim_space, trim_space-blank}
use hmlb.Llama.Cache.{ToolCache}

abbrev pub default_llama_stack_url : Text
default_llama_stack_url = text "http://llamastack.llm.svc.cluster.local:8321"

abbrev default_proxy_port : Text
default_proxy_port = text "8322"

-- `strings.Split` at a comma.
abbrev extend : ℕ → List Text → List Text
extend c [] = (c ∷ []) ∷ []
extend c (s ∷ ss) = (c ∷ s) ∷ ss

unfoldable pub split_commas : Text → List Text
split_commas [] = [] ∷ []
split_commas (c ∷ s) = if nat_beq c b',' then [] ∷ split_commas s else extend c (split_commas s)

-- The names in `TOOL_GROUPS_FILTER` or `TOOLS_BLACKLIST`.
unfoldable pub parse_names : Text → List Text
unfolding split_commas trim_space
parse_names [] = []
parse_names (c ∷ s) = map trim_space (split_commas (c ∷ s))

abbrev or_default : Text → Text → Text
or_default d [] = d
or_default d (c ∷ s) = c ∷ s

pub record Settings : Type 0 where
  pub llama_stack_url : Text
  pub proxy_port : Text
  pub tool_cache : ToolCache

-- `os.Getenv` is a parameter, the empty text where a variable is not set.
unfoldable pub init : (Text → Text) → Settings
unfolding parse_names
init getenv = record {
  llama_stack_url = or_default default_llama_stack_url (getenv (text "LLAMASTACK_URL"));
  proxy_port = or_default default_proxy_port (getenv (text "PROXY_PORT"));
  tool_cache = record {
    tool_groups = [];
    tools_by_group = [];
    all_tools = [];
    tool_to_group = [];
    last_refresh = 0;
    enable_smart_filter = getenv (text "ENABLE_SMART_TOOL_FILTERING") == text "true";
    explicit_groups = parse_names (getenv (text "TOOL_GROUPS_FILTER"));
    blacklisted_tools = parse_names (getenv (text "TOOLS_BLACKLIST"));
    group_keywords = [];
  };
}

-- A name that a list of settings can hold: not empty, without a comma, and without white space
-- around it.
pub record IsName (n : Text) : Type 0 where
  pub some_text : n ≢ []
  pub no_comma : All (λ c. nat_beq c b',' ≡ false) n
  pub trimmed : trim_space n ≡ n

-- Names written with a comma and a blank between them.
abbrev pub write_names : List Text → Text
write_names [] = []
write_names (n ∷ []) = n
write_names (n ∷ m ∷ ns) = n ++ (text ", " ++ write_names (m ∷ ns))

split_commas-alone : (n : Text) → All (λ c. nat_beq c b',' ≡ false) n → split_commas n ≡ n ∷ []
unfolding split_commas
split_commas-alone [] ok = refl
split_commas-alone (c ∷ n) (here, ok) = rw (here, split_commas-alone n ok) refl

split_commas-before :
    (n rest : Text)
    → All (λ c. nat_beq c b',' ≡ false) n
    → split_commas (n ++ b',' ∷ rest) ≡ n ∷ split_commas rest
unfolding split_commas
split_commas-before [] rest ok = refl
split_commas-before (c ∷ n) rest (here, ok) = rw (here, split_commas-before n rest ok) refl

-- A blank in front of the first part is trimmed with it.
map-extend :
    (parts : List Text) (y : Text) (ys : List Text)
    → map trim_space parts ≡ y ∷ ys
    → map trim_space (extend b' ' parts) ≡ y ∷ ys
map-extend [] y ys e = cc
map-extend (x ∷ xs) y ys e = rw (trim_space-blank x) e

split_commas-write :
    (n : Text) (ns : List Text)
    → All IsName (n ∷ ns)
    → map trim_space (split_commas (write_names (n ∷ ns))) ≡ n ∷ ns
unfolding split_commas
split_commas-write n [] ok = rw (split_commas-alone n ok.0.no_comma, ok.0.trimmed) refl
split_commas-write n (m ∷ ns) ok =
    let rest = b' ' ∷ write_names (m ∷ ns) in
    let later : map trim_space (split_commas rest) ≡ m ∷ ns =
      map-extend (split_commas (write_names (m ∷ ns))) m ns (split_commas-write m ns ok.1) in
    rw (split_commas-before n rest ok.0.no_comma, ok.0.trimmed, later) refl

-- A list of names that is written with a comma and a blank between the names is read back from a
-- setting as it is.
pub parse_names-write :
    (n : Text) (ns : List Text) → All IsName (n ∷ ns) → parse_names (write_names (n ∷ ns)) ≡ n ∷ ns
unfolding parse_names
parse_names-write [] ns ok = absurd (ok.0.some_text refl)
parse_names-write (c ∷ s) [] ok = split_commas-write (c ∷ s) [] ok
parse_names-write (c ∷ s) (m ∷ ns) ok = split_commas-write (c ∷ s) (m ∷ ns) ok
