-- ===== src/Http.antt =====
-- What images/openwebui-openhands-proxy/main.go and images/llamastack-proxy/main.go use of net/http:
-- messages and headers. A header map holds canonical names, as the server and the client of net/http
-- make it.
use hmlb.Prelude.{
  Option, ℕ, ◌+◌, ◌-◌, Bool, true, ◌&&◌, ◌||◌, List, [], ◌∷◌, ◌++◌, Text, text, text_eq, ◌==◌,
  nat_beq, leb, if◌then◌else◌, any, map, from_option, ◌≡◌, refl, not,
}
use hmlb.Prelude.Maps.{Map, lookup, insert, delete, lookup-insert_self, lookup-delete_self}

abbrev pub Headers : Type 0
Headers = Map Text (List Text)

abbrev is_upper : ℕ → Bool
is_upper c = leb b'A' c && leb c b'Z'

abbrev is_lower : ℕ → Bool
is_lower c = leb b'a' c && leb c b'z'

abbrev is_digit : ℕ → Bool
is_digit c = leb b'0' c && leb c b'9'

-- The bytes of a token, of which a valid name is made.
is_token : ℕ → Bool
is_token c =
    is_upper c || is_lower c || is_digit c || any (λ p. nat_beq p c) (text "!#$%&'*+-.^_`|~")

-- Upper case at the start and behind a dash, lower case elsewhere.
canonical_from : Bool → Text → Text
canonical_from start [] = []
canonical_from start (c ∷ cs) =
    (if start && is_lower c then c - 32 else if not start && is_upper c then c + 32 else c)
    ∷ canonical_from (nat_beq c b'-') cs

-- `textproto.CanonicalMIMEHeaderKey`: a name with another byte in it stays as it is.
unfoldable pub canonical : Text → Text
unfolding canonical_from is_token
canonical k = if any (λ c. not (is_token c)) k then k else canonical_from true k

abbrev pub first_value : List Text → Text
first_value [] = []
first_value (v ∷ vs) = v

-- `Get`, `Set`, `Del` and `Add`.
unfoldable pub get_header : Text → Headers → Text
get_header k h = first_value (from_option [] (lookup (canonical k) h))

unfoldable pub set_header : Text → Text → Headers → Headers
set_header k v h = insert (canonical k) (v ∷ []) h

unfoldable pub del_header : Text → Headers → Headers
del_header k h = delete (canonical k) h

unfoldable pub add_header : Text → Text → Headers → Headers
add_header k v h =
    let name = canonical k in insert name (from_option [] (lookup name h) ++ v ∷ []) h

-- One name of the copied headers.
unfoldable pub add_values : Text → List Text → Headers → Headers
add_values k [] w = w
add_values k (v ∷ vs) w = add_values k vs (add_header k v w)

-- All headers of a message copied into those of another, as the two loops of the source do.
unfoldable pub add_all : Headers → Headers → Headers
unfolding add_values
add_all [] w = w
add_all ((k, vs) ∷ h) w = add_all h (add_values k vs w)

-- An incoming request; no body where it cannot be read.
pub record Request : Type 0 where
  pub method : Text
  pub path : Text
  pub raw_query : Text
  pub headers : Headers
  pub body : Option Text

pub record Response : Type 0 where
  pub status : ℕ
  pub headers : Headers
  pub body : Text

-- What a client's request brings.
pub data Sent : Type 0 where
  failed : Text → Sent
  answered : Response → Sent

-- `strings.EqualFold`, with Unicode's case folding of one rune as a parameter.
unfoldable pub equal_fold : (ℕ → ℕ) → Text → Text → Bool
equal_fold fold s t = map fold s == map fold t

pub get-set_header : (k v : Text) (h : Headers) → get_header k (set_header k v h) ≡ v
unfolding get_header set_header
get-set_header k v h = rw (lookup-insert_self (canonical k) (v ∷ []) h) refl

pub get-del_header : (k : Text) (h : Headers) → get_header k (del_header k h) ≡ []
unfolding get_header del_header
get-del_header k h = rw (lookup-delete_self (canonical k) h) refl

canonical_test : canonical (text "X-OpenHands-ID") ≡ text "X-Openhands-Id"
unfolding canonical
canonical_test = refl
