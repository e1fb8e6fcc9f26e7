-- ===== src/Openhands/Copying.antt =====
-- The response headers that the caller gets: the conversation's id stands there only where the proxy
-- puts it.
use hmlb.Prelude.{
  ℕ, ◌≡◌, ◌≢◌, refl, sym, ap, ◌∙◌, true, List, [], ◌∷◌, Text, text_eq, inl, inr, Bool-cases,
}
use hmlb.Prelude.All.{All}
use hmlb.Prelude.Maps.{keys, lookup, lookup-insert_ne}
use hmlb.Http.{
  Response, answered, add_values, Headers, canonical, get_header, add_header, equal_fold,
  get-set_header,
}
use hmlb.Openhands.Thread.{Runtime}
use hmlb.Openhands.Handler.{Upstream, UpRequest, conv_header, copy_headers, surface}

-- Names as net/http keeps them.
abbrev pub IsCanonical : Headers → Type 0
IsCanonical h = All (λ k. canonical k ≡ k) (keys h)

-- What the proxy relies on: case folding joins a name with its canonical form, and the client of
-- net/http returns canonical names.
pub record NetLaws {S : Type 0} (rt : Runtime) (up : Upstream S) : Type 0 where
  pub folds : equal_fold rt.fold (canonical conv_header) conv_header ≡ true
  pub names :
      (q : UpRequest) (st : S) (r : Response)
      → (up.send q st).0 ≡ answered r
      → IsCanonical r.headers

add_values-other :
    (c k : Text) (vs : List Text) (w : Headers)
    → canonical k ≢ c
    → lookup c (add_values k vs w) ≡ lookup c w
unfolding add_values add_header
add_values-other c k [] w ne = refl
add_values-other c k (v ∷ vs) w ne =
    add_values-other c k vs (add_header k v w) ne ∙ lookup-insert_ne (canonical k) c _ w ne

-- Copying puts nothing under the name of the conversation's id.
copy_headers-conv :
    (fold : ℕ → ℕ)
    → equal_fold fold (canonical conv_header) conv_header ≡ true
    → (h w : Headers) → IsCanonical h
    → lookup (canonical conv_header) (copy_headers fold h w) ≡ lookup (canonical conv_header) w
unfolding copy_headers
copy_headers-conv fold same [] w ok = refl
copy_headers-conv fold same ((k, vs) ∷ h) w (fixed, ok) =
    elim (Bool-cases (equal_fold fold k conv_header)) [
      | inl hit ↦ rw (hit, copy_headers) (copy_headers-conv fold same h w ok)
      | inr miss ↦
          rw (miss, copy_headers)
            (copy_headers-conv fold same h (add_values k vs w) ok
              ∙ add_values-other (canonical conv_header) k vs w (λ e.
                cc (
                  sym same ∙ ap (λ n. equal_fold fold n conv_header) (sym (sym fixed ∙ e)) ∙ miss)))
    ]

-- The caller is told exactly the id.
pub surfaced :
    (fold : ℕ → ℕ)
    → equal_fold fold (canonical conv_header) conv_header ≡ true
    → (id : Text) (h : Headers) → IsCanonical h
    → get_header conv_header (surface id (copy_headers fold h [])) ≡ id
unfolding surface get_header lookup
surfaced fold same [] h ok = rw (copy_headers-conv fold same h [] ok) refl
surfaced fold same (c ∷ cs) h ok = get-set_header conv_header (c ∷ cs) (copy_headers fold h [])
