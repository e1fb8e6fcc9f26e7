-- ===== src/Flappy/Client/Labels.antt =====
-- internal/client/draw/text.go: the cache of labels. Fonts and images are ebiten's, and stand as
-- parameters.
use hmlb.Prelude.{
  ℕ, Bool, true, false, ◌&&◌, not, List, [], ◌∷◌, none, some, Text, text_eq, Eq, ◌==◌, nat_beq, leb,
  if◌then◌else◌, length, ◌≡◌, ◌↔◌, refl, arith,
}
use hmlb.Prelude.Int.{pos}
use hmlb.Prelude.Maps.{Map, lookup, insert}
use hmlb.Flappy.Float.{Float}
pub mod Fresh

pub record Rgba : Type 0 where
  pub r : ℕ
  pub g : ℕ
  pub b : ℕ
  pub a : ℕ

pub record LabelKey (A : Type 0) : Type 0 where
  pub s : Text
  pub size : A
  pub shadow : Bool
  pub clr : Rgba

abbrev pub bool_beq : Bool → Bool → Bool
bool_beq true b = b
bool_beq false b = not b

abbrev pub rgba_beq : Rgba → Rgba → Bool
rgba_beq c d = nat_beq c.r d.r && nat_beq c.g d.g && nat_beq c.b d.b && nat_beq c.a d.a

abbrev pub key_beq : {A : Type 0} ⦃same_size : Eq A⦄ → LabelKey A → LabelKey A → Bool
key_beq k j = k.s == j.s && k.size == j.size && bool_beq k.shadow j.shadow && rgba_beq k.clr j.clr

bool_beq_iff : (a b : Bool) → (bool_beq a b ≡ true) ↔ (a ≡ b)
bool_beq_iff true true = (λ h. refl, λ h. refl)
bool_beq_iff true false = (λ h. cc, λ h. cc)
bool_beq_iff false true = (λ h. cc, λ h. cc)
bool_beq_iff false false = (λ h. refl, λ h. refl)

rgba_beq_iff : (c d : Rgba) → (rgba_beq c d ≡ true) ↔ (c ≡ d)
rgba_beq_iff c d = (λ h. ground arith, λ h. ground arith)

pub key_beq_iff :
    {A : Type 0} ⦃same_size : Eq A⦄ (k j : LabelKey A) → (key_beq k j ≡ true) ↔ (k ≡ j)
key_beq_iff ⦃same_size⦄ k j = (
  λ h. ground (
    arith,
    text_eq.beq_iff k.s j.s,
    same_size.beq_iff k.size j.size,
    bool_beq_iff k.shadow j.shadow,
    rgba_beq_iff k.clr j.clr,
  ),
  λ h. ground (
    arith,
    text_eq.beq_iff k.s j.s,
    same_size.beq_iff k.size j.size,
    bool_beq_iff k.shadow j.shadow,
    rgba_beq_iff k.clr j.clr,
  ),
)

instance abbrev pub key_eq : {A : Type 0} ⦃same_size : Eq A⦄ → Eq (LabelKey A)
key_eq = record { beq = key_beq; beq_iff = key_beq_iff }

pub record LabelImg (A Img : Type 0) : Type 0 where
  pub img : Img
  pub w : A

-- A face of the font at a size, `text.Measure`, the composed image of a label, and
-- `color.RGBAModel.Convert`.
pub record Graphics (A Face Img Color : Type 0) : Type 0 where
  pub new_face : A → Face
  pub measure : Text → Face → A → A × A
  pub compose : Text → Face → Rgba → Bool → A × A → Img
  pub to_rgba : Color → Rgba

pub record Texter (A Face Img : Type 0) : Type 0 where
  pub faces : Map A Face
  pub labels : Map (LabelKey A) (LabelImg A Img)

abbrev pub new_text : {A Face Img : Type 0} → Texter A Face Img
new_text = record { faces = []; labels = [] }

abbrev pub label_pad : ℕ
label_pad = 4

abbrev pub max_label_imgs : ℕ
max_label_imgs = 1024

-- The one image that is drawn, and where.
pub record Blit (A Img : Type 0) : Type 0 where
  pub img : Img
  pub x : A
  pub y : A

pub record DrawCall (A Color : Type 0) : Type 0 where
  pub s : Text
  pub size : A
  pub x : A
  pub y : A
  pub clr : Color
  pub center : Bool
  pub shadow : Bool

-- Both maps compare their keys with `==`.
module _ {A Face Img Color : Type 0} ⦃f : Float A⦄ ⦃same_size : Eq A⦄
    (gfx : Graphics A Face Img Color) where
  unfoldable pub face : A → Texter A Face Img → Texter A Face Img × Face
  face size t = elim (lookup size t.faces) [
    | some found ↦ (t, found)
    | none ↦ let made = gfx.new_face size in (record t { faces = insert size made t.faces }, made)
  ]

  abbrev pub rendered_with : Face → LabelKey A → LabelImg A Img
  rendered_with fc k =
      let (w, h) = gfx.measure k.s fc k.size in
      record { img = gfx.compose k.s fc k.clr k.shadow (w, h); w = w }

  unfoldable pub render_label : LabelKey A → Texter A Face Img → Texter A Face Img × LabelImg A Img
  unfolding face
  render_label k t = let (t', fc) = face k.size t in (t', rendered_with fc k)

  -- A full cache is emptied before it takes a new label.
  unfoldable pub make_room : Texter A Face Img → Texter A Face Img
  make_room t = if leb max_label_imgs (length t.labels) then record t { labels = [] } else t

  unfoldable pub label : LabelKey A → Texter A Face Img → Texter A Face Img × LabelImg A Img
  unfolding render_label make_room
  label k t = elim (lookup k t.labels) [
    | some l ↦ (t, l)
    | none ↦
        let (t', l) = render_label k (make_room t) in
        (record t' { labels = insert k l t'.labels }, l)
  ]

  abbrev pub blit : LabelImg A Img → A → A → Bool → Blit A Img
  blit l x y center =
      let pad = f.lit (pos label_pad) 0 in
      let left = if center then f.sub x (f.div l.w (f.lit (pos 2) 0)) else x in
      record { img = l.img; x = f.sub left pad; y = f.sub y pad }

  abbrev pub key_of : DrawCall A Color → LabelKey A
  key_of c = record { s = c.s; size = c.size; shadow = c.shadow; clr = gfx.to_rgba c.clr }

  -- `Draw` and `DrawShadowed`, by the call's `shadow`: no text draws nothing.
  unfoldable pub draw : DrawCall A Color → Texter A Face Img → Texter A Face Img × List (Blit A Img)
  unfolding label
  draw c t = elim (nat_beq (length c.s) 0) [
    | true ↦ (t, [])
    | false ↦ let (t', l) = label (key_of c) t in (t', blit l c.x c.y c.center ∷ [])
  ]

  unfoldable pub draw_all :
      List (DrawCall A Color) → Texter A Face Img → Texter A Face Img × List (List (Blit A Img))
  unfolding draw
  draw_all [] t = (t, [])
  draw_all (c ∷ cs) t =
      let (t₁, bs) = draw c t in let (t₂, rest) = draw_all cs t₁ in (t₂, bs ∷ rest)
