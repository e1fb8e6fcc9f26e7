-- ===== src/Flappy/Client/Labels/Fresh.antt =====
-- The cache of labels, beside a renderer without one.
use hmlb.Prelude.{
  nat_beq, ◌≤◌, ◌<◌, true, false, List, [], ◌∷◌, some, Eq, length, map, leb, ◌≡◌, refl, sym, ap,
  ◌∙◌, arith, inl, inr, Bool-cases, Option-cases,
}
use hmlb.Prelude.Entries.{length-insert}
use hmlb.Prelude.Maps.{lookup, insert, lookup-insert_inv}
use hmlb.Flappy.Client.Labels.{
  key_eq, LabelKey, LabelImg, Graphics, Texter, new_text, max_label_imgs, Blit, DrawCall, face,
  rendered_with, render_label, make_room, label, blit, key_of, draw, draw_all,
}
use hmlb.Flappy.Float.{Float}

module _ {A Face Img Color : Type 0} ⦃f : Float A⦄ ⦃same_size : Eq A⦄
    (gfx : Graphics A Face Img Color) where
  abbrev pub rendered : LabelKey A → LabelImg A Img
  rendered k = rendered_with gfx (gfx.new_face k.size) k

  -- What a call draws that renders its label anew.
  unfoldable pub drawn : DrawCall A Color → List (Blit A Img)
  drawn c = elim (nat_beq (length c.s) 0) [
    | true ↦ []
    | false ↦ blit gfx (rendered (key_of gfx c)) c.x c.y c.center ∷ []
  ]

  -- Each cached face and label is what a fresh one would be, and the cache is not over its limit.
  pub record IsTexter (t : Texter A Face Img) : Type 0 where
    pub faces : (size : A) (fc : Face) → lookup size t.faces ≡ some fc → fc ≡ gfx.new_face size
    pub labels : (k : LabelKey A) (l : LabelImg A Img) → lookup k t.labels ≡ some l → l ≡ rendered k
    pub room : length t.labels ≤ max_label_imgs

  face-IsTexter :
      (size : A) (t : Texter A Face Img)
      → IsTexter t
      → IsTexter (face gfx size t).0
        × ((face gfx size t).1 ≡ gfx.new_face size)
        × ((face gfx size t).0.labels ≡ t.labels)
  unfolding face
  face-IsTexter size t ok = elim (Option-cases (lookup size t.faces)) [
    | inr (fc, found) ↦ rw (found, face) (ok, ok.faces size fc found, refl)
    | inl missing ↦
        rw (missing, face)
          (record { faces = grown; labels = ok.labels; room = ok.room }, refl, refl)
  ]
    where
      grown :
          (j : A) (fc : Face)
          → lookup j (insert size (gfx.new_face size) t.faces) ≡ some fc
          → fc ≡ gfx.new_face j
      grown j fc h = elim (lookup-insert_inv size j (gfx.new_face size) fc t.faces h) [
        | inl (here, value) ↦ sym value ∙ ap gfx.new_face here
        | inr (other, old) ↦ ok.faces j fc old
      ]

  make_room-IsTexter :
      (t : Texter A Face Img)
      → IsTexter t
      → IsTexter (make_room gfx t) × (length (make_room gfx t).labels < max_label_imgs)
  unfolding make_room lookup
  make_room-IsTexter t ok = elim (Bool-cases (leb max_label_imgs (length t.labels))) [
    | inl full ↦
        rw (full, make_room)
          (record { faces = ok.faces; labels = λ k l h. cc; room = omega arith }, omega arith)
    | inr free ↦ rw (free, make_room) (ok, ground arith)
  ]

  label-IsTexter :
      (k : LabelKey A) (t : Texter A Face Img)
      → IsTexter t
      → IsTexter (label gfx k t).0 × ((label gfx k t).1 ≡ rendered k)
  unfolding label render_label
  label-IsTexter k t ok = elim (Option-cases (lookup k t.labels)) [
    | inr (l, found) ↦ rw (found, label) (ok, ok.labels k l found)
    | inl missing ↦ rw (missing, label) (added (make_room gfx t) (make_room-IsTexter t ok))
  ]
    where
      grown :
          (u : Texter A Face Img) (fc : Face)
          → IsTexter u
          → fc ≡ gfx.new_face k.size
          → (j : LabelKey A) (l : LabelImg A Img)
          → lookup j (insert k (rendered_with gfx fc k) u.labels) ≡ some l
          → l ≡ rendered j
      grown u fc v e j l h = elim (lookup-insert_inv k j (rendered_with gfx fc k) l u.labels h) [
        | inl (here, value) ↦ sym value ∙ ap (λ g. rendered_with gfx g k) e ∙ ap rendered here
        | inr (other, old) ↦ v.labels j l old
      ]

      added :
          (u : Texter A Face Img)
          → IsTexter u × (length u.labels < max_label_imgs)
          → IsTexter (record (render_label gfx k u).0 {
            labels = insert k (render_label gfx k u).1 (render_label gfx k u).0.labels;
          })
            × ((render_label gfx k u).1 ≡ rendered k)
      added u (v, space) =
          let (v', fresh, same) = face-IsTexter k.size u v in
          let fc = (face gfx k.size u).1 in
          let u' = (face gfx k.size u).0 in
          (
            record {
              faces = v'.faces;
              labels = grown u' fc v' fresh;
              room =
                  omega (arith, length-insert k (rendered_with gfx fc k) u'.labels, ap length same);
            },
            ap (λ g. rendered_with gfx g k) fresh,
          )

  draw-IsTexter :
      (c : DrawCall A Color) (t : Texter A Face Img)
      → IsTexter t
      → IsTexter (draw gfx c t).0 × ((draw gfx c t).1 ≡ drawn c)
  unfolding draw drawn
  draw-IsTexter c t ok = elim (Bool-cases (nat_beq (length c.s) 0)) [
    | inl empty ↦ rw (empty, draw, drawn) (ok, refl)
    | inr some_text ↦
        let (ok', fresh) = label-IsTexter (key_of gfx c) t ok in
        rw (some_text, draw, drawn) (ok', ap (λ l. blit gfx l c.x c.y c.center ∷ []) fresh)
  ]

  draw_all-from :
      (cs : List (DrawCall A Color)) (t : Texter A Face Img)
      → IsTexter t
      → ((draw_all gfx cs t).1 ≡ map drawn cs)
        × (length (draw_all gfx cs t).0.labels ≤ max_label_imgs)
  unfolding draw_all
  draw_all-from [] t ok = (refl, ok.room)
  draw_all-from (c ∷ cs) t ok =
      let (ok', same) = draw-IsTexter c t ok in
      let (rest, room) = draw_all-from cs (draw gfx c t).0 ok' in (rw (same, rest) refl, room)

  -- Whatever is drawn from the start on, with the cache of labels each call draws what it would if
  -- it rendered its label anew, and the cache never holds more than its limit.
  pub draw_all-drawn :
      (cs : List (DrawCall A Color))
      → ((draw_all gfx cs new_text).1 ≡ map drawn cs)
        × (length (draw_all gfx cs new_text).0.labels ≤ max_label_imgs)
  unfolding lookup
  draw_all-drawn cs =
      draw_all-from cs new_text
        (record { faces = λ size fc h. cc; labels = λ k l h. cc; room = omega arith })
