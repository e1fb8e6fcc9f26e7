-- ===== src/Flappy/Examples/Labels.antt =====
-- The cache of labels on concrete inputs.
use hmlb.Prelude.{
  ℕ, ◌≤◌, ◌≡◌, ◌↔◌, Bool, true, false, [], ◌∷◌, Text, text, Eq, nat_beq, length, map, arith,
}
use hmlb.Prelude.Int.{ℤ, pos, negsuc}
use hmlb.Flappy.Client.Labels.{Graphics, DrawCall, new_text, max_label_imgs, draw_all}
use hmlb.Flappy.Client.Labels.Fresh.{drawn, draw_all-drawn}
use hmlb.Flappy.Fixed.{fixed}

int_beq : ℤ → ℤ → Bool
int_beq (pos m) (pos n) = nat_beq m n
int_beq (negsuc m) (negsuc n) = nat_beq m n
int_beq _ _ = false

-- A face is its size, and an image is the text in it.
abbrev plain_graphics : Graphics ℤ ℤ Text ℕ
plain_graphics = record {
  new_face = λ size. size;
  measure = λ s fc size. (pos (length s), size);
  compose = λ s size clr shadow box. s;
  to_rgba = λ c. record { r = c; g = c; b = c; a = 255 };
}

abbrev score_call : DrawCall ℤ ℕ
score_call = record {
  s = text "7";
  size = pos 44;
  x = pos 300;
  y = pos 14;
  clr = 9;
  center = true;
  shadow = true;
}

int_beq_iff : (a b : ℤ) → (int_beq a b ≡ true) ↔ (a ≡ b)
unfolding int_beq
int_beq_iff (pos m) (pos n) = (λ h. ground arith, λ h. ground arith)
int_beq_iff (negsuc m) (negsuc n) = (λ h. ground arith, λ h. ground arith)
int_beq_iff (pos m) (negsuc n) = (λ h. cc, λ h. cc)
int_beq_iff (negsuc m) (pos n) = (λ h. cc, λ h. cc)

instance abbrev int_eq : Eq ℤ
int_eq = record { beq = int_beq; beq_iff = int_beq_iff }

draw_all-drawn_example :
    ((draw_all plain_graphics (score_call ∷ score_call ∷ []) new_text).1
      ≡ map (drawn plain_graphics) (score_call ∷ score_call ∷ []))
    × (length (draw_all plain_graphics (score_call ∷ score_call ∷ []) new_text).0.labels
        ≤ max_label_imgs)
draw_all-drawn_example = draw_all-drawn plain_graphics (score_call ∷ score_call ∷ [])
