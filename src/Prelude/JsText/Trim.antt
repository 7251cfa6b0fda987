-- ===== src/Prelude/JsText/Trim.antt =====
-- `trim` on a text that is trimmed already.
use when_i_off.Prelude.{
  Str, ◌≡◌, refl, sym, ◌∙◌, ap, subst, false, [], ◌∷◌, ◌++◌, Bool-cases, inl, inr,
}
use when_i_off.Prelude.JsText.{js_space, drop_space, trim}
use mathlib.Core.List.{reverse, reverse-reverse, reverse-append}

-- The text is empty or starts with no space.
abbrev StartsSolid : Str → Type 0
StartsSolid [] = Unit
StartsSolid (c ∷ s) = js_space c ≡ false

drop_space-StartsSolid : (s : Str) → StartsSolid (drop_space s)
unfolding drop_space
drop_space-StartsSolid [] = tt
drop_space-StartsSolid (c ∷ s) = elim (Bool-cases (js_space c)) [
  | inl t ↦ rw t (drop_space-StartsSolid s)
  | inr t ↦ rw t t
]

drop_space_solid : (s : Str) → StartsSolid s → drop_space s ≡ s
unfolding drop_space
drop_space_solid [] h = refl
drop_space_solid (c ∷ s) h = rw h refl

StartsSolid-append : (s t : Str) → StartsSolid (s ++ t) → StartsSolid s
StartsSolid-append [] t h = tt
StartsSolid-append (c ∷ s) t h = h

-- what `drop_space` leaves is the end of the text
drop_space_end : (s : Str) → (pre : Str) × (s ≡ pre ++ drop_space s)
unfolding drop_space
drop_space_end [] = ([], refl)
drop_space_end (c ∷ s) = elim (Bool-cases (js_space c)) [
  | inl t ↦ let (pre, e) = drop_space_end s in (c ∷ pre, rw t (ap (◌∷◌ c) e))
  | inr t ↦ ([], rw t refl)
]

trim-StartsSolid : (s : Str) → StartsSolid (trim s)
unfolding trim
trim-StartsSolid s =
    let d = drop_space s in
    let kept = drop_space (reverse d) in
    let (pre, e) = drop_space_end (reverse d) in
    StartsSolid-append (reverse kept) (reverse pre) (
      subst StartsSolid (sym (reverse-reverse d) ∙ (ap reverse e ∙ reverse-append pre kept))
        (drop_space-StartsSolid s))

-- Trimming twice is trimming once.
pub trim-trim : (s : Str) → trim (trim s) ≡ trim s
unfolding trim
trim-trim s =
    let kept = drop_space (reverse (drop_space s)) in
    ap (λ t. reverse (drop_space (reverse t)))
      (drop_space_solid (reverse kept) (trim-StartsSolid s))
    ∙ ap reverse (
        ap drop_space (reverse-reverse kept)
        ∙ drop_space_solid kept (drop_space-StartsSolid (reverse (drop_space s))))
