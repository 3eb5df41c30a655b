-- ===== src/Samples/Texts.antt =====
-- base/json5/json5.go: a text with a comment of each kind, a trailing comma, and a string with slashes.
use v2b_x_liusu.Prelude.{◌≡◌, refl, ℕ, List, [], ◌∷◌, some}
use v2b_x_liusu.Json5.{
  prep, prep_from, step, after_comma, skip_string, consume_comment, blank_block, blank_line,
}
use v2b_x_liusu.Json5.Blanks.{prep_lem, Blanked}

abbrev commented_text : List ℕ
commented_text =
    123 ∷ 34 ∷ 97 ∷ 47 ∷ 47 ∷ 34 ∷ 58 ∷ 34 ∷ 92 ∷ 34 ∷ 34 ∷ 44 ∷ 47 ∷ 42 ∷ 99 ∷ 42 ∷ 47 ∷ 49 ∷ 44
    ∷ 47 ∷ 47 ∷ 120 ∷ 10 ∷ 32 ∷ 125 ∷ []

cleaned_text :
    prep commented_text
    ≡ some (
        123 ∷ 34 ∷ 97 ∷ 47 ∷ 47 ∷ 34 ∷ 58 ∷ 34 ∷ 92 ∷ 34 ∷ 34 ∷ 44 ∷ 32 ∷ 32 ∷ 32 ∷ 32 ∷ 32 ∷ 49
        ∷ 32 ∷ 32 ∷ 32 ∷ 32 ∷ 10 ∷ 32 ∷ 125 ∷ [])
unfolding prep prep_from step after_comma skip_string consume_comment blank_block blank_line
cleaned_text = refl

prep_lem_example : (t : List ℕ) × (prep commented_text ≡ some t) × Blanked commented_text t
prep_lem_example = prep_lem commented_text
