-- ===== src/Bulk/Template/Laws.antt =====
-- What the replacement of variables does.
use notifymain_wa.Prelude.{
  suc, ◌≡◌, refl, ap, ◌∙◌, true, false, not, List, [], ◌∷◌, ◌++◌, length, drop, all, arith, ◌==◌,
  is_empty,
}
use notifymain_wa.Text.{Str, starts_with}
use notifymain_wa.Bulk.Template.{
  Variables, is_word, word_run, is_token, variable_or_token, replace_vars_from, replace_vars,
}

abbrev pub IsBraceless : Str → Type 0
IsBraceless s = all (λ c. not (c == b'{')) s ≡ true

replace_vars_from-copy :
    (vars : Variables) (a s : Str)
    → IsBraceless a
    → replace_vars_from vars 0 (a ++ s) ≡ a ++ replace_vars_from vars 0 s
unfolding replace_vars_from
replace_vars_from-copy vars [] s h = refl
replace_vars_from-copy vars (c ∷ a) s h = ground (arith, replace_vars_from-copy vars a s)

-- A key that is a word, up to the brace that closes it.
word_run-key : (key s : Str) → all is_word key ≡ true → word_run (key ++ (b'}' ∷ s)) ≡ key
unfolding word_run is_word
word_run-key [] s h = refl
word_run-key (c ∷ key) s h = ground (arith, word_run-key key s)

drop-append {ℓ} : {A : Type ℓ} (xs ys : List A) → drop (length xs) (xs ++ ys) ≡ ys
drop-append [] ys = refl
drop-append (x ∷ xs) ys = drop-append xs ys

skip-key :
    (vars : Variables) (key after : Str)
    → replace_vars_from vars (suc (length key)) (key ++ (b'}' ∷ after))
      ≡ replace_vars_from vars 0 after
unfolding replace_vars_from
skip-key vars [] after = refl
skip-key vars (c ∷ key) after = skip-key vars key after

is_token-key :
    (key after : Str)
    → all is_word key ≡ true
    → is_empty key ≡ false
    → is_token (key ++ (b'}' ∷ after)) ≡ true
unfolding is_token starts_with
is_token-key key after k n =
    rw (word_run-key key after k, is_token) (rw (drop-append key (b'}' ∷ after)) (rw n refl))

at_token :
    (vars : Variables) (key after : Str)
    → all is_word key ≡ true
    → is_empty key ≡ false
    → replace_vars_from vars 0 (b'{' ∷ (key ++ (b'}' ∷ after)))
      ≡ variable_or_token vars key ++ replace_vars_from vars 0 after
unfolding replace_vars_from
at_token vars key after k n =
    rw (is_token-key key after k n)
      (rw (word_run-key key after k) (rw (skip-key vars key after) refl))

-- In a text with no brace, then `{key}` with a word for a key, then more, the text before is
-- kept, the token is replaced by its variable (or kept where that is missing or empty), and the
-- replacement goes on behind it.
pub replace_vars-token :
    (vars : Variables) (before key after : Str)
    → IsBraceless before
    → all is_word key ≡ true
    → is_empty key ≡ false
    → replace_vars vars (before ++ (b'{' ∷ (key ++ (b'}' ∷ after))))
      ≡ before ++ (variable_or_token vars key ++ replace_vars vars after)
unfolding replace_vars
replace_vars-token vars before key after h k n =
    replace_vars_from-copy vars before (b'{' ∷ (key ++ (b'}' ∷ after))) h
    ∙ ap (λ t. before ++ t) (at_token vars key after k n)
