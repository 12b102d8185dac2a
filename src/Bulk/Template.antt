-- ===== src/Bulk/Template.antt =====
-- `applyVariables` of src/modules/message/bulk-message.service.ts: in every text of a message
-- `{key}` is replaced by the variable of that name. The variables are the object's own entries.
pub mod Laws
use notifymain_wa.Prelude.{
  ℕ, zero, suc, ◌+◌, Bool, true, false, not, ◌&&◌, ◌||◌, Option, none, some, List, [], ◌∷◌, ◌++◌,
  length, drop, leb, ◌==◌, is_empty, if◌then◌else◌,
}
use notifymain_wa.Text.{Str, codes, str_eq, starts_with}

-- `\w`
unfoldable pub is_word : ℕ → Bool
is_word c =
    (leb b'a' c && leb c b'z')
    || (leb b'A' c && leb c b'Z')
    || (leb b'0' c && leb c b'9')
    || c == b'_'

-- `\w+`, greedy.
unfoldable pub word_run : Str → Str
word_run [] = []
word_run (c ∷ s) = let rest = word_run s in if is_word c then c ∷ rest else []

abbrev pub Variables : Type 0
Variables = List (Str × Str)

unfoldable pub lookup_variable : Str → Variables → Str
lookup_variable key [] = []
lookup_variable key ((k, v) ∷ vars) = if str_eq k key then v else lookup_variable key vars

-- `variables[key] || `{${key}}``
unfoldable pub variable_or_token : Variables → Str → Str
unfolding lookup_variable
variable_or_token vars key =
    let value = lookup_variable key vars in
    if is_empty value then (b'{' ∷ key) ++ codes "}" else value

-- Whether a `{` that was just read begins a match, and the key then.
unfoldable pub is_token : Str → Bool
unfolding word_run is_word
is_token s = not (is_empty (word_run s)) && starts_with (drop (length (word_run s)) s) (codes "}")

-- The scan of the global replace; `skip` units of the last match are still to be passed over.
unfoldable pub replace_vars_from : Variables → ℕ → Str → Str
replace_vars_from vars skip [] = []
replace_vars_from vars (suc skip) (c ∷ s) = replace_vars_from vars skip s
replace_vars_from vars zero (c ∷ s) =
    let found = (c == b'{') && is_token s in
    let rest = replace_vars_from vars (if found then suc (length (word_run s)) else 0) s in
    if found then variable_or_token vars (word_run s) ++ rest else c ∷ rest

unfoldable pub replace_vars : Variables → Str → Str
unfolding replace_vars_from variable_or_token is_token
replace_vars vars s = replace_vars_from vars 0 s

pub record Media : Type 0 where
  pub url : Option Str
  pub base64 : Option Str
  pub mimetype : Option Str
  pub filename : Option Str

pub record Content : Type 0 where
  pub text : Option Str
  pub caption : Option Str
  pub image : Option Media
  pub video : Option Media
  pub audio : Option Media
  pub document : Option Media

replace_text : Variables → Option Str → Option Str
replace_text vars none = none
replace_text vars (some s) = some (replace_vars vars s)

replace_media : Variables → Option Media → Option Media
unfolding replace_text
replace_media vars none = none
replace_media vars (some m) = some (record {
  url = replace_text vars m.url;
  base64 = replace_text vars m.base64;
  mimetype = replace_text vars m.mimetype;
  filename = replace_text vars m.filename;
})

unfoldable pub apply_variables : Content → Option Variables → Content
unfolding replace_text replace_media replace_vars
apply_variables content none = content
apply_variables content (some vars) = record {
  text = replace_text vars content.text;
  caption = replace_text vars content.caption;
  image = replace_media vars content.image;
  video = replace_media vars content.video;
  audio = replace_media vars content.audio;
  document = replace_media vars content.document;
}
