-- ===== src/Base/Text.antt =====
-- Python's operations on texts, for ASCII texts.
use Prim.Native.Char.{Char, code}
use flagsmith_common.Base.{
  ◌≡◌, sym, ap, ◌∙◌, Bool-cases, inl, inr, eq_iff, eq_refl, ℕ, ◌-◌, Bool, true, false, ◌&&◌, ◌||◌,
  String, List, [], ◌∷◌, ◌==◌, leb, if◌then◌else◌, str_eq,
}

unfoldable pub concat : String → String → String
concat String.[] t = t
concat (String.◌∷◌ c s) t = String.◌∷◌ c (concat s t)

-- s.startswith(prefix)
unfoldable pub starts_with : String → String → Bool
starts_with String.[] s = true
starts_with (String.◌∷◌ p prefix) String.[] = false
starts_with (String.◌∷◌ p prefix) (String.◌∷◌ c s) =
    let rest = starts_with prefix s in if code p == code c then rest else false

-- part in s
unfoldable pub contains : String → String → Bool
unfolding starts_with
contains part String.[] = starts_with part ""
contains part (String.◌∷◌ c s) =
    let later = contains part s in if starts_with part (String.◌∷◌ c s) then true else later

-- s[n:]
unfoldable pub behind : ℕ → String → String
behind Prim.Native.Nat.zero s = s
behind (Prim.Native.Nat.suc n) String.[] = ""
behind (Prim.Native.Nat.suc n) (String.◌∷◌ c s) = behind n s

abbrev pub in_range : ℕ → ℕ → Char → Bool
in_range low high c = leb low (code c) && leb (code c) high

-- The characters of `\s`.
abbrev pub is_space : Char → Bool
is_space c = in_range 9 13 c || in_range 28 32 c

-- The characters of `\w`.
abbrev pub is_word : Char → Bool
is_word c = in_range b'0' b'9' c || in_range b'A' b'Z' c || in_range b'a' b'z' c || code c == b'_'

-- s.lstrip(...), for the characters with `p`.
unfoldable pub lstrip : (Char → Bool) → String → String
lstrip p String.[] = ""
lstrip p (String.◌∷◌ c s) = let rest = lstrip p s in if p c then rest else String.◌∷◌ c s

-- s.rstrip()
unfoldable pub rstrip : String → String
rstrip String.[] = ""
rstrip (String.◌∷◌ c s) =
    let rest = rstrip s in if str_eq rest "" && is_space c then "" else String.◌∷◌ c rest

abbrev pub strip : String → String
strip s = rstrip (lstrip is_space s)

abbrev at : ℕ → String → Char → Char
at n String.[] default = default
at Prim.Native.Nat.zero (String.◌∷◌ c s) default = c
at (Prim.Native.Nat.suc n) (String.◌∷◌ c s) default = at n s default

abbrev lower_char : Char → Char
lower_char c = if in_range b'A' b'Z' c then at (code c - b'A') "abcdefghijklmnopqrstuvwxyz" c else c

-- s.lower()
unfoldable pub lower : String → String
lower String.[] = ""
lower (String.◌∷◌ c s) = String.◌∷◌ (lower_char c) (lower s)

abbrev upper_char : Char → Char
upper_char c = if in_range b'a' b'z' c then at (code c - b'a') "ABCDEFGHIJKLMNOPQRSTUVWXYZ" c else c

-- s.upper()
unfoldable pub upper : String → String
upper String.[] = ""
upper (String.◌∷◌ c s) = String.◌∷◌ (upper_char c) (upper s)

-- c in front of the first part
abbrev pub glue : Char → List String → List String
glue c [] = String.◌∷◌ c "" ∷ []
glue c (part ∷ parts) = String.◌∷◌ c part ∷ parts

-- s.split(",")
unfoldable pub split_comma : String → List String
split_comma String.[] = "" ∷ []
split_comma (String.◌∷◌ c s) =
    let rest = split_comma s in if code c == b',' then "" ∷ rest else glue c rest

-- s.split("__")
unfoldable pub split_dunder : String → List String
split_dunder String.[] = "" ∷ []
split_dunder (String.◌∷◌ c String.[]) = String.◌∷◌ c "" ∷ []
split_dunder (String.◌∷◌ c (String.◌∷◌ d s)) =
    let behind_both = split_dunder s in
    let behind_one = split_dunder (String.◌∷◌ d s) in
    if code c == b'_' && code d == b'_' then "" ∷ behind_both else glue c behind_one

-- "__".join(parts)
unfoldable pub join_dunder : List String → String
unfolding concat
join_dunder [] = ""
join_dunder (part ∷ []) = part
join_dunder (part ∷ next ∷ parts) = concat part (concat "__" (join_dunder (next ∷ parts)))

-- sep.join(parts)
unfoldable pub join : String → List String → String
unfolding concat
join sep [] = ""
join sep (part ∷ []) = part
join sep (part ∷ next ∷ parts) = concat part (concat sep (join sep (next ∷ parts)))

-- s.replace("__", ".")
unfoldable pub replace_dunder : String → String
unfolding join split_dunder
replace_dunder s = join "." (split_dunder s)

-- The characters by their numbers: texts are compared by them.
unfoldable pub codes : String → List ℕ
codes String.[] = []
codes (String.◌∷◌ c s) = code c ∷ codes s

pub str_eq-≡ : (s t : String) → str_eq s t ≡ true → s ≡ t
str_eq-≡ s t e = (eq_iff s t).0 e

pub str_eq-sym : (s t : String) → str_eq s t ≡ str_eq t s
str_eq-sym s t = elim (Bool-cases (str_eq s t)) [
  | inl e ↦ e ∙ sym (ap (λ x. str_eq x s) (sym (str_eq-≡ s t e)) ∙ eq_refl s)
  | inr e ↦ elim (Bool-cases (str_eq t s)) [
    | inl f ↦ ap (λ x. str_eq s x) (str_eq-≡ t s f) ∙ eq_refl s ∙ sym f
    | inr f ↦ e ∙ sym f
  ]
]
