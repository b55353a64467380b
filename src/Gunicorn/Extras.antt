-- ===== src/Gunicorn/Extras.antt =====
-- log_extra and get_extra of common/gunicorn/utils.py. request.META of Django is the `environ` of WSGI.
use flagsmith_common.Base.{
  ◌≡◌, refl, sym, ap, ◌∙◌, inl, inr, true, String, Option, some, Bool-cases, str_eq, if◌then◌else◌,
  eq_refl,
}
use flagsmith_common.Base.Text.{concat, behind, str_eq-≡}
use flagsmith_common.Base.Dict.{Dict, find, put, find-put}

abbrev pub wsgi_extra_prefix : String
wsgi_extra_prefix = "flagsmith."

module _ {A : Type 0} where
  unfoldable pub log_extra : String → A → Dict A → Dict A
  unfolding concat put
  log_extra key value meta = put (concat wsgi_extra_prefix key) value meta

  unfoldable pub get_extra : Dict A → String → Option A
  unfolding concat find
  get_extra environ key = find (concat wsgi_extra_prefix key) environ

str_eq-concat :
    (s t : String) → str_eq (concat wsgi_extra_prefix s) (concat wsgi_extra_prefix t) ≡ str_eq s t
unfolding concat behind
str_eq-concat s t = elim (Bool-cases (str_eq s t)) [
  | inl e ↦ rw e (
      ap (λ x. str_eq (concat wsgi_extra_prefix s) (concat wsgi_extra_prefix x))
        (sym (str_eq-≡ s t e))
      ∙ eq_refl (concat wsgi_extra_prefix s))
  | inr e ↦ elim (Bool-cases (str_eq (concat wsgi_extra_prefix s) (concat wsgi_extra_prefix t))) [
    | inl f ↦
        let same : s ≡ t = ap (behind 10) (str_eq-≡ _ _ f) in
        let k : str_eq s t ≡ true = ap (λ x. str_eq s x) (sym same) ∙ eq_refl s in absurd (cc)
    | inr f ↦ f ∙ sym e
  ]
]

-- What is stored under a key is read back under this key, and what is stored under the others is kept.
pub get_extra-log_extra :
    {A : Type 0} (key other : String) (value : A) (meta : Dict A)
    → get_extra (log_extra key value meta) other
      ≡ (if str_eq key other then some value else get_extra meta other)
unfolding log_extra get_extra
get_extra-log_extra key other value meta =
    find-put (concat wsgi_extra_prefix other) (concat wsgi_extra_prefix key) value meta
    ∙ rw (str_eq-concat key other) refl
