-- ===== src/Gunicorn/Categories.antt =====
-- The proofs on the categories of the extra items of an access log.
use flagsmith_common.Base.{
  ◌≡◌, refl, ap, ◌∙◌, true, String, Option, none, some, List, [], ◌∷◌, str_eq,
}
use flagsmith_common.Base.Sets.{member}
use flagsmith_common.Base.Dict.{find, find-All}
use flagsmith_common.Gunicorn.AccessLog.{
  wsgi_extra_suffix_to_category, match_wsgi_extra_key, key_and_category,
}

abbrev pub categories : List String
categories = "request_headers" ∷ "response_headers" ∷ "environ_variables" ∷ []

same_second :
    {a b c d : String} → ◌≡◌ {A = Option (String × String)} (some (a, b)) (some (c, d)) → b ≡ d
same_second e = cc

-- The category of an extra item is one of the three.
pub key_and_category-member :
    (extra_key key category : String)
    → key_and_category extra_key ≡ some (key, category)
    → member str_eq category categories ≡ true
unfolding key_and_category find
key_and_category-member extra_key key category e = go (match_wsgi_extra_key extra_key) refl
  where
    known :
        (suffix : String)
        → find suffix wsgi_extra_suffix_to_category ≡ some category
        → member str_eq category categories ≡ true
    known suffix f =
        find-All (λ entry. member str_eq entry.1 categories ≡ true) suffix category
          wsgi_extra_suffix_to_category (refl, (refl, (refl, tt))) f

    behind :
        (key' suffix : String) (c : Option String)
        → find suffix wsgi_extra_suffix_to_category ≡ c
        → match_wsgi_extra_key extra_key ≡ some (key', suffix)
        → member str_eq category categories ≡ true
    behind key' suffix none f m = absurd (let k = rw (key_and_category, m, f) at e in cc)
    behind key' suffix (some c) f m =
        let k : some (key', c) ≡ some (key, category) = rw (key_and_category, m, f) at e in
        known suffix (f ∙ ap some (same_second k))

    go :
        (m : Option (String × String))
        → match_wsgi_extra_key extra_key ≡ m
        → member str_eq category categories ≡ true
    go none f = absurd (let k = rw (key_and_category, f) at e in cc)
    go (some (key', suffix)) f =
        behind key' suffix (find suffix wsgi_extra_suffix_to_category) refl f
