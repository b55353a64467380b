-- ===== src/VersionInfo/Reports.antt =====
-- The two reports on the version agree.
use flagsmith_common.Base.{
  ◌≡◌, refl, ap, Bool, String, Option, none, some, Option-cases, inl, inr, some_inj, if◌then◌else◌,
}
use flagsmith_common.VersionInfo.{
  Files, EmailSettings, VersionManifest, VersionInfo, get_version, get_version_info,
  get_versions_from_manifest,
}

-- Whenever get_version_info comes to a result, get_version reports its image tag, and the data on a
-- self-hosted installation are left out exactly on SaaS.
pub get_version_info-get_version :
    (loads : String → Option VersionManifest) (files : Files) (settings : EmailSettings)
    (users logins : Bool) (info : VersionInfo)
    → get_version_info loads files settings users logins ≡ some info
    → (get_version loads files ≡ some info.image_tag)
      × (info.self_hosted_data ≡ (
          if info.is_saas then none else some (record { has_users = users; has_logins = logins })))
unfolding get_version_info get_version
get_version_info-get_version loads files settings users logins info h =
    elim (Option-cases (get_versions_from_manifest loads files)) [
      | inl e ↦ absurd (let h' = rw (get_version_info, e) at h in cc)
      | inr (manifest, e) ↦ elim (Option-cases (manifest ".")) [
        | inl m ↦ absurd (let h' = rw (get_version_info, e, m) at h in cc)
        | inr (tag, m) ↦
            let same = some_inj (rw (get_version_info, e, m) at h) in
            (
              rw (get_version, e, m) (ap (λ (i : VersionInfo). some i.image_tag) same),
              rw (← same) refl,
            )
      ]
    ]
