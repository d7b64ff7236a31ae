-- ===== src/Config/Secret.antt =====
-- secure_app/config.py: the secret that the tokens are signed with.
use honeypot_m1spro.Base.{
  ◌≤◌, String, ◌≡◌, refl, subst, ◌⊎◌, inl, inr, false, arith, ◌==◌, ltb, Bool-cases, size,
}
use honeypot_m1spro.Shell.Paths.{strip}
use honeypot_m1spro.Config.{
  Environ, env_text, settings_of, names_prod, is_prod, get_settings, Host, AppSettings, started,
  refused,
}

started-injective : (a b : AppSettings) → started a ≡ started b → a ≡ b
started-injective a b e = cc

-- Where a drawn secret has 32 characters, an application that starts signs with a secret of 32
-- characters at least, and in production with the one that the environment gives.
pub get_settings-secret :
    (h : Host) (env : Environ) (s : AppSettings)
    → 32 ≤ size h.token_urlsafe
    → get_settings h env ≡ started s
    → (32 ≤ size s.secret_key)
      × ((is_prod h s ≡ false) ⊎ (s.secret_key ≡ strip (env_text env "SECURE_APP_SECRET_KEY" "")))
unfolding get_settings settings_of
get_settings-secret h env s drawn e =
    let secret = strip (env_text env "SECURE_APP_SECRET_KEY" "") in
    elim (Bool-cases (secret == "")) [
      | inl none_set ↦ elim (Bool-cases (names_prod h (env_text env "SECURE_APP_ENV" "dev"))) [
        | inl prod ↦ absurd (stopped (rw (none_set, prod) at e))
        | inr dev ↦
            let same : settings_of h env h.token_urlsafe ≡ s =
              started-injective _ _ (rw (none_set, dev) at e) in
            subst
              (λ (t : AppSettings).
                (32 ≤ size t.secret_key) × ((is_prod h t ≡ false) ⊎ (t.secret_key ≡ secret)))
              same (drawn, inl dev)
      ]
      | inr set ↦ elim (Bool-cases (ltb (size secret) 32)) [
        | inl short ↦ absurd (stopped (rw (set, short) at e))
        | inr long ↦
            let same : settings_of h env secret ≡ s = started-injective _ _ (rw (set, long) at e) in
            subst
              (λ (t : AppSettings).
                (32 ≤ size t.secret_key) × ((is_prod h t ≡ false) ⊎ (t.secret_key ≡ secret)))
              same (ground arith, inr refl)
      ]
    ]
  where
    stopped : {m : String} → refused m ≡ started s → ⊥
    stopped f = cc
