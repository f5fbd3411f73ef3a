-- ===== src/Profile/Laws.antt =====
-- What the tabs may rely on once a profile is normalised.
use webhook_listener.Prelude.{
  ◌≡◌, refl, ap, sym, ◌∙◌, ◌≢◌, ◌⊎◌, inl, inr, Bool, true, false, String, ◌==◌, eq_iff, eq_refl,
  arith, if◌then◌else◌, Bool-cases,
}
use webhook_listener.Js.Value.{Value, str, prop, truthy, is_text, ◌or◌}
use webhook_listener.Js.Text.{
  strip_slashes, ends_in, is_slash, ends_in-drop_end, drop_end_of_not-ends_in,
}
use webhook_listener.Js.Object.{own-set_own}
use webhook_listener.Js.Engine.{Engine}
use webhook_listener.Async.{Result, ok, err}
use webhook_listener.Profile.{
  normalize_app_profile, normalized, map_ok, replace_slashes, single_tenant, default_base_url,
  default_mail_domain,
}

-- A profile in the form that the console works with.
pub record IsNormal (profile : Value) : Type 0 where
  pub plan : (prop "plan" profile ≡ str "enterprise") ⊎ (prop "plan" profile ≡ str "basic")
  pub mode :
      (prop "deployment_mode" profile ≡ str "single_tenant")
      ⊎ (prop "deployment_mode" profile ≡ str "multitenant")
  pub auth : truthy (prop "auth_mode" profile) ≡ true
  pub mail : truthy (prop "mail_domain" profile) ≡ true
  pub url : String
  pub base_url : prop "public_base_url" profile ≡ str url
  pub no_slash : ends_in is_slash url ≡ false

ends_in-strip_slashes : (s : String) → ends_in is_slash (strip_slashes s) ≡ false
unfolding strip_slashes
ends_in-strip_slashes s = ends_in-drop_end is_slash s

truthy-or : (v : Value) (s : String) → (s == "") ≡ false → truthy (v or str s) ≡ true
unfolding truthy
truthy-or v s h = elim (Bool-cases (truthy v)) [ inl e ↦ rw e e | inr e ↦ rw (e, truthy, h) ]

module _ (profile : Value) (url : String) where
  pub plan-normalized :
      prop "plan" (normalized profile url)
      ≡ str (if is_text (prop "plan" profile) "enterprise" then "enterprise" else "basic")
  unfolding normalized prop
  plan-normalized = simp own-set_own

  pub mode-normalized :
      prop "deployment_mode" (normalized profile url)
      ≡ str (if single_tenant profile then "single_tenant" else "multitenant")
  unfolding normalized prop
  mode-normalized = simp own-set_own

  pub auth-normalized : prop "auth_mode" (normalized profile url) ≡ (
      prop "auth_mode" profile
      or str (if single_tenant profile then "single_tenant_admin_secret" else "scalekit"))
  unfolding normalized prop
  auth-normalized = simp own-set_own

  pub url-normalized : prop "public_base_url" (normalized profile url) ≡ str url
  unfolding normalized prop
  url-normalized = simp own-set_own

  pub mail-normalized :
      prop "mail_domain" (normalized profile url)
      ≡ (prop "mail_domain" profile or str default_mail_domain)
  unfolding normalized prop
  mail-normalized = simp own-set_own

text_choice :
    (v : Value) (a b : String)
    → (b == a) ≡ false
    → (v ≡ str a) ⊎ (v ≡ str b)
    → str (if is_text v a then a else b) ≡ v
text_choice v a b h (inl e) = rw (e, eq_refl)
text_choice v a b h (inr e) = rw (e, h)

auth_default-ne-nil :
    (b : Bool) → ((if b then "single_tenant_admin_secret" else "scalekit") == "") ≡ false
auth_default-ne-nil true = refl
auth_default-ne-nil false = refl

map_ok-eq-ok :
    {q : Value} (r : Result String) (f : String → Value)
    → map_ok r f ≡ ok q
    → (s : String) × (r ≡ ok s) × (f s ≡ q)
map_ok-eq-ok (ok s) f h = (s, refl, cc)
map_ok-eq-ok (err e) f h = cc

module _ ⦃js : Engine⦄ where
  replace_slashes-eq-ok :
      (v : Value) (s : String) → replace_slashes v ≡ ok s → ends_in is_slash s ≡ false
  unfolding replace_slashes
  replace_slashes-eq-ok (str t) s h =
      let e : strip_slashes t ≡ s = cc in rw (← e) (ends_in-strip_slashes t)
  replace_slashes-eq-ok v s h = cc

  normalized-IsNormal :
      (profile : Value) (url : String)
      → ends_in is_slash url ≡ false
      → IsNormal (normalized profile url)
  normalized-IsNormal profile url h = record {
    plan = rw plan-normalized (ground arith);
    mode = rw mode-normalized (ground arith);
    auth = rw auth-normalized (truthy-or _ _ (auth_default-ne-nil (single_tenant profile)));
    mail = rw mail-normalized (truthy-or _ _ refl);
    url = url;
    base_url = url-normalized profile url;
    no_slash = h;
  }

  strip_slashes_of_no_slash : (u : String) → ends_in is_slash u ≡ false → strip_slashes u ≡ u
  unfolding strip_slashes
  strip_slashes_of_no_slash u h = drop_end_of_not-ends_in is_slash u h

  replaced :
      (v : Value) (u : String)
      → v ≡ str u
      → u ≢ ""
      → ends_in is_slash u ≡ false
      → replace_slashes (v or str default_base_url) ≡ ok u
  unfolding replace_slashes truthy
  replaced v u e ne h = rw e (ground (arith, eq_iff u "", strip_slashes_of_no_slash u h))

  renormalize :
      (q : Value)
      → IsNormal q
      → prop "public_base_url" q ≢ str ""
      → (r : Value) × (normalize_app_profile q ≡ ok r)
        × (prop "plan" r ≡ prop "plan" q)
        × (prop "deployment_mode" r ≡ prop "deployment_mode" q)
        × (prop "auth_mode" r ≡ prop "auth_mode" q)
        × (prop "public_base_url" r ≡ prop "public_base_url" q)
        × (prop "mail_domain" r ≡ prop "mail_domain" q)
  unfolding normalize_app_profile
  renormalize q n ne =
      let nonempty : n.url ≢ "" = λ e. ne (n.base_url ∙ ap str e) in
      (
        normalized q n.url,
        rw (replaced _ n.url n.base_url nonempty n.no_slash),
        rw plan-normalized (text_choice _ "enterprise" "basic" refl n.plan),
        rw mode-normalized (text_choice _ "single_tenant" "multitenant" refl n.mode),
        rw auth-normalized (rw n.auth),
        url-normalized q n.url ∙ sym n.base_url,
        rw mail-normalized (rw n.mail),
      )

  -- Whatever the server sends, a profile that normalises is in normal form.
  pub normalize_app_profile-IsNormal :
      (profile q : Value) → normalize_app_profile profile ≡ ok q → IsNormal q
  unfolding normalize_app_profile
  normalize_app_profile-IsNormal profile q h =
      let (url, stripped, same) = map_ok-eq-ok _ (normalized profile) h in
      rw (← same) (normalized-IsNormal profile url (replace_slashes-eq-ok _ url stripped))

  -- Normalising twice is normalising once, in every field that the console reads, unless the base
  -- URL consists of slashes alone.
  pub normalize_app_profile_idem :
      (profile q : Value)
      → normalize_app_profile profile ≡ ok q
      → prop "public_base_url" q ≢ str ""
      → (r : Value) × (normalize_app_profile q ≡ ok r)
        × (prop "plan" r ≡ prop "plan" q)
        × (prop "deployment_mode" r ≡ prop "deployment_mode" q)
        × (prop "auth_mode" r ≡ prop "auth_mode" q)
        × (prop "public_base_url" r ≡ prop "public_base_url" q)
        × (prop "mail_domain" r ≡ prop "mail_domain" q)
  normalize_app_profile_idem profile q h ne =
      renormalize q (normalize_app_profile-IsNormal profile q h) ne
