-- ===== src/Notebook/Spec.antt =====
-- What every resource that is built holds.
use marimo_operator.Base.{
  Text, codes, same, ◌≡◌, refl, ap, ◌∙◌, sym, true, false, Option, none, some, List, Bool-cases,
  inl, inr,
}
use marimo_operator.Result.{Result, ok, >>=-eq-ok, ◌>>=◌}
use marimo_operator.Value.{Value, Fields, empty, ℤ, str, int, list, dict, items, get, put, int_of}
use marimo_operator.Value.Laws.{get-put}
use marimo_operator.Notebook.{
  to_int, image_setting, port_setting, auth_setting, env_of, env_setting, resources_setting,
  settings,
}

-- The frontmatter settings do not write this field.
pub record IsKept (j : Text) : Type 0 where
  pub image : same (codes "image") j ≡ false
  pub port : same (codes "port") j ≡ false
  pub auth : same (codes "auth") j ≡ false
  pub env : same (codes "env") j ≡ false
  pub resources : same (codes "resources") j ≡ false

port_setting-ok :
    (v : Value) (spec : Fields) {out : Fields}
    → port_setting (some v) spec ≡ ok out
    → (n : ℤ) × (out ≡ put (codes "port") (int n) spec)
unfolding port_setting
port_setting-ok v spec h =
    let (n, read, e) =
      >>=-eq-ok (to_int v (int_of v)) (λ n. ok (put (codes "port") (int n) spec)) h in
    (n, cc)

env_setting-ok :
    (v : Value) (spec : Fields) {out : Fields}
    → env_setting (some v) spec ≡ ok out
    → (env : List Value) × (out ≡ put (codes "env") (list (items env)) spec)
unfolding env_setting
env_setting-ok v spec h =
    let (env, read, e) =
      >>=-eq-ok (env_of v) (λ env. ok (put (codes "env") (list (items env)) spec)) h in
    (env, cc)

auth_setting-none :
    (s : Text) (spec : Fields)
    → same s (codes "none") ≡ true
    → auth_setting (some (str s)) spec ≡ put (codes "auth") (dict empty) spec
unfolding auth_setting
auth_setting-none s spec h = rw h refl

auth_setting-other :
    (s : Text) (spec : Fields)
    → same s (codes "none") ≡ false
    → auth_setting (some (str s)) spec ≡ spec
unfolding auth_setting
auth_setting-other s spec h = rw h refl

-- The part of `settings` behind the port.
abbrev later_settings : Fields → Fields → Result Fields
later_settings fm with_port =
    env_setting (get (codes "env") fm) (auth_setting (get (codes "auth") fm) with_port)
    >>= λ with_env. ok (resources_setting (get (codes "resources") fm) with_env)

settings-port :
    (fm spec : Fields) {out : Fields}
    → settings fm spec ≡ ok out
    → (with_port : Fields) × (port_setting
          (get (codes "port") fm)
          (image_setting (get (codes "image") fm) spec)
        ≡ ok with_port)
      × (later_settings fm with_port ≡ ok out)
settings-port fm spec h =
    >>=-eq-ok (port_setting (get (codes "port") fm) (image_setting (get (codes "image") fm) spec))
      (later_settings fm) (sym (settings_lem fm spec) ∙ h)
  where
    settings_lem :
        (f s : Fields)
        → settings f s ≡ (
            port_setting (get (codes "port") f) (image_setting (get (codes "image") f) s)
            >>= later_settings f)
    settings_lem f s = unfold settings in refl

settings-env :
    (fm with_port : Fields) {out : Fields}
    → later_settings fm with_port ≡ ok out
    → (with_env : Fields) × (env_setting
          (get (codes "env") fm)
          (auth_setting (get (codes "auth") fm) with_port)
        ≡ ok with_env)
      × (out ≡ resources_setting (get (codes "resources") fm) with_env)
settings-env fm with_port h =
    let (with_env, q, e) =
      >>=-eq-ok
        (env_setting (get (codes "env") fm) (auth_setting (get (codes "auth") fm) with_port))
        (λ with_env. ok (resources_setting (get (codes "resources") fm) with_env)) h in
    (with_env, q, cc)

module _ (j : Text) (kept : IsKept j) where
  get-image_setting : (o : Option Value) (spec : Fields) → get j (image_setting o spec) ≡ get j spec
  unfolding image_setting
  get-image_setting none spec = refl
  get-image_setting (some v) spec = get-put j (codes "image") v spec ∙ rw kept.image refl

  get-port_setting :
      (o : Option Value) (spec : Fields) {out : Fields}
      → port_setting o spec ≡ ok out
      → get j out ≡ get j spec
  get-port_setting none spec h = unfold port_setting in cc
  get-port_setting (some v) spec h =
      let (n, e) = port_setting-ok v spec h in
      ap (get j) e ∙ get-put j (codes "port") (int n) spec ∙ rw kept.port refl

  get-auth_setting : (o : Option Value) (spec : Fields) → get j (auth_setting o spec) ≡ get j spec
  get-auth_setting none spec = unfold auth_setting in refl
  get-auth_setting (some (str s)) spec = elim (Bool-cases (same s (codes "none"))) [
    | inl off ↦
        ap (get j) (auth_setting-none s spec off)
        ∙ get-put j (codes "auth") (dict empty) spec
        ∙ rw kept.auth refl
    | inr on ↦ ap (get j) (auth_setting-other s spec on)
  ]
  get-auth_setting (some _) spec = unfold auth_setting in refl

  get-env_setting :
      (o : Option Value) (spec : Fields) {out : Fields}
      → env_setting o spec ≡ ok out
      → get j out ≡ get j spec
  get-env_setting none spec h = unfold env_setting in cc
  get-env_setting (some v) spec h =
      let (env, e) = env_setting-ok v spec h in
      ap (get j) e ∙ get-put j (codes "env") (list (items env)) spec ∙ rw kept.env refl

  get-resources_setting :
      (o : Option Value) (spec : Fields) → get j (resources_setting o spec) ≡ get j spec
  unfolding resources_setting
  get-resources_setting none spec = refl
  get-resources_setting (some v) spec =
      get-put j (codes "resources") v spec ∙ rw kept.resources refl

  -- A setting of the frontmatter leaves the other fields alone.
  pub get-settings :
      (fm spec : Fields) {out : Fields} → settings fm spec ≡ ok out → get j out ≡ get j spec
  get-settings fm spec h =
      let (with_port, p, rest) = settings-port fm spec h in
      let (with_env, q, e) = settings-env fm with_port rest in
      ap (get j) e
      ∙ get-resources_setting (get (codes "resources") fm) with_env
      ∙ get-env_setting (get (codes "env") fm) _ q
      ∙ get-auth_setting (get (codes "auth") fm) with_port
      ∙ get-port_setting (get (codes "port") fm) _ p
      ∙ get-image_setting (get (codes "image") fm) spec
