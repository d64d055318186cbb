-- ===== src/Gpu/Environment.antt =====
-- What `tizen_gpu_apply_env` of shell/compositor/src/gpu-backend.c makes of an environment, that is of what `getenv`
-- finds in it: the calls of `setenv` overwrite.
use tizen_os.Base.{
  ℕ, suc, ◌≡◌, refl, ap, ◌∙◌, inl, inr, Bool, true, false, not, ◌&&◌, Option, none, some, List, [],
  ◌∷◌, arith, if◌then◌else◌, Bool-cases,
}
use tizen_os.Libc.Laws.{str_eq_iff}
use tizen_os.Libc.{Bytes, codes, str_eq, str_case_eq}
use tizen_os.Gpu.{vulkan, pixman, nvidia, TizenGpuConfig}
use tizen_os.Gpu.Renderer.{tizen_gpu_select_renderer, tizen_gpu_apply_env}

-- `getenv (name)` after some calls of `setenv`, on what it was before.
unfoldable pub getenv : List (Bytes × Bytes) → Bytes → Option Bytes → Option Bytes
getenv [] name before = before
getenv ((n, value) ∷ settings) name before =
    getenv settings name (if str_eq name n then some value else before)

abbrev pub runs_nvidia : TizenGpuConfig → Bool
runs_nvidia config = elim config.vendor [
  | nvidia ↦ str_case_eq config.driver (codes "nvidia")
  | _ ↦ false
]

abbrev when : Bool → Bytes → Option Bytes
when b value = if b then some value else none

-- The five variables, each with the value that it is to have, where it is to be set.
unfoldable pub wanted : TizenGpuConfig → List (Bytes × Option Bytes)
wanted config =
    (
      codes "WLR_RENDERER",
      elim (tizen_gpu_select_renderer (some config)) [
        | vulkan ↦ some (codes "vulkan")
        | pixman ↦ some (codes "pixman")
        | _ ↦ none
      ],
    )
    ∷ (codes "GBM_BACKEND", when (runs_nvidia config && config.has_gbm) (codes "nvidia-drm"))
    ∷ (
      codes "__GLX_VENDOR_LIBRARY_NAME",
      when (runs_nvidia config && config.xwayland_hw_accel) (codes "nvidia"),
    )
    ∷ (codes "NVIDIA_EXPLICIT_SYNC", when (runs_nvidia config && config.explicit_sync) (codes "1"))
    ∷ (
      codes "WLR_DRM_DEVICES",
      elim config.render_node [ [] ↦ none | c ∷ cs ↦ when config.prime_available (c ∷ cs) ],
    )
    ∷ []

-- What a name is to be, if it is one of the five and is to be set.
unfoldable pub find : Bytes → List (Bytes × Option Bytes) → Option Bytes
find name [] = none
find name ((n, value) ∷ rest) = let later = find name rest in if str_eq name n then value else later

-- How many are to be set.
unfoldable pub number : List (Bytes × Option Bytes) → ℕ
number [] = 0
number ((n, none) ∷ rest) = number rest
number ((n, some value) ∷ rest) = suc (number rest)

-- The calls that make the wanted values.
unfoldable settings_of : List (Bytes × Option Bytes) → List (Bytes × Bytes)
settings_of [] = []
settings_of ((n, none) ∷ rest) = settings_of rest
settings_of ((n, some value) ∷ rest) = (n, value) ∷ settings_of rest

-- No name stands twice.
unfoldable is_new : Bytes → List (Bytes × Option Bytes) → Bool
is_new name [] = true
is_new name ((n, value) ∷ rest) = not (str_eq name n) && is_new name rest

unfoldable are_apart : List (Bytes × Option Bytes) → Bool
are_apart [] = true
are_apart ((n, value) ∷ rest) = is_new n rest && are_apart rest

not_found :
    (ws : List (Bytes × Option Bytes)) (name : Bytes) (before : Option Bytes)
    → is_new name ws ≡ true
    → getenv (settings_of ws) name before ≡ before
unfolding getenv settings_of is_new
not_found [] name before h = refl
not_found ((n, none) ∷ ws) name before h =
    let rest : is_new name ws ≡ true = ground arith in not_found ws name before rest
not_found ((n, some v) ∷ ws) name before h =
    let rest : is_new name ws ≡ true = ground arith in ground (arith, not_found ws name before rest)

getenv-settings_of :
    (ws : List (Bytes × Option Bytes)) (name : Bytes) (before : Option Bytes)
    → are_apart ws ≡ true
    → getenv (settings_of ws) name before
      ≡ elim (find name ws) [ none ↦ before | some value ↦ some value ]
unfolding getenv settings_of find are_apart
getenv-settings_of [] name before h = refl
getenv-settings_of ((n, none) ∷ ws) name before h = elim (Bool-cases (str_eq name n)) [
  | inl t ↦
      let same = ap (λ m. is_new m ws) ((str_eq_iff name n).0 t) in
      let new : is_new name ws ≡ true = ground (arith, same) in
      ground (arith, not_found ws name before new)
  | inr f ↦
      let rest : are_apart ws ≡ true = ground arith in
      ground (arith, getenv-settings_of ws name before rest)
]
getenv-settings_of ((n, some v) ∷ ws) name before h = elim (Bool-cases (str_eq name n)) [
  | inl t ↦
      let same = ap (λ m. is_new m ws) ((str_eq_iff name n).0 t) in
      let new : is_new name ws ≡ true = ground (arith, same) in
      ground (arith, not_found ws name (some v) new)
  | inr f ↦
      let rest : are_apart ws ≡ true = ground arith in
      ground (arith, getenv-settings_of ws name before rest)
]

are_apart-wanted : (config : TizenGpuConfig) → are_apart (wanted config) ≡ true
unfolding are_apart is_new wanted str_eq
are_apart-wanted config = refl

apply-settings_of :
    (config : TizenGpuConfig)
    → ((tizen_gpu_apply_env (some config)).settings ≡ settings_of (wanted config))
      × ((tizen_gpu_apply_env (some config)).count ≡ number (wanted config))
unfolding tizen_gpu_apply_env wanted settings_of number
apply-settings_of config = ground arith

nothing_set : tizen_gpu_apply_env none ≡ record { settings = []; count = 0 }
unfolding tizen_gpu_apply_env
nothing_set = refl

-- In any environment, and for any name: what `getenv` finds after `tizen_gpu_apply_env` is the value that
-- the configuration wants for the name, and what it found before where it wants none, so for the
-- renderer of OpenGL a choice that was in the environment stays; and the number that the function
-- returns is how many of the five variables it set. Without a configuration nothing is set.
pub environment_lem :
    (config : TizenGpuConfig) (name : Bytes) (before : Option Bytes)
    → let env = tizen_gpu_apply_env (some config) in
      (getenv env.settings name before
        ≡ elim (find name (wanted config)) [ none ↦ before | some value ↦ some value ])
      × (env.count ≡ number (wanted config))
      × (tizen_gpu_apply_env none ≡ record { settings = []; count = 0 })
environment_lem config name before =
    let calls = apply-settings_of config in
    (
      ap (λ settings. getenv settings name before) calls.0
          ∙ getenv-settings_of (wanted config) name before (are_apart-wanted config),
      calls.1,
      nothing_set,
    )
