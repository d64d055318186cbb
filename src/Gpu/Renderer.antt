-- ===== src/Gpu/Renderer.antt =====
-- `tizen_gpu_select_renderer` and `tizen_gpu_apply_env` of shell/compositor/src/gpu-backend.c. The
-- environment is what the calls of `setenv` made of it, as the list of those calls.
use tizen_os.Base.{
  ℕ, ◌+◌, Bool, true, false, not, ◌&&◌, Option, none, some, List, [], ◌∷◌, ◌++◌, if◌then◌else◌,
}
use tizen_os.Libc.{Bytes, codes, str_case_eq}
use tizen_os.Gpu.{
  TizenRendererType, auto, vulkan, gles2, pixman, TizenGpuVendor, unknown, nvidia, amd, intel,
  virtual, TizenGpuConfig,
}

-- The `switch` on the vendor.
unfoldable pub select_by_vendor : TizenGpuVendor → TizenGpuConfig → TizenRendererType
select_by_vendor nvidia config =
    if str_case_eq config.driver (codes "nvidia")
    then (if config.explicit_sync then vulkan else gles2)
    else vulkan
select_by_vendor amd config = vulkan
select_by_vendor intel config = vulkan
select_by_vendor _ config = gles2

unfoldable pub tizen_gpu_select_renderer : Option TizenGpuConfig → TizenRendererType
tizen_gpu_select_renderer none = pixman
tizen_gpu_select_renderer (some config) =
    if config.is_virtual
    then pixman
    else if not config.wayland_capable
    then pixman
    else select_by_vendor config.vendor config

unfoldable pub tizen_renderer_name : TizenRendererType → Bytes
tizen_renderer_name auto = codes "auto"
tizen_renderer_name vulkan = codes "vulkan"
tizen_renderer_name gles2 = codes "gles2"
tizen_renderer_name pixman = codes "pixman"

unfoldable pub tizen_gpu_vendor_name : TizenGpuVendor → Bytes
tizen_gpu_vendor_name unknown = codes "unknown"
tizen_gpu_vendor_name nvidia = codes "nvidia"
tizen_gpu_vendor_name amd = codes "amd"
tizen_gpu_vendor_name intel = codes "intel"
tizen_gpu_vendor_name virtual = codes "virtual"

-- A call of `setenv` with `overwrite`, and the count of the calls so far.
pub record Env : Type 0 where
  pub settings : List (Bytes × Bytes)
  pub count : ℕ

setenv : Bytes → Bytes → Env → Env
setenv name value env = record {
  settings = env.settings ++ (name, value) ∷ [];
  count = env.count + 1;
}

set_if : Bool → Bytes → Bytes → Env → Env
set_if b name value env = if b then setenv name value env else env

set_renderer : TizenRendererType → Env → Env
set_renderer vulkan env = setenv (codes "WLR_RENDERER") (codes "vulkan") env
set_renderer pixman env = setenv (codes "WLR_RENDERER") (codes "pixman") env
set_renderer _ env = env

is_nvidia : TizenGpuVendor → Bool
is_nvidia nvidia = true
is_nvidia _ = false

set_nvidia : TizenGpuConfig → Env → Env
set_nvidia config env =
    if is_nvidia config.vendor && str_case_eq config.driver (codes "nvidia")
    then set_if config.explicit_sync (codes "NVIDIA_EXPLICIT_SYNC") (codes "1") (
        set_if config.xwayland_hw_accel (codes "__GLX_VENDOR_LIBRARY_NAME") (codes "nvidia")
          (set_if config.has_gbm (codes "GBM_BACKEND") (codes "nvidia-drm") env))
    else env

is_set : Bytes → Bool
is_set [] = false
is_set (c ∷ cs) = true

set_prime : TizenGpuConfig → Env → Env
set_prime config env =
    set_if (config.prime_available && is_set config.render_node) (codes "WLR_DRM_DEVICES")
      config.render_node env

abbrev pub no_settings : Env
no_settings = record { settings = []; count = 0 }

-- `tizen_gpu_apply_env`: the calls of `setenv`, in order, and the number that it returns.
unfoldable pub tizen_gpu_apply_env : Option TizenGpuConfig → Env
unfolding setenv set_if set_renderer is_nvidia set_nvidia is_set set_prime
tizen_gpu_apply_env none = no_settings
tizen_gpu_apply_env (some config) =
    set_prime config
      (set_nvidia config (set_renderer (tizen_gpu_select_renderer (some config)) no_settings))
