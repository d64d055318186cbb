-- ===== src/Gpu/Choice.antt =====
-- What the renderer choice and the environment come to.
use tizen_os.Base.{
  ◌≤◌, ◌≡◌, ◌≢◌, ◌↔◌, ◌⊎◌, true, false, Option, none, some, List, [], ◌∷◌, arith, length, refl, inl,
  inr, Bool,
}
use tizen_os.Libc.{Bytes, codes, str_eq, str_case_eq}
use tizen_os.Gpu.{
  auto, vulkan, pixman, nvidia, amd, intel, TizenGpuConfig, gles2, TizenRendererType,
}
use tizen_os.Gpu.Renderer.{select_by_vendor, tizen_gpu_select_renderer, tizen_gpu_apply_env}

-- The vendors and drivers for which the code takes Vulkan. The comment above the function names OpenGL
-- for the driver `nvidia` with GBM in every case; the code does not look at GBM, and takes Vulkan for
-- that driver where it has explicit sync.
abbrev pub SuitsVulkan : TizenGpuConfig → Type 0
SuitsVulkan config =
    (config.vendor ≡ amd)
    ⊎ (config.vendor ≡ intel)
    ⊎ ((config.vendor ≡ nvidia)
        × ((str_case_eq config.driver (codes "nvidia") ≡ false) ⊎ (config.explicit_sync ≡ true)))

-- Vulkan is chosen exactly for a GPU that is not virtual, can run Wayland, and is an AMD or Intel one,
-- or an NVIDIA one with another driver than `nvidia` or with explicit sync.
pub select-vulkan_iff :
    (config : TizenGpuConfig)
    → (tizen_gpu_select_renderer (some config) ≡ vulkan)
      ↔ ((config.is_virtual ≡ false) × (config.wayland_capable ≡ true) × SuitsVulkan config)
unfolding tizen_gpu_select_renderer select_by_vendor
select-vulkan_iff config = (λ e. grind arith, λ h. grind arith)

-- The software renderer is chosen exactly for no configuration, a virtual GPU, and one that cannot
-- run Wayland; and the choice is never left to wlroots.
pub select-pixman_iff :
    (config : TizenGpuConfig)
    → ((tizen_gpu_select_renderer (some config) ≡ pixman)
        ↔ ((config.is_virtual ≡ true) ⊎ (config.wayland_capable ≡ false)))
      × (tizen_gpu_select_renderer (some config) ≢ auto)
unfolding tizen_gpu_select_renderer select_by_vendor
select-pixman_iff config = ((λ e. ground arith, λ h. ground arith), λ e. ground arith)

not_runs : (v w : Bool) → ¬ ((v ≡ false) × (w ≡ true)) → (v ≡ true) ⊎ (w ≡ false)
not_runs true w h = inl refl
not_runs false false h = inr refl
not_runs false true h = absurd (h (refl, refl))

runs_unless : (v w : Bool) → ¬ ((v ≡ true) ⊎ (w ≡ false)) → (v ≡ false) × (w ≡ true)
runs_unless true w h = absurd (h (inl refl))
runs_unless false false h = absurd (h (inr refl))
runs_unless false true h = (refl, refl)

the_rest : (r : TizenRendererType) → r ≢ auto → r ≢ vulkan → r ≢ pixman → r ≡ gles2
the_rest auto a v p = absurd (a refl)
the_rest vulkan a v p = absurd (v refl)
the_rest pixman a v p = absurd (p refl)
the_rest gles2 a v p = refl

-- The choice, by the configuration: Vulkan exactly for a GPU that is not virtual, can run Wayland, and is
-- an AMD or Intel one, or an NVIDIA one with another driver than `nvidia` or with explicit sync; the
-- software renderer exactly for a virtual GPU and for one that cannot run Wayland; OpenGL for the rest,
-- so the choice is never left to wlroots.
pub select_renderer_lem :
    (config : TizenGpuConfig)
    → let choice = tizen_gpu_select_renderer (some config) in
      let runs = (config.is_virtual ≡ false) × (config.wayland_capable ≡ true) in
      ((choice ≡ vulkan) ↔ (runs × SuitsVulkan config))
      × ((choice ≡ pixman) ↔ (¬ runs))
      × ((choice ≡ gles2) ↔ (runs × (¬ SuitsVulkan config)))
select_renderer_lem config =
    let vulkan_iff = select-vulkan_iff config in
    let (pixman_iff, not_auto) = select-pixman_iff config in
    (
      (λ e. let h = vulkan_iff.0 e in ((h.0, h.1), h.2), λ h. vulkan_iff.1 (h.0.0, h.0.1, h.1)),
      (λ e h. ground (arith, pixman_iff.0 e, h), λ h. pixman_iff.1 (not_runs _ _ h)),
      (
        λ e.
            let runs =
              runs_unless config.is_virtual config.wayland_capable
                (λ h. ground (arith, e, pixman_iff.1 h)) in
            (runs, λ suits. ground (arith, e, vulkan_iff.1 (runs.0, runs.1, suits))),
        λ h.
            the_rest _ not_auto (λ e. h.1 (vulkan_iff.0 e).2)
              (λ e. ground (arith, pixman_iff.0 e, h.0)),
      ),
    )

abbrev pub IsFreshName : Bytes → List (Bytes × Bytes) → Type 0
IsFreshName name [] = Unit
IsFreshName name ((n, v) ∷ rest) = (str_eq n name ≡ false) × IsFreshName name rest

abbrev pub AreDistinct : List (Bytes × Bytes) → Type 0
AreDistinct [] = Unit
AreDistinct ((n, v) ∷ rest) = IsFreshName n rest × AreDistinct rest

-- The number returned counts the variables set: each is set once, and there are at most five.
pub apply_env_lem :
    (config : Option TizenGpuConfig)
    → let env = tizen_gpu_apply_env config in
      (env.count ≡ length env.settings) × (env.count ≤ 5) × AreDistinct env.settings
unfolding tizen_gpu_apply_env tizen_gpu_select_renderer select_by_vendor str_eq
apply_env_lem none = ground arith
apply_env_lem (some config) = ground arith
