-- ===== src/Gpu/Tests.antt =====
-- The theorems on the GPU backend at concrete inputs.
use tizen_os.Base.{none, ◌≡◌, refl, ◌↔◌, true, false, some, List, [], ◌∷◌, arith}
use tizen_os.Gpu.Environment.{getenv, find, wanted, number, environment_lem}
use tizen_os.Base.{none, ◌≡◌, refl, ◌↔◌, true, false, some, List, [], ◌∷◌, arith}
use tizen_os.Gpu.Report.{columns, width}
use tizen_os.Base.{◌≡◌, refl, ◌↔◌, true, false, some, List, [], ◌∷◌, arith}
use tizen_os.Base.Int.{pos}
use tizen_os.Libc.Numbers.{atoi}
use tizen_os.Libc.{codes, str_eq, str_case_eq, to_lower}
use tizen_os.Libc.Lines.{unlines}
use tizen_os.Gpu.{
  TizenGpuConfig, nvidia, vulkan, no_config, tizen_gpu_detect, set_key, parse_vendor, safe_copy,
  pixman, gles2,
}
use tizen_os.Gpu.Renderer.{tizen_gpu_select_renderer, tizen_gpu_apply_env, select_by_vendor}
use tizen_os.Gpu.Choice.{SuitsVulkan, select_renderer_lem}
use tizen_os.Gpu.Bounds.{IsBounded, Agrees, detect_lem}
use tizen_os.Gpu.Parsing.{
  Item, blank, comment, entry, show_all, apply_items, config_of, last_value, detect-unlines,
}

abbrev report : List Item
report =
    comment (codes " TizenOS GPU Detection Results")
    ∷ blank
    ∷ entry (codes "GPU_VENDOR") (codes "nvidia")
    ∷ entry (codes "GPU_DRIVER") (codes "nvidia")
    ∷ entry (codes "GPU_PRIMARY") (codes "0000")
    ∷ entry (codes "GPU_COUNT") (codes "2")
    ∷ []

abbrev hybrid : TizenGpuConfig
hybrid = record {
  vendor = nvidia;
  vendor_name = codes "nvidia";
  driver = codes "nvidia";
  driver_version = [];
  render_node = codes "/dev/dri/renderD128";
  has_gbm = true;
  wayland_capable = true;
  xwayland_hw_accel = true;
  explicit_sync = true;
  prime_available = true;
  is_virtual = false;
  modeset_active = true;
  nvidia_major_version = 550;
  igpu_driver = codes "i915";
  dgpu_driver = codes "nvidia";
  gpu_count = pos 2;
}

detect-unlines_example :
    (tizen_gpu_detect true (some (unlines (show_all report)))).1
    ≡ some (config_of (λ key. last_value key report))
detect-unlines_example = detect-unlines report (omega arith, omega arith)

report_read : apply_items report no_config ≡ record no_config {
  vendor = nvidia;
  vendor_name = codes "nvidia";
  driver = codes "nvidia";
  gpu_count = pos 2;
}
unfolding atoi set_key no_config parse_vendor safe_copy str_eq str_case_eq to_lower
report_read = refl

detect_lem_example :
    (config : TizenGpuConfig) × ((tizen_gpu_detect true (some (codes "GPU_COUNT=1\n"))).1
      ≡ some config)
    × IsBounded config
    × Agrees (tizen_gpu_detect true (some (codes "GPU_COUNT=1\n"))).0 config
detect_lem_example = detect_lem (some (codes "GPU_COUNT=1\n"))

five_set : (tizen_gpu_apply_env (some hybrid)).count ≡ 5
unfolding tizen_gpu_apply_env tizen_gpu_select_renderer select_by_vendor str_case_eq to_lower
five_set = refl

select_renderer_lem_example :
    let choice = tizen_gpu_select_renderer (some hybrid) in
    let runs = (hybrid.is_virtual ≡ false) × (hybrid.wayland_capable ≡ true) in
    ((choice ≡ vulkan) ↔ (runs × SuitsVulkan hybrid))
    × ((choice ≡ pixman) ↔ (¬ runs))
    × ((choice ≡ gles2) ↔ (runs × (¬ SuitsVulkan hybrid)))
select_renderer_lem_example = select_renderer_lem hybrid

a_text_row : width (codes "nvidia") ≡ 51
unfolding width columns
a_text_row = refl

-- A variable that was set before.
environment_lem_example :
    let env = tizen_gpu_apply_env (some hybrid) in
    (getenv env.settings (codes "WLR_RENDERER") (some (codes "gles2"))
      ≡ elim (find (codes "WLR_RENDERER") (wanted hybrid)) [
        | none ↦ some (codes "gles2")
        | some value ↦ some value
      ])
    × (env.count ≡ number (wanted hybrid))
    × (tizen_gpu_apply_env none ≡ record { settings = []; count = 0 })
environment_lem_example = environment_lem hybrid (codes "WLR_RENDERER") (some (codes "gles2"))
