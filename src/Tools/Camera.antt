-- ===== src/Tools/Camera.antt =====
-- multimedia/camera/src/camera.c: the camera, the descriptor and the memory that it owns. The
-- allocations are taken to succeed, as the code does not check them; the query of the driver only
-- matters for a message.
use tizen_os.Installer.Shell.{Host, M, system, succeeded}
use tizen_os.Base.{
  ℕ, ◌+◌, ◌-◌, ◌≡◌, refl, ap, ◌∙◌, inl, inr, Bool, true, false, not, Option, none, some, List, [],
  ◌∷◌, ◌++◌, arith, ◌==◌, if◌then◌else◌, Bool-cases,
}
use tizen_os.Libc.{Bytes, codes}

pub record TizenCamera : Type 0 where
  pub device_path : ℕ
  pub fd : Option ℕ
  pub is_previewing : Bool
  pub width : ℕ
  pub height : ℕ
  pub fps : ℕ

-- The descriptors that are open, and the blocks that are allocated, with the number of the next one.
-- The block of the camera itself is numbered one below that of its path.
pub record Machine : Type 0 where
  pub open_fds : List ℕ
  pub blocks : List ℕ
  pub next : ℕ
  pub opened : List Bytes

abbrev remove : ℕ → List ℕ → List ℕ
remove a [] = []
remove a (x ∷ xs) = let rest = remove a xs in if a == x then xs else x ∷ rest

abbrev path_of : Option Bytes → Bytes
path_of none = codes "/dev/video0"
path_of (some path) = path

-- `tizen_camera_create`, over what `open` answers: a descriptor, or none.
pub tizen_camera_create : Option Bytes → Option ℕ → Machine → TizenCamera × Machine
tizen_camera_create device_path answer m = (
  record {
    device_path = m.next + 1;
    fd = answer;
    is_previewing = false;
    width = 1920;
    height = 1080;
    fps = 60;
  },
  record {
    open_fds = elim answer [ none ↦ m.open_fds | some fd ↦ fd ∷ m.open_fds ];
    blocks = (m.next + 1) ∷ m.next ∷ m.blocks;
    next = m.next + 2;
    opened = m.opened ++ path_of device_path ∷ [];
  },
)

pub tizen_camera_destroy : Option TizenCamera → Machine → Machine
tizen_camera_destroy none m = m
tizen_camera_destroy (some camera) m = record m {
  open_fds = elim camera.fd [ none ↦ m.open_fds | some fd ↦ remove fd m.open_fds ];
  blocks = remove (camera.device_path - 1) (remove camera.device_path m.blocks);
}

pub tizen_camera_start_preview : Option TizenCamera → Option TizenCamera
tizen_camera_start_preview none = none
tizen_camera_start_preview (some camera) =
    if not camera.is_previewing then some (record camera { is_previewing = true }) else some camera

pub tizen_camera_stop_preview : Option TizenCamera → Option TizenCamera
tizen_camera_stop_preview none = none
tizen_camera_stop_preview (some camera) =
    if camera.is_previewing then some (record camera { is_previewing = false }) else some camera

-- `tizen_camera_enable_obs_virtual_cam`, on the machine of the installer's `Shell`.
pub tizen_camera_enable_obs_virtual_cam : Host → M Bool
tizen_camera_enable_obs_virtual_cam host t =
    let (res, t') =
      system host
        (codes
          "modprobe v4l2loopback devices=1 video_nr=10 card_label='OBS Virtual Camera' exclusive_caps=1 2>/dev/null")
        t in
    (succeeded res, t')

pub data Request : Type 0 where
  start_preview stop_preview : Request

pub serve : List Request → Option TizenCamera → Option TizenCamera
serve [] camera = camera
serve (start_preview ∷ rs) camera = serve rs (tizen_camera_start_preview camera)
serve (stop_preview ∷ rs) camera = serve rs (tizen_camera_stop_preview camera)

-- What the last request asks for, and `b` if there is none.
pub wanted : List Request → Bool → Bool
wanted [] b = b
wanted (start_preview ∷ rs) b = wanted rs true
wanted (stop_preview ∷ rs) b = wanted rs false

starts :
    (camera : TizenCamera)
    → tizen_camera_start_preview (some camera) ≡ some (record camera { is_previewing = true })
unfolding tizen_camera_start_preview
starts camera = elim (Bool-cases camera.is_previewing) [ inl e ↦ rw e refl | inr e ↦ rw e refl ]

stops :
    (camera : TizenCamera)
    → tizen_camera_stop_preview (some camera) ≡ some (record camera { is_previewing = false })
unfolding tizen_camera_stop_preview
stops camera = elim (Bool-cases camera.is_previewing) [ inl e ↦ rw e refl | inr e ↦ rw e refl ]

serve_lem :
    (rs : List Request) (camera : TizenCamera)
    → serve rs (some camera)
      ≡ some (record camera { is_previewing = wanted rs camera.is_previewing })
unfolding serve wanted
serve_lem [] camera = refl
serve_lem (start_preview ∷ rs) camera =
    ap (serve rs) (starts camera) ∙ serve_lem rs (record camera { is_previewing = true })
serve_lem (stop_preview ∷ rs) camera =
    ap (serve rs) (stops camera) ∙ serve_lem rs (record camera { is_previewing = false })

-- A camera that is created, asked to start and stop its preview any number of times, and destroyed,
-- leaves the open descriptors and the allocated blocks exactly as they were, whether its device could
-- be opened or not; and before it is destroyed, it previews exactly if the last request was to start.
pub camera_session_lem :
    (path : Option Bytes) (answer : Option ℕ) (rs : List Request) (m : Machine)
    → let (camera, made) = tizen_camera_create path answer m in
      let last = serve rs (some camera) in
      let after = tizen_camera_destroy last made in
      (after.open_fds ≡ m.open_fds)
      × (after.blocks ≡ m.blocks)
      × (last ≡ some (record camera { is_previewing = wanted rs false }))
unfolding tizen_camera_create tizen_camera_destroy
camera_session_lem path none rs m =
    let served = serve_lem rs (tizen_camera_create path none m).0 in rw served (ground arith)
camera_session_lem path (some fd) rs m =
    let served = serve_lem rs (tizen_camera_create path (some fd) m).0 in rw served (ground arith)
