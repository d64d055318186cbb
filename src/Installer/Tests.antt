-- ===== src/Installer/Tests.antt =====
-- The theorems of `Installer` at a machine whose commands all succeed and a disk `/dev/sda`.
use tizen_os.Installer.Wizard.Several.{
  Input as Start, activate, at, receive_all, starts, total_installs, runs, HasValid, several_lem,
}
use tizen_os.Installer.Wizard.Steps.{IsValid}
use tizen_os.Base.{
  ◌≤◌, ◌≡◌, refl, ◌↔◌, ◌⊎◌, true, false, none, some, List, [], ◌∷◌, ◌++◌, arith, ℕ, ◌+◌, ◌*◌, min,
  sym, ap, not, Option, ◌==◌, if◌then◌else◌, length, take, get_elem?, All,
}
use tizen_os.Libc.{codes, Bytes, c_str}
use tizen_os.Installer.Shell.{Host, Trace}
use tizen_os.Installer.Target.{target_install_copy_rootfs, rsync, live_rootfs, target_of}
use tizen_os.Installer.Mounts.{code_of, copy_rootfs_lem}
use tizen_os.Installer.Fstab.{fetch_partition_uuid, fstab_lines}
use tizen_os.Installer.Entries.{entries, entries-fstab_lines, entry_of, spec, tmpfs}
use tizen_os.Installer.Run.{Form, run_installation, plan, selected_disk}
use tizen_os.Installer.Plan.{commands-run_installation}
use tizen_os.Installer.Wizard.{
  Event, click_next, click_back, timer_fires, activated, run, handle, on_btn_next_clicked,
  on_btn_back_clicked, update_navigation, finish_installation, click_reboot_now, click_reboot_later,
}
use tizen_os.Installer.Wizard.Steps.{IsValid, run-IsValid, next_clicks, finishes}
use tizen_os.Installer.Wizard.Lifetime.{
  Input, next, back, close, opened, force_ui_update, deliver, install, closes_during,
}
use tizen_os.Installer.Wizard.Lifetime.Use.{install-misused}
use tizen_os.Installer.Disks.{populate_disks, disks_of, device_of}
use tizen_os.Installer.Summary.{shown_disk, update_summary_text, summary_on, summary_lem}
use tizen_os.Libc.Text.{scan_word, word, skip_space}
use tizen_os.Libc.Lines.{lines}
use tizen_os.Gtk.{buttons, page_names}
use tizen_os.Installer.Window
use tizen_os.Installer.Window.{
  page_name, pages, step_names, back_text, next_text, reboot_text, later_text, show_reboot_modal,
  events-page,
}
use tizen_os.Installer.Welcome.Clicks.{programs, started}

abbrev host : Host
host = record {
  answer = λ n cmd. some 0;
  can_write = λ path. true;
  has_path = λ path. true;
  first_line = λ cmd. none;
}

abbrev begun : Trace
begun = record { commands = []; files = []; dirs = [] }

abbrev form : Form
form = record {
  disk = some (codes "/dev/sda");
  username = codes "an";
  fullname = [];
  password = codes "secret";
  hostname = [];
}

commands-run_installation_example : (run_installation host form begun).1.commands ≡ plan host form 0
commands-run_installation_example = commands-run_installation host form begun

copy_rootfs_lem_example :
    ((target_install_copy_rootfs host none (some (codes "/mnt/target")) begun).0 ≡ true) ↔ (
      ((true ≡ true)
        × ((code_of host 0 (rsync live_rootfs (target_of (some (codes "/mnt/target")))) ≡ some 0)
            ⊎ (code_of host 1 (rsync [] (target_of (some (codes "/mnt/target")))) ≡ some 0)))
      ⊎ ((true ≡ false)
          × (code_of host 0 (rsync [] (target_of (some (codes "/mnt/target")))) ≡ some 0)))
copy_rootfs_lem_example = copy_rootfs_lem host none (some (codes "/mnt/target")) begun

entries-fstab_lines_example :
    entries (fstab_lines host (codes "/dev/sda4") (codes "/dev/sda2") [])
    ≡ (spec (fetch_partition_uuid host (codes "/dev/sda4") 128) (codes "/dev/sda4")
        ∷ codes "/"
        ∷ codes "ext4"
        ∷ codes "noatime,errors=remount-ro"
        ∷ codes "0"
        ∷ codes "1"
        ∷ [])
      ∷ (entry_of host
            (codes "/dev/sda2")
            (codes "/boot/efi" ∷ codes "vfat" ∷ codes "umask=0077" ∷ codes "0" ∷ codes "2" ∷ [])
          ++ (tmpfs (codes "/tmp") (codes "defaults,noatime,mode=1777")
              ∷ tmpfs (codes "/dev/shm") (codes "defaults,nosuid,nodev")
              ∷ []))
unfolding fetch_partition_uuid
entries-fstab_lines_example =
    entries-fstab_lines host (codes "/dev/sda4") (codes "/dev/sda2") [] (ground arith)
      (ground arith) (ground arith) tt

abbrev impatient : List Event
impatient = click_next ∷ click_back ∷ click_next ∷ timer_fires ∷ click_next ∷ []

run-IsValid_example : IsValid (run impatient activated)
run-IsValid_example = run-IsValid impatient

finishes_example :
    let app = run (impatient ++ (next_clicks 4 ++ timer_fires ∷ [])) activated in
    (app.installs ≡ 1) × (app.modal ≡ true) × (app.current_step ≡ 6)
unfolding run handle on_btn_next_clicked on_btn_back_clicked update_navigation finish_installation
    activated next_clicks
finishes_example = finishes impatient 3 refl

abbrev patient : List Event
patient = next_clicks 6 ++ timer_fires ∷ []

-- `lsblk` shows one disk.
abbrev listing : Option Bytes
listing = some (codes "sda 8:0 0 20G 0 disk\n")

one_disk : populate_disks listing ≡ codes "/dev/sda" ∷ []
unfolding populate_disks disks_of device_of scan_word c_str lines word skip_space
one_disk = refl

summary_lem_example :
    let names = 2 + 12 + 10 in
    (shown_disk form ≡ selected_disk form)
    × (length (selected_disk form) ≤ 68)
    × (update_summary_text form ≡ take 1023 (summary_on form (selected_disk form)))
    × (length (update_summary_text form) ≡ min 1023 (429 + 2 * length (selected_disk form) + names))
summary_lem_example = summary_lem listing 0 form (sym (ap (λ ds. get_elem? ds 0) one_disk))

-- The sixth click starts the installation, and the window is closed during its third step.
abbrev six : List Input
six = next ∷ next ∷ next ∷ next ∷ next ∷ next ∷ []

abbrev impatience : ℕ → List Input
impatience k = if k == 2 then back ∷ close ∷ [] else []

install-misused_example :
    let later = install impatience (force_ui_update six opened) in
    let closed = closes_during impatience in
    (later.misused ≡ closed) × (later.is_open ≡ not closed) × (later.app.installs ≡ 1)
unfolding force_ui_update opened deliver activated handle on_btn_next_clicked update_navigation
install-misused_example = install-misused six impatience refl refl

events-page_example :
    let app = run impatient activated in
    let disks = populate_disks listing in
    (get_elem? (page_names (pages disks)) app.current_step ≡ some (page_name app.page))
    × ((row : Bytes) × (get_elem? step_names app.current_step ≡ some row))
    × (buttons (Window.on_app_activate disks)
        ≡ (back_text, some click_back) ∷ (next_text, some click_next) ∷ [])
    × (buttons show_reboot_modal
        ≡ (reboot_text, some click_reboot_now) ∷ (later_text, some click_reboot_later) ∷ [])
events-page_example = events-page listing impatient

two_started : started (3 ∷ 1 ∷ 4 ∷ 2 ∷ []) ≡ codes "xfce4-terminal &" ∷ codes "firefox-esr &" ∷ []
unfolding started programs
two_started = refl

-- The program is started twice, Next is clicked in the second window and in one that is not there, and the
-- first window is closed.
abbrev twice : List Start
twice = activate ∷ activate ∷ at 1 click_next ∷ at 2 click_next ∷ Start.close 0 ∷ []

several_lem_example :
    let windows = receive_all twice [] in
    (length windows ≡ starts twice)
    × All HasValid windows
    × (total_installs windows ≤ starts twice)
    × (starts (runs 2) ≡ 2)
    × (total_installs (receive_all (runs 2) []) ≡ 2)
several_lem_example = several_lem twice 2
