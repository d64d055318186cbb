-- ===== src/Installer/Window.antt =====
-- The widgets of installer-ui.c: `on_app_activate` and `show_reboot_modal`, and how the pages that the
-- callbacks show meet the pages that are built. The handler of a button is the event that a click is.
use tizen_os.Libc.Text.{utf8}
use tizen_os.Libc.{Bytes, codes}
use tizen_os.Base.{
  ℕ, zero, suc, ◌+◌, ◌/◌, ◌%◌, ◌≤◌, ◌≡◌, refl, sym, ap, ◌∙◌, Option, some, List, [], ◌∷◌, ◌++◌,
  arith, ltb, if◌then◌else◌, get_elem?,
}
use tizen_os.Gtk.{
  Widget, label, entry, button, drop_down, progress_bar, box, list_box, stack, Children, no_more,
  append, Pages, no_page, named, buttons, page_names,
}
use tizen_os.Installer.Wizard.{
  Event, click_next, click_back, click_reboot_now, click_reboot_later, run, activated,
}
use tizen_os.Installer.Wizard.Steps.{run-IsValid}
use tizen_os.Installer.Disks.{populate_disks}

-- The name of a page of the stack: `step%d`, for a number of at most two digits.
unfoldable pub page_name : ℕ → Bytes
page_name n =
    codes "step" ++ (if ltb n 10 then (b'0' + n) ∷ [] else (b'0' + n / 10) ∷ (b'0' + n % 10) ∷ [])

-- `step_names`
abbrev pub step_names : List Bytes
step_names =
    utf8 "1. 🌐 Chào Mừng"
    ∷ (utf8 "2. ⌨" ++ (239 ∷ 184 ∷ 143 ∷ utf8 " Bàn Phím"))
    ∷ utf8 "3. 🕒 Múi Giờ"
    ∷ utf8 "4. 💽 Phân Vùng Đĩa"
    ∷ utf8 "5. 👤 Người Dùng"
    ∷ utf8 "6. 📋 Xác Nhận & Cài Đặt"
    ∷ (utf8 "7. ⚙" ++ (239 ∷ 184 ∷ 143 ∷ utf8 " Tiến Trình Cài Đặt"))
    ∷ []

abbrev rows : List Bytes → Children Event
rows [] = no_more
rows (text ∷ texts) = append (label text) (rows texts)

abbrev welcome_page : Widget Event
welcome_page = box (
    append (label (utf8 "Bước 1/6: Chào mừng bạn đến với TizenOS 1.0 (Debian Edition)")) (
      append
        (label (
          utf8
            "Trình cài đặt đồ họa GTK4 thiết kế theo giao diện Calamares / Debian Installer chuẩn hóa."))
        no_more))

abbrev keyboard_page : Widget Event
keyboard_page = box (
    append (label (utf8 "Bước 2/6: Bố cục bàn phím (Keyboard Layout)"))
      (append (label (utf8 "Mặc định: English (US) Keyboard Layout")) no_more))

abbrev timezone_page : Widget Event
timezone_page = box (
    append (label (utf8 "Bước 3/6: Múi giờ & Vị trí (Timezone)"))
      (append (label (utf8 "Mặc định: Asia/Ho_Chi_Minh (UTC+7)")) no_more))

abbrev disk_page : List Bytes → Widget Event
disk_page disks = box (
    append (label (utf8 "Bước 4/6: Phân vùng Ổ đĩa Kép (BIOS + UEFI Clean Wipe)")) (
      append (label (utf8 "Chọn ổ đĩa mục tiêu để cài đặt TizenOS:")) (
        append (drop_down disks) (
          append
            (label (
              utf8
                "Sơ đồ phân vùng tự động (GPT Clean Wipe):\n• Partition 1: bios_grub (2MB) - Legacy BIOS MBR\n• Partition 2: ESP FAT32 (512MB) - UEFI /boot/efi\n• Partition 3: Linux Swap (4GB)\n• Partition 4: Root OS ext4 (20GB+ đến 100% đĩa)"))
            no_more))))

abbrev user_page : Widget Event
user_page = box (
    append (label (utf8 "Bước 5/6: Thiết lập Tài khoản & Hostname")) (
      append (label (utf8 "Tên người dùng (Username):")) (
        append (entry (codes "tizen")) (
          append (label (utf8 "Họ và tên (Full Name):")) (
            append (entry (codes "TizenOS User")) (
              append (label (utf8 "Mật khẩu (Password):")) (
                append (entry (codes "live")) (
                  append (label (utf8 "Tên máy tính (Hostname):"))
                    (append (entry (codes "TizenOS-PC")) no_more)))))))))

abbrev summary_page : Widget Event
summary_page = box (append (label (utf8 "Xác nhận thông tin...")) no_more)

abbrev progress_page : Widget Event
progress_page = box (
    append (label (utf8 "Bước Tiến Trình: Cài đặt Hệ thống lên Ổ đĩa"))
      (append progress_bar (append (label (utf8 "Sẵn sàng cài đặt TizenOS...")) no_more)))

abbrev pub pages : List Bytes → Pages Event
pages disks = named (codes "step1") welcome_page (
    named (codes "step2") keyboard_page (
      named (codes "step3") timezone_page (
        named (codes "step4") (disk_page disks) (
          named (codes "step5") user_page
            (named (codes "step6") summary_page (named (codes "step7") progress_page no_page))))))

abbrev pub back_text : Bytes
back_text = utf8 "← Quay lại"

abbrev pub next_text : Bytes
next_text = utf8 "Tiếp theo →"

-- `on_app_activate`: the main window, over the disks that `populate_disks` found.
unfoldable pub on_app_activate : List Bytes → Widget Event
on_app_activate disks =
    let sidebar = box (
      append (label (utf8 "🌀 TizenOS 1.0\nDebian Installer"))
        (append (list_box (rows step_names)) no_more)) in
    let navigation = box (
      append (button back_text (some click_back))
        (append (button next_text (some click_next)) no_more)) in
    let content = box (append (stack (pages disks)) (append navigation no_more)) in
    box (append sidebar (append content no_more))

abbrev pub reboot_text : Bytes
reboot_text = utf8 "🔄 Khởi Động Lại Ngay"

abbrev pub later_text : Bytes
later_text = utf8 "✕ Để Sau"

-- `show_reboot_modal`
unfoldable pub show_reboot_modal : Widget Event
show_reboot_modal =
    let choice = box (
      append (button reboot_text (some click_reboot_now))
        (append (button later_text (some click_reboot_later)) no_more)) in
    box (
      append
        (label (
          utf8
            "🎉 HOÀN TẤT CÀI ĐẶT TIZENOS!\n\nHệ thống TizenOS đã được cài đặt thành công lên đĩa cứng.\nVui lòng tháo ISO và chọn Khởi động lại ngay."))
        (append choice no_more))

page_at :
    (disks : List Bytes) (n : ℕ)
    → n ≤ 6
    → (get_elem? (page_names (pages disks)) n ≡ some (page_name (n + 1)))
      × ((row : Bytes) × (get_elem? step_names n ≡ some row))
unfolding page_name
page_at disks zero h = (refl, (_, refl))
page_at disks (suc zero) h = (refl, (_, refl))
page_at disks (suc (suc zero)) h = (refl, (_, refl))
page_at disks (suc (suc (suc zero))) h = (refl, (_, refl))
page_at disks (suc (suc (suc (suc zero)))) h = (refl, (_, refl))
page_at disks (suc (suc (suc (suc (suc zero))))) h = (refl, (_, refl))
page_at disks (suc (suc (suc (suc (suc (suc zero)))))) h = (refl, (_, refl))
page_at disks (suc (suc (suc (suc (suc (suc (suc n))))))) h = absurd (omega arith)

-- What the callbacks do meets what is built: after any events, whatever the disks are, the page that is
-- shown is the page of the stack at the place of the current step, and the list of steps has a row for
-- it; and the only buttons of the window are Back and Next, and of the dialog the reboot and the
-- refusal, each connected to its callback.
pub events-page :
    (output : Option Bytes) (es : List Event)
    → let app = run es activated in
      let disks = populate_disks output in
      (get_elem? (page_names (pages disks)) app.current_step ≡ some (page_name app.page))
      × ((row : Bytes) × (get_elem? step_names app.current_step ≡ some row))
      × (buttons (on_app_activate disks)
          ≡ (back_text, some click_back) ∷ (next_text, some click_next) ∷ [])
      × (buttons show_reboot_modal
          ≡ (reboot_text, some click_reboot_now) ∷ (later_text, some click_reboot_later) ∷ [])
unfolding on_app_activate show_reboot_modal buttons
events-page output es =
    let valid = run-IsValid es in
    let at = page_at (populate_disks output) (run es activated).current_step valid.step_bounded in
    (at.0 ∙ ap (λ n. some (page_name n)) (sym valid.page_shown), at.1, refl, refl)
