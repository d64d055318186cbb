-- ===== src/Installer/Summary.antt =====
-- `update_summary_text` of installer-ui.c: what the page before the installation says of the disk that is
-- selected, and of the names.
use mathlib.Core.Path.{subst}
use tizen_os.Base.{
  ◌+◌, Option, none, some, List, [], ◌∷◌, ◌++◌, length, ◌≤◌, ◌≡◌, refl, arith, All, take_all, sym,
  ℕ, zero, suc, ◌*◌, ap, ◌∙◌, take, get_elem?, length-append, min, length-take,
}
use tizen_os.Libc.{Bytes, codes, snprintf}
use tizen_os.Libc.Text.{utf8}
use tizen_os.Installer.Run.{
  Form, or_default, username_of, fullname_of, hostname_of, disk_of, selected_disk,
}
use tizen_os.Installer.Disks.{IsDisk, populate_disks, populate_disks_lem}

-- The disk that the summary names.
unfoldable pub shown_disk : Form → Bytes
shown_disk form = elim form.disk [
  | none ↦ codes "/dev/sda"
  | some d ↦ or_default d (codes "/dev/sda")
]

abbrev head_text : Bytes
head_text = utf8 "📌 XÁC NHẬN CẤU HÌNH CÀI ĐẶT TIZENOS:\n\n• 💽 Ổ đĩa mục tiêu : "

abbrev user_text : Bytes
user_text = utf8 " (Tự động chia GPT + BIOS/UEFI Dual Boot)\n• 👤 Người dùng chính: "

abbrev host_text : Bytes
host_text = utf8 ")\n• 💻 Tên máy tính   : "

-- The sign before the warning is followed by the variation selector U+FE0F.
abbrev warning_text : Bytes
warning_text =
    utf8
      "\n• 🕒 Múi giờ        : Asia/Ho_Chi_Minh (UTC+7)\n• 📦 Phần mềm & App : Mousepad, Evince PDF, Firefox ESR, VLC, GDebi 1-Click\n\n⚠"
    ++ (239 ∷ 184 ∷ 143 ∷ utf8 " CẢNH BÁO: Toàn bộ dữ liệu trên ổ đĩa ")

abbrev end_text : Bytes
end_text = utf8 " sẽ được khởi tạo lại!"

-- The whole text, on a disk.
unfoldable pub summary_on : Form → Bytes → Bytes
summary_on form disk =
    head_text
    ++ (disk
        ++ (user_text
            ++ (username_of form
                ++ (codes " ("
                    ++ (fullname_of form
                        ++ (host_text
                            ++ (hostname_of form ++ (warning_text ++ (disk ++ end_text)))))))))

-- `update_summary_text`: what the label then shows.
unfoldable pub update_summary_text : Form → Bytes
update_summary_text form = snprintf 1024 (summary_on form (shown_disk form))

fixed_text :
    length head_text
      + length user_text
      + 2
      + length host_text
      + length warning_text
      + length end_text
    ≡ 429
unfolding utf8
fixed_text = refl

All-get_elem? :
    (ds : List Bytes) (i : ℕ) (d : Bytes) → All IsDisk ds → get_elem? ds i ≡ some d → IsDisk d
All-get_elem? [] i d h e = absurd (ground arith)
All-get_elem? (x ∷ ds) zero d h e = subst IsDisk (ground (arith, e)) h.0
All-get_elem? (x ∷ ds) (suc i) d h e = All-get_elem? ds i d h.1 e

shown-selected :
    (o : Option Bytes)
    → ((d : Bytes) → o ≡ some d → IsDisk d)
    → (elim o [ none ↦ codes "/dev/sda" | some d ↦ or_default d (codes "/dev/sda") ] ≡ disk_of o)
      × (length (disk_of o) ≤ 68)
unfolding disk_of
shown-selected none h = (refl, omega arith)
shown-selected (some []) h = (refl, omega arith)
shown-selected (some (c ∷ cs)) h =
    let (dev, word, short) = h (c ∷ cs) refl in
    let cut = ap (take 254) (take_all 239 cs (omega (arith, short))) in
    let same = ap (◌∷◌ c) (cut ∙ take_all 254 cs (omega (arith, short))) in
    (sym same, omega (arith, short, ap length same))

length-summary :
    (form : Form) (disk : Bytes)
    → length (summary_on form disk)
      ≡ 429
        + 2 * length disk
        + (length (username_of form) + length (fullname_of form) + length (hostname_of form))
unfolding summary_on
length-summary form disk =
    let t9 = disk ++ end_text in
    let t8 = warning_text ++ t9 in
    let t7 = hostname_of form ++ t8 in
    let t6 = host_text ++ t7 in
    let t5 = fullname_of form ++ t6 in
    let t4 = codes " (" ++ t5 in
    let t3 = username_of form ++ t4 in
    let t2 = user_text ++ t3 in
    let t1 = disk ++ t2 in
    omega (
      arith,
      fixed_text,
      length-append head_text t1,
      length-append disk t2,
      length-append user_text t3,
      length-append (username_of form) t4,
      length-append (fullname_of form) t6,
      length-append host_text t7,
      length-append (hostname_of form) t8,
      length-append warning_text t9,
      length-append disk end_text,
    )

-- Where the disk is one that the list offers, or none is selected, the page before the installation
-- names the disk that the installation erases, in the text that it shows: the whole text cut to 1,023
-- bytes, which has 429 bytes of its own, the disk twice and the three names, so it is shown to the
-- end of its warning where the names have at most 458 bytes together.
pub summary_lem :
    (output : Option Bytes) (index : ℕ) (form : Form)
    → form.disk ≡ get_elem? (populate_disks output) index
    → let names =
        length (username_of form) + length (fullname_of form) + length (hostname_of form) in
      (shown_disk form ≡ selected_disk form)
      × (length (selected_disk form) ≤ 68)
      × (update_summary_text form ≡ take 1023 (summary_on form (selected_disk form)))
      × (length (update_summary_text form)
          ≡ min 1023 (429 + 2 * length (selected_disk form) + names))
unfolding shown_disk selected_disk update_summary_text
summary_lem output index form e =
    let offered = λ (d : Bytes) (at : form.disk ≡ some d).
      All-get_elem? (populate_disks output) index d (populate_disks_lem output).1 (sym e ∙ at) in
    let (same, short) = shown-selected form.disk offered in
    let text = summary_on form (shown_disk form) in
    (
      same,
      short,
      ap (λ d. take 1023 (summary_on form d)) same,
      omega (arith, length-take 1023 text, length-summary form (shown_disk form), ap length same),
    )
