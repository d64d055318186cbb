-- ===== src/Installer/ThirdParty.antt =====
-- third-party.c: the packages that are offered beside the installation. Each command ends in `|| true`.
use tizen_os.Base.{◌+◌, ◌≡◌, refl, ◌∙◌, Bool, true, [], ◌∷◌, ◌++◌, arith, length, length-append}
use tizen_os.Installer.Shell.{Host, M, Trace, ◌>>◌, return, system, succeeded}
use tizen_os.Libc.{codes}

module _ (host : Host) where
  unfoldable pub third_party_install_nvidia : M Bool
  third_party_install_nvidia t =
      let (ret, t') =
        system host (codes "apt-get install -y nvidia-driver 2>/dev/null || true") t in
      (succeeded ret, t')

  unfoldable pub third_party_install_codecs : M Bool
  third_party_install_codecs t =
      let (ret, t') =
        system host
          (codes
            "apt-get install -y ffmpeg gstreamer1.0-plugins-good gstreamer1.0-plugins-bad gstreamer1.0-plugins-ugly gstreamer1.0-libav 2>/dev/null || true")
          t in
      (succeeded ret, t')

  unfoldable pub third_party_install_flatpak : M Bool
  third_party_install_flatpak = do
    system host (codes "apt-get install -y flatpak 2>/dev/null || true")
    system host (
        codes
          "flatpak remote-add --if-not-exists flathub https://flathub.org/repo/flathub.flatpakrepo 2>/dev/null || true")
    return true

  -- The installation of Flatpak reports success whatever its two commands answer; the others report what
  -- their one command answers.
  third_party_lem :
      (t : Trace)
      → ((third_party_install_flatpak t).0 ≡ true)
        × (length (third_party_install_flatpak t).1.commands ≡ length t.commands + 2)
        × (length (third_party_install_nvidia t).1.commands ≡ length t.commands + 1)
        × (length (third_party_install_codecs t).1.commands ≡ length t.commands + 1)
  unfolding third_party_install_nvidia third_party_install_codecs third_party_install_flatpak
  third_party_lem t = (
    refl,
    length-append (t.commands ++ _ ∷ []) (_ ∷ [])
        ∙ omega (
          arith,
          length-append t.commands (codes "apt-get install -y flatpak 2>/dev/null || true" ∷ []),
        ),
    length-append t.commands (_ ∷ []),
    length-append t.commands (_ ∷ []),
  )
