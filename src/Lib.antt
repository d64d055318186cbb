-- ===== src/Lib.antt =====
-- A model of the C programs of TizenOS: what they compute, what they keep, and what they promise.
--
-- The repository is a distribution: programs that run beside one another and meet in files and on
-- D-Bus. Each part below is a tree of modules; the parts share `Base` (the names of the libraries, tests
-- on numbers, lists) and `Libc` (the string functions, `fgets`, `fread`, `snprintf`, `atoi` on strings as
-- lists of bytes).
--
-- - `Launchpad`: app-framework/launchpad/src/launchpad-loader.c and launchpad-daemon.c. The state
--   is the table of workers, the descriptors that the daemon has open and what it has sent.
--   `launchpad_spawn_worker`, `launchpad_init_pool` and `launchpad_launch_app` are the C functions of that
--   name, over what `socketpair` and `fork` answer; `Worker` is the process on the other end. `Abstract`
--   has the specification, a number of ready workers and the paths delivered, and the interface that
--   hides the table; `Service` is the D-Bus method over any
--   launcher, and `Whole` is `main` and both ends of a launch.
-- - `Dbus`: the registration of the three daemons' objects (`Daemons`: `on_bus_acquired` of
--   launchpad-daemon.c, auth-daemon.c and cynara-daemon.c), the texts that declare their methods
--   (`Interfaces`), `main` of all three over the calls that come (`Mains`), and
--   core/libtizen-dbus/src (`Library`).
-- - `App`: app-framework/app-core: `app_main` and `app_exit` over GLib's main loop, which is an interface
--   with laws, and the functions beside them that print (`Messages`).
-- - `Gpu`: shell/compositor/src/gpu-backend.c and its header. `tizen_gpu_detect` reads the lines of a file
--   into the record of the configuration; `Renderer` has the choice of the renderer and the variables
--   that are set, `Environment` what they make of an environment, and `Report` the lines of
--   `tizen_gpu_dump_info`.
-- - `Installer`: installer/tizenos-installer/src: partman.c (`Partman`), target-install.c (`Target`,
--   `Fstab`), user-setup.c (`Users`) and installer-ui.c (`Run`, `Disks`, `Summary`, `Wizard`, and in
--   `Wizard.Lifetime` how long the application's memory lives, in `Wizard.Several` several windows of
--   one program; `Window` has the widgets), and boot-welcome.c (`Welcome`) and third-party.c (`ThirdParty`). `Shell` has the machine: the
--   commands run and the files written are the state, and what a command answers is a parameter.
-- - `Core`: core/libtizen-core/src/log.c, utils.c and core.c.
-- - `Crypto`: core/libtizen-core/src/checksum.c and signature.c, and tools/signFile/src/main.c, over
--   OpenSSL's functions as a record and a log of what is acquired and released. `Streaming` has the loops
--   that hand over a file in pieces, `RoundTrip` and `Pss` signing and verifying, `Tool` the three
--   commands of signFile one after another, and `OneShot` Ed25519 as OpenSSL documents it, which takes
--   no pieces.
-- - `Security`: security/cynara/cynara-daemon.c over SQLite, security/tizen-auth/src/auth-daemon.c over
--   PAM, and security/smack-utils/smack-manager.c; `Clients` has the small functions beside them.
--   `Cynara.Policies` has the table of policies, and `Auth.Conversation` a PAM stack that asks through the
--   callback of the daemon.
-- - `Desktop`: shell/session-x11/src with the window manager (`Session`), shell/panel/src/panel.c (`Panel`)
--   and shell/settings/src/display.c (`Display`), `main` and the windows of all programs of GTK, the
--   settings, the launcher and the file manager among them (`Applications`), and
--   shell/compositor/src/compositor.c (`Compositor`). `Gtk` has the widgets that windows are built of.
-- - `Tools`: multimedia/player/src/player.c and multimedia/camera/src/camera.c with the blocks and
--   descriptors that they own; the program tpkg of package-manager/pkgmgr-client/src/pkgmgr-cli.c;
--   tools/archive-mount/src/archive-engine.c over libarchive, and iso-mount.c and iso-mount-cli.c
--   there, on the machine of the installer; the two processes of tools/benchmark-launchpad/src/main.c
--   (`Benchmark`); the databases of multimedia/media-server/src/media-db.c and
--   package-manager/pkgmgr-server/src/pkgmgr-db.c (`Databases`) and the daemons around them (`Servers`);
--   the client of the package manager, package-manager/tpk-tools/src, app-framework/app-installer/src and
--   security/security-manager/security-manager.c (`Packages`).
--
-- Loops over a file run on fuel, the length of what is left of it: each round takes at least a byte,
-- so it is enough. A buffer of `n` bytes holds a string of at most `n - 1`. The counts of descriptors
-- and process ids are natural numbers; `atoi` is taken without overflow, and its conversion to 32 bits
-- wraps.
--
-- Where a window of the installer is closed while its callbacks go on, the freed application is taken to
-- hold what it held, and the use of it is recorded.
--
-- Not modelled: what GTK, the X server, wlroots, GStreamer and GDBus do; a write to a worker that has
-- ended, which raises SIGPIPE; the command `blkid` in the log of the installer's commands, since `popen`
-- runs it; the bound of an `int` on the count of GPUs; margins and styles of widgets; the main
-- loops, of which the events that they deliver are arguments; the times that the benchmark measures;
-- most messages to the terminal; files of comments only; shell and Python scripts. OpenSSL, SQLite,
-- PAM, the kernel and the commands that are run are parameters, and what is relied on is a hypothesis
-- of the theorem that relies on it.
pub mod Base
pub mod Libc
pub mod Core
pub mod Launchpad
pub mod Dbus
pub mod Gtk
pub mod Gpu
pub mod Installer
pub mod Crypto
pub mod Security
pub mod Desktop
pub mod Tools
pub mod App
