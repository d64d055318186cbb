-- ===== src/Desktop.antt =====
-- The programs of the desktop: the session and its window manager under shell/session-x11/src, and the
-- panel of shell/panel/src/panel.c.
pub mod Session
pub mod Panel
pub mod Applications
pub mod Compositor
pub mod Display
pub mod Tests
