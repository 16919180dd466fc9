-- ===== src/Wm.antt =====
-- kernel/src/wm.rs: the window manager. Window and Cursor have the two structs that it keeps,
-- Manager the operations on windows and focus, Screen the drawing on the screen and the mouse, and
-- Api the functions over the global state.
pub mod Window
pub mod Cursor
pub mod Manager
pub mod Screen
pub mod Api
pub mod Chrome
pub mod Blit
pub mod Layers
pub mod Hit
pub mod Pointer
pub mod Valid
pub mod Front
pub mod Focus
pub mod Create
pub mod Consoles
pub mod Sprite
pub mod Saved
pub mod Taskbar
pub mod Display
pub mod Clicks
pub mod Events
pub mod Session
pub mod Start
pub mod Padded
pub mod Tests
