-- ===== src/Chat/Server/Joined.antt =====
-- server.c, the message that announces a client. The name is copied with the bound MAXPATH = 1024 into
-- an array of MAXNAME = 256 bytes.
use completed_projects.Common.{◌≤◌, ◌<◌, ◌≡◌, refl, length, drop, arith}
use completed_projects.Common.CString.{c_str, c_str-take-strncpy, c_str-drop-strncpy}
use completed_projects.Chat.Blather.{max_name, max_path, Join, bl_joined, copy_name}
use completed_projects.Chat.Server.{joined_mesg}

-- A name that fits the array with its NUL is announced as it is.
pub name-joined_mesg :
    (join : Join)
    → length (c_str join.name) < max_name
    → ((joined_mesg join).kind ≡ bl_joined) × (c_str (joined_mesg join).name ≡ c_str join.name)
unfolding joined_mesg copy_name
name-joined_mesg join h = (refl, c_str-take-strncpy max_name max_path _ join.name h (omega arith))

-- A longer name runs over the end of the array: its bytes from the 257th on are the body of the
-- announcement.
pub body-joined_mesg :
    (join : Join)
    → max_name ≤ length (c_str join.name)
    → length (c_str join.name) < max_path
    → c_str (joined_mesg join).body ≡ drop max_name (c_str join.name)
unfolding joined_mesg copy_name
body-joined_mesg join h l = c_str-drop-strncpy max_name max_path _ join.name h l
