-- ===== src/ClientSocket/Commands.antt =====
-- What src/communication/ClientSocket.cpp sends.
use panda_scratchpad.Base.{◌≡◌, refl, [], ◌∷◌, ◌++◌, arith, if◌then◌else◌}
use panda_scratchpad.Base.Words.{Bytes}
use panda_scratchpad.Base.Texts.{codes, to_string, Without, Without-append, to_string-Without}
use panda_scratchpad.ClientSocket.{
  QemuCommand, list_plugins, load_plugin, unload_plugin, Plugin, writetracker, replay, SockMessage,
  is_empty, writetracker_options, replay_options, plugin_command, complete_command,
}

option-Without :
    (name s : Bytes)
    → Without 10 name
    → Without 10 s
    → Without 10 (if is_empty s then [] else name ++ s)
option-Without name [] h k = tt
option-Without name (b ∷ s) h k = Without-append 10 name (b ∷ s) h k

comma-Without : (s : Bytes) → Without 10 (if is_empty s then [] else codes ",")
comma-Without [] = tt
comma-Without (b ∷ s) = omega arith

end-Without :
    (comma s : Bytes)
    → Without 10 comma
    → Without 10 s
    → Without 10 (if is_empty s then [] else comma ++ (codes "end=" ++ s))
end-Without comma [] h k = tt
end-Without comma (b ∷ s) h k =
    Without-append 10 comma (codes "end=" ++ b ∷ s) h
      (Without-append 10 (codes "end=") (b ∷ s) (omega arith) k)

plugin_command-Without :
    (p : Plugin) (start end : Bytes)
    → Without 10 start
    → Without 10 end
    → Without 10 (plugin_command p start end)
unfolding plugin_command writetracker_options replay_options
plugin_command-Without writetracker start end h k =
    Without-append 10 (codes "writetracker") _ (omega arith) (
      Without-append 10 (if is_empty start then [] else codes " start=" ++ start) _
        (option-Without (codes " start=") start (omega arith) h)
        (end-Without (if is_empty start then [] else codes ",") end (comma-Without start) k))
plugin_command-Without replay start end h k =
    Without-append 10 (codes "replayer") _ (omega arith)
      (option-Without (codes " base=") start (omega arith) h)

-- A command whose start and end have no newline is one line: its only newline is its last byte.
pub complete_command-Without :
    (msg : SockMessage)
    → Without 10 msg.start
    → Without 10 msg.end
    → (line : Bytes) × (complete_command msg ≡ line ++ codes "\n") × Without 10 line
unfolding complete_command
complete_command-Without msg h k = line msg.q_cmd
  where
    line :
        (q : QemuCommand)
        → (text : Bytes) × (complete_command (record msg { q_cmd = q }) ≡ text ++ codes "\n")
          × Without 10 text
    line list_plugins = (codes "list_plugins", refl, omega arith)
    line load_plugin = (
      codes "load_plugin " ++ plugin_command msg.plugin_name msg.start msg.end,
      refl,
      Without-append 10 (codes "load_plugin ") _ (omega arith)
          (plugin_command-Without msg.plugin_name msg.start msg.end h k),
    )
    line unload_plugin = (
      codes "unload_plugin " ++ to_string msg.id,
      refl,
      Without-append 10 (codes "unload_plugin ") _ (omega arith) (to_string-Without msg.id),
    )
