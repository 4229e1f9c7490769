-- ===== src/ClientSocket/Examples.antt =====
-- src/communication on a few messages and replies.
use panda_scratchpad.Base.{◌≡◌, refl, false, [], ◌∷◌, ◌++◌, arith}
use panda_scratchpad.Base.Words.{Bytes}
use panda_scratchpad.Base.Texts.{codes, Without, find}
use panda_scratchpad.Base.Outcome.{ok, stuck}
use panda_scratchpad.ClientSocket.{
  SockMessage, load_plugin, writetracker, no_error, complete_command, receive_reply, text_of,
  build_load_plugin_msg,
}
use panda_scratchpad.ClientSocket.Commands.{complete_command-Without}
use panda_scratchpad.ClientSocket.Replies.{marker, receive_reply-marker}

abbrev blank : SockMessage
blank = record {
  q_cmd = load_plugin;
  need_response = false;
  plugin_name = writetracker;
  start = [];
  end = [];
  id = 0;
}

abbrev tracker_message : SockMessage
tracker_message = build_load_plugin_msg writetracker (codes "1024") (codes "4096") blank

complete_command-Without_example :
    (line : Bytes) × (complete_command tracker_message ≡ line ++ codes "\n") × Without 10 line
complete_command-Without_example =
    complete_command-Without tracker_message (omega arith) (omega arith)

tracker_command :
    complete_command tracker_message ≡ codes "load_plugin writetracker start=1024,end=4096\n"
unfolding complete_command
tracker_command = refl

-- An end without a start follows the name without a space.
end_without_start :
    complete_command (build_load_plugin_msg writetracker [] (codes "4096") blank)
    ≡ codes "load_plugin writetrackerend=4096\n"
unfolding complete_command
end_without_start = refl

receive_reply-marker_example :
    receive_reply
      (codes "................" ++ 0 ∷ [])
      ((codes "loading" ∷ []) ++ ((codes "ok " ++ (marker ++ codes "\n")) ∷ []))
    ≡ ok no_error
receive_reply-marker_example =
    receive_reply-marker (codes "................") (codes "loading" ∷ []) (codes "ok ")
      (codes "\n") [] ((λ e. cc), omega arith, tt) (omega arith) (omega arith)

-- A marker that arrives in two parts is not seen.
split_marker :
    receive_reply (codes "................" ++ 0 ∷ []) (codes "ok cmE" ∷ codes "OF" ∷ []) ≡ stuck
unfolding receive_reply text_of find
split_marker = refl
