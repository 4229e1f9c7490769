-- ===== src/ClientSocket.antt =====
-- src/communication: the socket over which the harness sends commands to the monitor of the virtual
-- machine. The system's calls are parameters, and `recv` is the list of what it still gives.
pub mod Commands
pub mod Replies
pub mod Examples
use panda_scratchpad.Base.{
  ℕ, zero, suc, ◌+◌, ◌<◌, Bool, true, false, not, Option, none, some, List, [], ◌∷◌, ◌++◌, ◌==◌,
  leb, ltb, if◌then◌else◌, length, take, drop,
}
use panda_scratchpad.Base.Int.{ℤ, pos, negsuc, is_neg}
use panda_scratchpad.Base.Words.{Bytes, u16}
use panda_scratchpad.Base.Texts.{codes, to_string, find, c_str}
use panda_scratchpad.Base.Outcome.{Outcome, ok, fault, stuck}

pub data QemuCommand : Type 0 where
  list_plugins load_plugin unload_plugin : QemuCommand

pub data Plugin : Type 0 where
  writetracker replay : Plugin

pub data SockError : Type 0 where
  not_connected already_connected other_error no_error : SockError

pub record SockMessage : Type 0 where
  pub q_cmd : QemuCommand
  pub need_response : Bool
  pub plugin_name : Plugin
  pub start : Bytes
  pub end : Bytes
  pub id : ℕ

abbrev pub build_load_plugin_msg : Plugin → (start end : Bytes) → SockMessage → SockMessage
build_load_plugin_msg plugin start end msg = record msg {
  q_cmd = load_plugin;
  need_response = false;
  plugin_name = plugin;
  start = start;
  end = end;
}

abbrev pub build_unload_plugin_msg : ℕ → SockMessage → SockMessage
build_unload_plugin_msg idx msg = record msg {
  q_cmd = unload_plugin;
  need_response = false;
  id = idx;
}

abbrev pub is_empty : Bytes → Bool
is_empty [] = true
is_empty (b ∷ s) = false

-- The options of the write tracker: a comma between them, and a space only in front of a start.
unfoldable pub writetracker_options : (start end : Bytes) → Bytes
writetracker_options start end =
    let start_option = if is_empty start then [] else codes " start=" ++ start in
    let comma = if is_empty start then [] else codes "," in
    start_option ++ (if is_empty end then [] else comma ++ (codes "end=" ++ end))

unfoldable pub replay_options : Bytes → Bytes
replay_options start = if is_empty start then [] else codes " base=" ++ start

unfoldable pub plugin_command : Plugin → (start end : Bytes) → Bytes
unfolding writetracker_options replay_options
plugin_command writetracker start end = codes "writetracker" ++ writetracker_options start end
plugin_command replay start end = codes "replayer" ++ replay_options start

-- The command and the newline that the monitor waits for.
unfoldable pub complete_command : SockMessage → Bytes
unfolding plugin_command to_string
complete_command msg =
    (elim msg.q_cmd [
      | list_plugins ↦ codes "list_plugins"
      | load_plugin ↦ codes "load_plugin " ++ plugin_command msg.plugin_name msg.start msg.end
      | unload_plugin ↦ codes "unload_plugin " ++ to_string msg.id
    ])
    ++ codes "\n"

-- `sockaddr`, `sockport` and `sockfd`.
pub record Client : Type 0 where
  pub sockaddr : Bytes
  pub sockport : ℕ
  pub sockfd : ℤ

-- The calls of the system; a text that is no address is rejected by `inet_pton`.
pub record Net (W : Type 0) : Type 0 where
  pub socket : W → ℤ × W
  pub is_address : Bytes → Bool
  pub connect : ℤ → (addr : Bytes) → (port : ℕ) → W → ℤ × W
  pub send : ℤ → Bytes → W → ℤ × W
  pub close : ℤ → W → W

module _ {W : Type 0} (net : Net W) where
  -- `Init`: 0 or -1, and the socket that is kept in either case.
  unfoldable pub init : Client → W → ℤ × Client × W
  init c w =
      let (fd, w1) = net.socket w in
      let c1 = record c { sockfd = fd } in
      let (res, w2) = net.connect fd c.sockaddr (u16 c.sockport) w1 in
      if is_neg fd
      then (negsuc 0, c1, w1)
      else if not (net.is_address c.sockaddr)
      then (negsuc 0, c1, w1)
      else if is_neg res
      then (negsuc 0, c1, w2)
      else (pos 0, c1, w2)

  unfoldable pub send_command : Client → SockMessage → W → SockError × W
  unfolding complete_command
  send_command c msg w =
      let (res, w') = net.send c.sockfd (complete_command msg) w in
      if is_neg c.sockfd
      then (not_connected, w)
      else if is_neg res
      then (other_error, w')
      else (no_error, w')

  abbrev pub close_connection : Client → W → Client × W
  close_connection c w = (record c { sockfd = negsuc 0 }, net.close c.sockfd w)

-- `string compare(buffer)`: up to the first NUL; a buffer without one is read past its end.
unfoldable pub text_of : Bytes → Option Bytes
unfolding c_str
text_of buffer = if ltb (length (c_str buffer)) (length buffer) then some (c_str buffer) else none

-- The loop of `ReceiveReply` over what `recv` gives: some bytes at the front of the buffer, or none
-- for an end or an error. The buffer keeps what lies behind them. Without a further reply it waits.
unfoldable pub receive_reply : Bytes → List Bytes → Outcome SockError
receive_reply buffer [] = stuck
receive_reply buffer ([] ∷ replies) = ok other_error
receive_reply buffer ((b ∷ bytes) ∷ replies) =
    let buffer' = (b ∷ bytes) ++ drop (length (b ∷ bytes)) buffer in
    let rest = receive_reply buffer' replies in
    elim (text_of buffer') [
      | none ↦ fault
      | some text ↦ elim (find text (codes "cmEOF")) [ some n ↦ ok no_error | none ↦ rest ]
    ]
