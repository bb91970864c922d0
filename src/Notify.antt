-- ===== src/Notify.antt =====
-- common/types/note.rs and common/notify/uds.rs: notes to the peers on a socket. The connections
-- are here; the listener at the other end stands in a child module.
pub mod Listener
pub mod Log
pub mod Wait
pub mod Channel
pub mod Desktop
mod Tests
use supertag.Base.{Bool, true, false, List, [], ◌∷◌, ◌++◌, Option, none, some, Text, if◌then◌else◌}

pub data Note : Type 0 where
  bad_copy : Note
  dragged_to_root : Note
  unlink : Text → Note
  tag_to_tag_group : Text → Note

-- The line feed behind each note
abbrev pub newline : Text
newline = 10 ∷ []

-- A connection: the notes that its sender has sent and the thread has not received, the bytes that
-- the thread has written to the stream, and whether the thread still runs.
pub record Peer : Type 0 where
  pub queue : List Note
  pub stream : Text
  pub running : Bool

-- `Sender::send`, which fails where the receiver is dropped
abbrev pub send : Note → Peer → Option Peer
send note peer =
    if peer.running then some (record peer { queue = peer.queue ++ note ∷ [] }) else none

-- A new connection
abbrev pub connected : Peer
connected = record { queue = []; stream = []; running = true }

module _ (encode : Note → Text) where
  -- One round of `handle_conn`, for a note that is received. The stream takes all of it, or a part
  -- and then fails.
  unfoldable pub write_note : Option Text → Note → Peer → Peer
  write_note none note peer = record peer { stream = peer.stream ++ (encode note ++ newline) }
  write_note (some part) note peer = record peer { stream = peer.stream ++ part; running = false }

  next_note : Option Text → List Note → Peer → Peer
  unfolding write_note
  next_note outcome [] peer = peer
  next_note outcome (note ∷ queue) peer = write_note outcome note (record peer { queue = queue })

  -- `handle_conn`, for as many rounds as the stream has outcomes
  unfoldable pub handle_conn : List (Option Text) → Peer → Peer
  unfolding next_note
  handle_conn [] peer = peer
  handle_conn (outcome ∷ outcomes) peer =
      handle_conn outcomes (if peer.running then next_note outcome peer.queue peer else peer)

pub record UdsNotifier : Type 0 where
  pub peers : List Peer
  pub bound : Bool

-- `UDSNotifier::new`, where the socket can be bound
abbrev pub new : Bool → UdsNotifier
new bind = record { peers = []; bound = bind }

-- The thread that takes connections
abbrev pub accept : UdsNotifier → UdsNotifier
accept n = record n { peers = n.peers ++ connected ∷ [] }

kept : Option Peer → List Peer → List Peer
kept none peers = peers
kept (some peer) peers = peer ∷ peers

-- `retain`: whoever cannot be sent to is removed.
unfoldable pub retain_sent : Note → List Peer → List Peer
unfolding kept
retain_sent note [] = []
retain_sent note (peer ∷ peers) = kept (send note peer) (retain_sent note peers)

unfoldable pub send_message : UdsNotifier → Note → UdsNotifier
send_message n note = if n.bound then record n { peers = retain_sent note n.peers } else n

-- A run of messages
unfoldable pub send_all : List Note → UdsNotifier → UdsNotifier
send_all [] n = n
send_all (note ∷ notes) n = send_all notes (send_message n note)
