-- ===== src/Notify/Desktop.antt =====
-- common/notify/desktop.rs: notes as messages on the desktop, not too many at once. A note is sent at
-- two readings of the clock, in nanoseconds: one for the time since the last one, and the new one.
use supertag.Base.{
  ℕ, ◌+◌, ◌-◌, ◌/◌, ◌≤◌, Bool, true, List, [], ◌∷◌, ◌++◌, Option, none, some, Text, codes, ltb,
  arith, Bool-cases, inl, inr, if◌then◌else◌,
}
use supertag.Names.{unlink_name}
use supertag.Notify.{Note, bad_copy, dragged_to_root, unlink, tag_to_tag_group}

pub record DesktopNotifier : Type 0 where
  pub icon : Option Text
  pub last_message : ℕ

abbrev pub new_desktop : Option Text → ℕ → DesktopNotifier
new_desktop icon now = record { icon = icon; last_message = now }

-- `Notification` of notify_rust, by what is set in it
pub record Notification : Type 0 where
  pub icon : Option Text
  pub summary : Text
  pub timeout : ℕ
  pub body : Text

abbrev pub body_of : Note → Text
body_of bad_copy = codes "Cannot copy file into collection, symlink instead"
body_of dragged_to_root = codes "Cannot tag a file in the root collection"
body_of (unlink path) = codes "Delete by renaming folder to '" ++ (unlink_name ++ codes "'")
body_of (tag_to_tag_group tag) = codes "Cannot change a non-empty tag to a tag group"

-- What is shown, if anything is, and whether the result is `Ok`
pub record Sent : Type 0 where
  pub notifier : DesktopNotifier
  pub shown : Option Notification
  pub ok : Bool

-- `show` says whether the desktop takes the message.
module _ (show : Notification → Bool) where
  unfoldable pub notify_desktop : ℕ → ℕ → Note → DesktopNotifier → Sent
  notify_desktop now later note n =
      let n' = record n { last_message = later } in
      let full_note : Notification = record {
        icon = n.icon;
        summary = codes "Supertag Error";
        timeout = 6000;
        body = body_of note;
      } in
      if ltb ((now - n.last_message) / 1000000) 500
      then record { notifier = n'; shown = none; ok = true }
      else record { notifier = n'; shown = some full_note; ok = show full_note }

  -- Whether the desktop was asked to show a note at this time
  abbrev pub time_shown : ℕ → Option Notification → List ℕ → List ℕ
  time_shown now none times = times
  time_shown now (some full_note) times = now ∷ times

  -- The times at which a run of notes asks the desktop
  unfoldable pub times_shown : List (ℕ × ℕ × Note) → DesktopNotifier → List ℕ
  times_shown [] n = []
  times_shown ((now, later, note) ∷ calls) n =
      let sent = notify_desktop now later note n in
      time_shown now sent.shown (times_shown calls sent.notifier)

-- A clock that does not go back
abbrev pub Runs : ℕ → List (ℕ × ℕ × Note) → Type 0
Runs time [] = Unit {0}
Runs time ((now, later, note) ∷ calls) = (time ≤ now) × (now ≤ later) × Runs later calls

-- Each time is half a second behind the one before.
abbrev pub AreSpaced : ℕ → List ℕ → Type 0
AreSpaced time [] = Unit {0}
AreSpaced time (t ∷ times) = (time + 500000000 ≤ t) × AreSpaced t times

AreSpaced-earlier : (a b : ℕ) (times : List ℕ) → a ≤ b → AreSpaced b times → AreSpaced a times
AreSpaced-earlier a b [] h s = tt
AreSpaced-earlier a b (t ∷ times) h (st, s) = (omega arith, s)

-- Whatever notes come, by a clock that does not go back, and whether or not the desktop takes them: it
-- is asked to show one at most once in half a second, and none in the half second behind the last note
-- before them.
pub times_shown-AreSpaced :
    (show : Notification → Bool) (calls : List (ℕ × ℕ × Note)) (n : DesktopNotifier)
    → Runs n.last_message calls
    → AreSpaced n.last_message (times_shown show calls n)
unfolding times_shown notify_desktop
times_shown-AreSpaced show [] n h = tt
times_shown-AreSpaced show ((now, later, note) ∷ calls) n (hn, hl, h) =
    let rest : AreSpaced later (times_shown show calls (record n { last_message = later })) =
      times_shown-AreSpaced show calls (record n { last_message = later }) h in
    elim (Bool-cases (ltb ((now - n.last_message) / 1000000) 500)) [
      | inl soon ↦ rw soon (AreSpaced-earlier n.last_message later _ (omega arith) rest)
      | inr e ↦ rw e (ground arith, AreSpaced-earlier now later _ hl rest)
    ]
