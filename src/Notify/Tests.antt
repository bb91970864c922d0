-- ===== src/Notify/Tests.antt =====
-- Examples for the notes, with a format that shifts the characters of a text behind the line feed.
use supertag.Base.{
  ℕ, ◌+◌, ◌-◌, ◌*◌, ◌/◌, ◌≡◌, ◌≢◌, refl, ap, Bool, true, false, List, [], ◌∷◌, ◌++◌, map, Option,
  none, some, Text, codes, Lacks, last?, length, min, arith, ◌==◌, if◌then◌else◌,
}
use supertag.Notify.{
  Note, bad_copy, dragged_to_root, unlink, tag_to_tag_group, newline, Peer, handle_conn, new,
  accept, send_all,
}
use supertag.Notify.Channel.{IsJson, reads, send_all-aggregate}
use supertag.Notify.Desktop.{Notification, times_shown, AreSpaced, times_shown-AreSpaced}
use supertag.Notify.Listener.{
  Aggregate, empty_aggregate, push_note, aggregate, marker, note_count, waiting, wait_for_pred,
}
use supertag.Notify.Log.{
  Represents, log_of, push_note-Represents, empty_aggregate-Represents, aggregate-refines_log,
  note_count_bounds,
}
use supertag.Notify.Wait.{await, wait_for_pred-marker, wait_for_pred-returns}

abbrev shifted : Text → Text
shifted [] = []
shifted (c ∷ s) = (c + 11) ∷ shifted s

abbrev unshifted : Text → Text
unshifted [] = []
unshifted (c ∷ s) = let rest = unshifted s in if c == 10 then [] else (c - 11) ∷ rest

abbrev encode : Note → Text
encode bad_copy = 1 ∷ []
encode dragged_to_root = 2 ∷ []
encode (unlink path) = 3 ∷ shifted path
encode (tag_to_tag_group tag) = 4 ∷ shifted tag

abbrev decode : Text → Option Note
decode [] = none
decode (c ∷ s) =
    if c == 1
    then some bad_copy
    else if c == 2
    then some dragged_to_root
    else if c == 3
    then some (unlink (unshifted s))
    else if c == 4
    then some (tag_to_tag_group (unshifted s))
    else none

unshifted-shifted : (s : Text) → unshifted (shifted s ++ newline) ≡ s
unshifted-shifted [] = refl
unshifted-shifted (c ∷ s) = ground (arith, unshifted-shifted s)

shifted-Lacks : (s : Text) → Lacks 10 (shifted s)
shifted-Lacks [] = tt
shifted-Lacks (c ∷ s) = (λ e. omega arith, shifted-Lacks s)

decode-encode : (note : Note) → decode (encode note ++ newline) ≡ some note
decode-encode bad_copy = refl
decode-encode dragged_to_root = refl
decode-encode (unlink path) = ap (λ s. some (unlink s)) (unshifted-shifted path)
decode-encode (tag_to_tag_group tag) = ap (λ s. some (tag_to_tag_group s)) (unshifted-shifted tag)

encode-Lacks : (note : Note) → Lacks 10 (encode note)
encode-Lacks bad_copy = (λ e. omega arith, tt)
encode-Lacks dragged_to_root = (λ e. omega arith, tt)
encode-Lacks (unlink path) = (λ e. omega arith, shifted-Lacks path)
encode-Lacks (tag_to_tag_group tag) = (λ e. omega arith, shifted-Lacks tag)

encode-IsJson : IsJson encode decode
encode-IsJson = record { decodes = decode-encode; one_line = encode-Lacks; no_note = refl }

abbrev rounds : List (Bool × Option Text)
rounds =
    (false, some (1 ∷ newline)) ∷ (false, none) ∷ (false, some (9 ∷ newline)) ∷ (true, none) ∷ []

aggregate-refines_log_example :
    Represents (log_of decode rounds) (aggregate decode rounds empty_aggregate)
aggregate-refines_log_example = aggregate-refines_log decode rounds

note_count_bounds_example :
    (note_count (aggregate decode rounds empty_aggregate).buffer
      ≡ min 9999 (length (log_of decode rounds)))
    × (marker (aggregate decode rounds empty_aggregate).buffer ≡ length (log_of decode rounds))
note_count_bounds_example = note_count_bounds decode rounds

abbrev one_note : Aggregate
one_note = push_note bad_copy empty_aggregate

one_note-Represents : Represents (bad_copy ∷ []) one_note
one_note-Represents = push_note-Represents bad_copy [] empty_aggregate empty_aggregate-Represents

abbrev later : ℕ → Aggregate
later k = push_note dragged_to_root one_note

abbrev any_note : Note → Bool
any_note note = true

wait_for_pred-marker_example :
    wait_for_pred any_note (marker one_note.buffer) 1000 (λ j. (later j).buffer) (λ k. k * 100) 5 0
    ≡ await any_note 1000 1 (λ _. dragged_to_root ∷ []) (λ k. k * 100) 5 0
wait_for_pred-marker_example =
    wait_for_pred-marker any_note 1000 (bad_copy ∷ []) (λ _. dragged_to_root ∷ []) one_note later
      (λ k. k * 100) one_note-Represents
      (λ _. push_note-Represents dragged_to_root (bad_copy ∷ []) one_note one_note-Represents)
      (λ _. omega arith) 5

wait_for_pred-returns_example :
    wait_for_pred any_note 1 1000 (λ _. []) (λ k. k * 100) (1000 / 100 + 2) 0 ≢ waiting
wait_for_pred-returns_example =
    wait_for_pred-returns any_note 1 1000 (λ _. []) (λ k. k * 100) (λ k. omega arith)

abbrev notes : List Note
notes = unlink (codes "/rock/song") ∷ bad_copy ∷ []

send_all-aggregate_example :
    (p : Peer) × (last? (send_all notes (accept (new true))).peers ≡ some p)
    × Represents notes (
        aggregate decode
          (reads (handle_conn encode (map (λ _. none) notes) p).stream)
          empty_aggregate)
send_all-aggregate_example = send_all-aggregate encode decode (new true) notes encode-IsJson refl

abbrev calls : List (ℕ × ℕ × Note)
calls = (600000000, 600000001, bad_copy) ∷ (700000000, 700000001, dragged_to_root) ∷ []

abbrev show : Notification → Bool
show note = true

times_shown-AreSpaced_example :
    AreSpaced 0 (times_shown show calls (record { icon = none; last_message = 0 }))
times_shown-AreSpaced_example =
    times_shown-AreSpaced show calls (record { icon = none; last_message = 0 }) (omega arith)
