-- ===== src/Notify/Listener.antt =====
-- The listener of common/notify/uds.rs: its buffer, the thread that fills it, and the waiting.
use supertag.Base.{
  ℕ, zero, suc, ◌+◌, Bool, true, false, List, [], ◌∷◌, ◌++◌, Option, none, some, Text, length, drop,
  leb, ltb, text_eq, if◌then◌else◌,
}
use supertag.Notify.{Note, bad_copy, dragged_to_root, unlink, tag_to_tag_group}

-- How many messages a peer stores, as the comment has it
abbrev pub peer_buffer : ℕ
peer_buffer = 10000

abbrev pub Buffer : Type 0
Buffer = List (ℕ × Note)

-- The variables of `aggregate`
pub record Aggregate : Type 0 where
  pub buffer : Buffer
  pub counter : ℕ

-- The counter starts at 1, so that the marker is 0 where the buffer is empty.
abbrev pub empty_aggregate : Aggregate
empty_aggregate = record { buffer = []; counter = 1 }

abbrev pub pop_front_full : Buffer → Buffer
pop_front_full buffer = if leb peer_buffer (length buffer) then drop 1 buffer else buffer

-- A note that was decoded
unfoldable pub push_note : Note → Aggregate → Aggregate
push_note note s = record {
  buffer = pop_front_full (s.buffer ++ (s.counter, note) ∷ []);
  counter = s.counter + 1;
}

unfoldable pub on_decoded : Option Note → Aggregate → Aggregate
on_decoded none s = s
on_decoded (some note) s = push_note note s

module _ (decode : Text → Option Note) where
  -- What `read_line` returns: a line, or nothing where it fails
  unfoldable pub on_read : Option Text → Aggregate → Aggregate
  on_read none s = s
  on_read (some line) s = on_decoded (decode line) s

  -- The loop, with what the flag and then the socket give in each round
  unfoldable pub aggregate : List (Bool × Option Text) → Aggregate → Aggregate
  aggregate [] s = s
  aggregate ((true, read) ∷ rounds) s = s
  aggregate ((false, read) ∷ rounds) s = aggregate rounds (on_read read s)

unfoldable pub marker : Buffer → ℕ
marker [] = 0
marker (val ∷ []) = val.0
marker (val ∷ w ∷ buffer) = marker (w ∷ buffer)

abbrev pub note_count : Buffer → ℕ
note_count buffer = length buffer

-- One look at the buffer: the first note behind the index that fits
unfoldable pub check_notes : (Note → Bool) → ℕ → Buffer → Option (Note × ℕ)
check_notes pred idx [] = none
check_notes pred idx ((cand_idx, cand) ∷ buffer) =
    if leb cand_idx idx
    then check_notes pred idx buffer
    else if pred cand
    then some (cand, cand_idx)
    else check_notes pred idx buffer

-- What the loop of `wait_for_pred` comes to
pub data Waited : Type 0 where
  found : Note → ℕ → Waited
  timed_out : Waited
  waiting : Waited

unfoldable pub decided : Option (Note × ℕ) → Bool → Waited → Waited
decided (some (note, i)) late rest = found note i
decided none true rest = timed_out
decided none false rest = rest

-- The loop, with the buffer and the elapsed time at the look `k`, and on. The fuel is the number of
-- looks; `waiting` is what is left where it runs out.
module _ (pred : Note → Bool) (idx : ℕ) (timeout : ℕ) (buffer : ℕ → Buffer) (elapsed : ℕ → ℕ) where
  unfoldable pub wait_for_pred : ℕ → ℕ → Waited
  unfolding decided
  wait_for_pred zero k = waiting
  wait_for_pred (suc fuel) k =
      let rest = wait_for_pred fuel (k + 1) in
      decided (check_notes pred idx (buffer k)) (ltb timeout (elapsed k)) rest

-- `PartialEq`
unfoldable pub note_eq : Note → Note → Bool
note_eq bad_copy bad_copy = true
note_eq dragged_to_root dragged_to_root = true
note_eq (unlink p) (unlink q) = text_eq p q
note_eq (tag_to_tag_group s) (tag_to_tag_group t) = text_eq s t
note_eq _ _ = false

is_found : Waited → Bool
is_found (found note i) = true
is_found timed_out = false
is_found waiting = false

unfoldable pub wait_for : Note → ℕ → ℕ → (ℕ → Buffer) → (ℕ → ℕ) → ℕ → Bool
unfolding is_found
wait_for note idx timeout buffer elapsed fuel =
    is_found (wait_for_pred (λ cand. note_eq cand note) idx timeout buffer elapsed fuel 0)
