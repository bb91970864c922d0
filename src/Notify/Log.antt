-- ===== src/Notify/Log.antt =====
-- The buffer of the listener as the end of a log: the abstract view forgets counter and capacity.
use supertag.Base.{
  ℕ, zero, suc, ◌+◌, ◌-◌, ◌≤◌, ◌<◌, min, ◌≡◌, refl, sym, ap, ◌∙◌, Bool, true, false, List, [], ◌∷◌,
  ◌++◌, Option, none, some, Text, length, drop, length-append, length-drop, leb, arith, Bool-cases,
  inl, inr, append-nil, append_assoc,
}
use supertag.Notify.{Note}
use supertag.Notify.Listener.{
  Buffer, Aggregate, peer_buffer, empty_aggregate, pop_front_full, push_note, on_decoded, on_read,
  aggregate, marker, note_count,
}

-- A log with the position of each note
unfoldable pub numbered : ℕ → List Note → Buffer
numbered i [] = []
numbered i (note ∷ log) = (i, note) ∷ numbered (i + 1) log

pub numbered-append :
    (i : ℕ) (log : List Note) (note : Note)
    → numbered i (log ++ note ∷ []) ≡ numbered i log ++ (i + length log, note) ∷ []
unfolding numbered
numbered-append i [] note = ap (λ n. (n, note) ∷ []) (omega arith)
numbered-append i (m ∷ log) note =
    let e : i + 1 + length log ≡ i + suc (length log) = omega arith in
    ap (◌∷◌ (i, m)) (numbered-append (i + 1) log note ∙ rw e refl)

pub length-numbered : (i : ℕ) (log : List Note) → length (numbered i log) ≡ length log
unfolding numbered
length-numbered i [] = refl
length-numbered i (m ∷ log) = ap suc (length-numbered (i + 1) log)

pub drop-append {ℓ} :
    {A : Type ℓ} (n : ℕ) (xs ys : List A) → n ≤ length xs → drop n (xs ++ ys) ≡ drop n xs ++ ys
drop-append zero xs ys h = refl
drop-append (suc n) [] ys h = absurd (omega arith)
drop-append (suc n) (x ∷ xs) ys h = drop-append n xs ys (omega arith)

drop-drop {ℓ} : {A : Type ℓ} (n : ℕ) (xs : List A) → drop 1 (drop n xs) ≡ drop (suc n) xs
drop-drop zero xs = refl
drop-drop (suc n) [] = refl
drop-drop (suc n) (x ∷ xs) = drop-drop n xs

-- How many of so many notes are gone from the buffer
abbrev pub forgotten : ℕ → ℕ
forgotten n = n - 9999

pub record Represents (log : List Note) (s : Aggregate) : Type 0 where
  pub next_position : s.counter ≡ length log + 1
  pub buffered : s.buffer ≡ drop (forgotten (length log)) (numbered 1 log)

length-kept :
    (n : ℕ) (xs : Buffer) (x : ℕ × Note)
    → length xs ≡ n
    → length (drop (forgotten n) xs ++ x ∷ []) ≡ n - forgotten n + 1
length-kept n xs x h =
    omega (arith, length-append (drop (forgotten n) xs) (x ∷ []), length-drop (forgotten n) xs)

-- A push and a pop where the buffer is full come to the end of the longer log.
pop_front_full_lem :
    (n : ℕ) (xs : Buffer) (x : ℕ × Note)
    → length xs ≡ n
    → pop_front_full (drop (forgotten n) xs ++ x ∷ []) ≡ drop (forgotten (n + 1)) (xs ++ x ∷ [])
pop_front_full_lem n xs x h =
    let joined : drop (forgotten n) (xs ++ x ∷ []) ≡ drop (forgotten n) xs ++ x ∷ [] =
      drop-append (forgotten n) xs (x ∷ []) (omega arith) in
    elim (Bool-cases (leb 9999 n)) [
      | inl full ↦
          let step : forgotten (n + 1) ≡ suc (forgotten n) = ground arith in
          let test : leb peer_buffer (length (drop (forgotten n) xs ++ x ∷ [])) ≡ true =
            ground (arith, length-kept n xs x) in
          rw test (
            ap (drop 1) (sym joined)
            ∙ drop-drop (forgotten n) (xs ++ x ∷ [])
            ∙ sym (ap (λ k. drop k (xs ++ x ∷ [])) step))
      | inr free ↦
          let same : forgotten (n + 1) ≡ forgotten n = ground arith in
          let test : leb peer_buffer (length (drop (forgotten n) xs ++ x ∷ [])) ≡ false =
            ground (arith, length-kept n xs x) in
          rw test (sym joined ∙ sym (ap (λ k. drop k (xs ++ x ∷ [])) same))
    ]

pub push_note-Represents :
    (note : Note) (log : List Note) (s : Aggregate)
    → Represents log s
    → Represents (log ++ note ∷ []) (push_note note s)
unfolding push_note
push_note-Represents note log s r =
    let longer : length (log ++ note ∷ []) ≡ length log + 1 =
      omega (arith, length-append log (note ∷ [])) in
    record {
      next_position = omega arith;
      buffered =
          rw (r.buffered, r.next_position, longer, numbered-append 1 log note)
            (ap
                (λ k.
                  pop_front_full (drop (forgotten (length log)) (numbered 1 log) ++ (k, note) ∷ []))
                (omega arith)
              ∙ pop_front_full_lem (length log) (numbered 1 log) (1 + length log, note)
                  (length-numbered 1 log));
    }

-- The notes that the rounds of the listener read, until the flag is set
unfoldable pub log_of : (Text → Option Note) → List (Bool × Option Text) → List Note
log_of decode [] = []
log_of decode ((true, read) ∷ rounds) = []
log_of decode ((false, none) ∷ rounds) = log_of decode rounds
log_of decode ((false, some line) ∷ rounds) = elim (decode line) [
  | none ↦ log_of decode rounds
  | some note ↦ note ∷ log_of decode rounds
]

pub empty_aggregate-Represents : Represents [] empty_aggregate
unfolding numbered
empty_aggregate-Represents = record { next_position = omega arith; buffered = refl }

module _ (decode : Text → Option Note) where
  on_line :
      (found : Option Note) (rest : List Note) (log : List Note) (s : Aggregate)
      → Represents log s
      → (log' : List Note) × Represents log' (on_decoded found s)
        × (log ++ elim found [ none ↦ rest | some note ↦ note ∷ rest ] ≡ log' ++ rest)
  unfolding on_decoded
  on_line none rest log s r = (log, r, refl)
  on_line (some note) rest log s r =
      (log ++ note ∷ [], push_note-Represents note log s r, sym (append_assoc log (note ∷ []) rest))

  -- Whatever the socket gives, the buffer holds the last 9,999 notes that were read, each with its
  -- position among all that were read, and the counter is one more than their number.
  pub aggregate-Represents :
      (rounds : List (Bool × Option Text)) (log : List Note) (s : Aggregate)
      → Represents log s
      → Represents (log ++ log_of decode rounds) (aggregate decode rounds s)
  unfolding aggregate on_read log_of
  aggregate-Represents [] log s r = rw append-nil r
  aggregate-Represents ((true, read) ∷ rounds) log s r = rw append-nil r
  aggregate-Represents ((false, none) ∷ rounds) log s r = aggregate-Represents rounds log s r
  aggregate-Represents ((false, some line) ∷ rounds) log s r =
      let (log', r', e) = on_line (decode line) (log_of decode rounds) log s r in
      rw e (aggregate-Represents rounds log' (on_decoded (decode line) s) r')

-- A listener refines the log of the notes that it reads: whatever lines and failures the socket
-- gives, until the listener is dropped, the buffer holds the last 9,999 notes in the order in which
-- they came, each with its position among all of them, and the counter is the next position.
pub aggregate-refines_log :
    (decode : Text → Option Note) (rounds : List (Bool × Option Text))
    → Represents (log_of decode rounds) (aggregate decode rounds empty_aggregate)
aggregate-refines_log decode rounds =
    aggregate-Represents decode rounds [] empty_aggregate empty_aggregate-Represents

marker-drop : (n : ℕ) (xs : Buffer) → n < length xs → marker (drop n xs) ≡ marker xs
unfolding marker
marker-drop zero xs h = refl
marker-drop (suc n) [] h = refl
marker-drop (suc n) (x ∷ []) h = absurd (omega arith)
marker-drop (suc n) (x ∷ y ∷ xs) h = marker-drop n (y ∷ xs) (omega arith)

marker-numbered :
    (i : ℕ) (m : Note) (log : List Note) → marker (numbered i (m ∷ log)) ≡ i + length log
unfolding marker numbered
marker-numbered i m [] = omega arith
marker-numbered i m (n ∷ log) = marker-numbered (i + 1) n log ∙ omega arith

-- The marker is the number of the notes that were read.
pub marker-Represents :
    (log : List Note) (s : Aggregate) → Represents log s → marker s.buffer ≡ length log
unfolding marker numbered
marker-Represents [] s r = rw (r.buffered, numbered) refl
marker-Represents (m ∷ log) s r = rw r.buffered (
    marker-drop (forgotten (length (m ∷ log))) (numbered 1 (m ∷ log))
      (omega (arith, length-numbered 1 (m ∷ log)))
    ∙ marker-numbered 1 m log
    ∙ omega arith)

-- However many notes a listener reads, it keeps at most 9,999: `note_count` is the lesser of that and
-- the number of notes read, which the marker gives whole.
pub note_count_bounds :
    (decode : Text → Option Note) (rounds : List (Bool × Option Text))
    → (note_count (aggregate decode rounds empty_aggregate).buffer
        ≡ min 9999 (length (log_of decode rounds)))
      × (marker (aggregate decode rounds empty_aggregate).buffer ≡ length (log_of decode rounds))
note_count_bounds decode rounds =
    let log = log_of decode rounds in
    let r = aggregate-refines_log decode rounds in
    (
      ap length r.buffered
          ∙ omega
              (arith, length-drop (forgotten (length log)) (numbered 1 log), length-numbered 1 log),
      marker-Represents log (aggregate decode rounds empty_aggregate) r,
    )
