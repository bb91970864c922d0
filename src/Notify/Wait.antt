-- ===== src/Notify/Wait.antt =====
-- `wait_for_pred` returns, and finds what came after the marker.
use supertag.Base.{
  ℕ, zero, suc, ◌+◌, ◌*◌, ◌/◌, ◌≤◌, ◌<◌, ◌≡◌, ◌≢◌, refl, ap, ◌∙◌, Bool, true, false, List, [], ◌∷◌,
  ◌++◌, Option, none, some, All, length, drop, length-append, ltb, arith, if◌then◌else◌,
}
use supertag.Notify.{Note}
use supertag.Notify.Listener.{
  Buffer, Aggregate, marker, check_notes, Waited, waiting, decided, wait_for_pred,
}
use supertag.Notify.Log.{
  numbered, forgotten, Represents, length-numbered, drop-append, marker-Represents,
}

-- The first note of a list that fits, with its position
abbrev pub first_match : (Note → Bool) → ℕ → List Note → Option (Note × ℕ)
first_match pred i [] = none
first_match pred i (note ∷ notes) =
    if pred note then some (note, i) else first_match pred (i + 1) notes

-- The notes up to a position
abbrev IsPast : ℕ → ℕ × Note → Type 0
IsPast b x = x.0 ≤ b

numbered-IsPast :
    (b i : ℕ) (log : List Note) → i + length log ≤ b + 1 → All (IsPast b) (numbered i log)
unfolding numbered
numbered-IsPast b i [] h = tt
numbered-IsPast b i (m ∷ log) h = (omega arith, numbered-IsPast b (i + 1) log (omega arith))

drop-IsPast : (b n : ℕ) (xs : Buffer) → All (IsPast b) xs → All (IsPast b) (drop n xs)
drop-IsPast b zero xs a = a
drop-IsPast b (suc n) [] a = tt
drop-IsPast b (suc n) (x ∷ xs) (ax, a) = drop-IsPast b n xs a

numbered-append_list :
    (i : ℕ) (log new : List Note)
    → numbered i (log ++ new) ≡ numbered i log ++ numbered (i + length log) new
unfolding numbered
numbered-append_list i [] new = ap (λ n. numbered n new) (omega arith)
numbered-append_list i (m ∷ log) new =
    let e : i + 1 + length log ≡ i + suc (length log) = omega arith in
    ap (◌∷◌ (i, m)) (numbered-append_list (i + 1) log new ∙ rw e refl)

module _ (pred : Note → Bool) (b : ℕ) where
  check_notes-past :
      (old new : Buffer)
      → All (IsPast b) old
      → check_notes pred b (old ++ new) ≡ check_notes pred b new
  unfolding check_notes
  check_notes-past [] new a = refl
  check_notes-past (x ∷ old) new (ax, a) = ground (arith, check_notes-past old new a)

  check_notes-numbered :
      (i : ℕ) (new : List Note)
      → b < i
      → check_notes pred b (numbered i new) ≡ first_match pred i new
  unfolding check_notes numbered
  check_notes-numbered i [] h = refl
  check_notes-numbered i (m ∷ new) h = ground (arith, check_notes-numbered (i + 1) new)

-- A look at the buffer, from the position at which the log ended
check_notes-Represents :
    (pred : Note → Bool) (log new : List Note) (s : Aggregate)
    → Represents (log ++ new) s
    → length new ≤ 9999
    → check_notes pred (length log) s.buffer ≡ first_match pred (length log + 1) new
check_notes-Represents pred log new s r h =
    let gone = forgotten (length (log ++ new)) in
    let few : gone ≤ length (numbered 1 log) =
      omega (arith, length-append log new, length-numbered 1 log) in
    rw (r.buffered, numbered-append_list 1 log new)
      (ap (check_notes pred (length log))
          (drop-append gone (numbered 1 log) (numbered (1 + length log) new) few)
        ∙ check_notes-past pred (length log) (drop gone (numbered 1 log))
            (numbered (1 + length log) new)
            (drop-IsPast (length log) gone (numbered 1 log)
              (numbered-IsPast (length log) 1 log (omega arith)))
        ∙ check_notes-numbered pred (length log) (1 + length log) new (omega arith)
        ∙ ap (λ n. first_match pred n new) (omega arith))

-- Waiting as it is meant: for the first note that fits among those that have arrived
module _ (pred : Note → Bool) (timeout : ℕ) (base : ℕ) (arrived : ℕ → List Note)
    (elapsed : ℕ → ℕ) where
  abbrev pub await : ℕ → ℕ → Waited
  await zero k = waiting
  await (suc fuel) k =
      let rest = await fuel (k + 1) in
      decided (first_match pred (base + 1) (arrived k)) (ltb timeout (elapsed k)) rest

wait_for_pred-await :
    (pred : Note → Bool) (timeout : ℕ) (log : List Note) (arrived : ℕ → List Note)
    (states : ℕ → Aggregate) (elapsed : ℕ → ℕ)
    → ((k : ℕ) → Represents (log ++ arrived k) (states k))
    → ((k : ℕ) → length (arrived k) ≤ 9999)
    → (fuel k : ℕ)
    → wait_for_pred pred (length log) timeout (λ j. (states j).buffer) elapsed fuel k
      ≡ await pred timeout (length log) arrived elapsed fuel k
unfolding wait_for_pred
wait_for_pred-await pred timeout log arrived states elapsed r h zero k = refl
wait_for_pred-await pred timeout log arrived states elapsed r h (suc fuel) k =
    rw
      (
        check_notes-Represents pred log (arrived k) (states k) (r k) (h k),
        wait_for_pred-await pred timeout log arrived states elapsed r h fuel (k + 1),
      )
      refl

-- Whoever takes a marker, and then waits from it with looks at the buffer at whatever moments, waits
-- for the first fitting note among those that have arrived since, in the order in which they came,
-- and for no earlier note: as long as no more than 9,999 arrive, none of these is missed.
pub wait_for_pred-marker :
    (pred : Note → Bool) (timeout : ℕ) (log : List Note) (arrived : ℕ → List Note)
    (start : Aggregate) (states : ℕ → Aggregate) (elapsed : ℕ → ℕ)
    → Represents log start
    → ((k : ℕ) → Represents (log ++ arrived k) (states k))
    → ((k : ℕ) → length (arrived k) ≤ 9999)
    → (fuel : ℕ)
    → wait_for_pred pred (marker start.buffer) timeout (λ j. (states j).buffer) elapsed fuel 0
      ≡ await pred timeout (length log) arrived elapsed fuel 0
wait_for_pred-marker pred timeout log arrived start states elapsed s r h fuel =
    rw (marker-Represents log start s)
      (wait_for_pred-await pred timeout log arrived states elapsed r h fuel 0)

decided-ne :
    (o : Option (Note × ℕ)) (late : Bool) (rest : Waited)
    → (late ≡ false → rest ≢ waiting)
    → decided o late rest ≢ waiting
unfolding decided
decided-ne (some (note, i)) late rest h e = cc
decided-ne none true rest h e = cc
decided-ne none false rest h e = h refl e

-- Each round of the wait takes a hundred milliseconds, so it ends within this many looks.
wait_ends :
    (pred : Note → Bool) (idx timeout : ℕ) (buffer : ℕ → Buffer) (elapsed : ℕ → ℕ)
    → ((k : ℕ) → k * 100 ≤ elapsed k)
    → (fuel k : ℕ) → timeout + 100 < (fuel + k) * 100
    → k * 100 ≤ timeout + 100
    → wait_for_pred pred idx timeout buffer elapsed fuel k ≢ waiting
unfolding wait_for_pred
wait_ends pred idx timeout buffer elapsed slow zero k enough few = absurd (omega arith)
wait_ends pred idx timeout buffer elapsed slow (suc fuel) k enough few =
    decided-ne (check_notes pred idx (buffer k)) (ltb timeout (elapsed k))
      (wait_for_pred pred idx timeout buffer elapsed fuel (k + 1))
      (λ on_time.
        wait_ends pred idx timeout buffer elapsed slow fuel (k + 1) (omega arith)
          (ground (arith, slow k)))

-- A wait always returns, with a note or with the timeout: the sleeps of a hundred milliseconds
-- between its looks bound their number by the timeout.
pub wait_for_pred-returns :
    (pred : Note → Bool) (idx timeout : ℕ) (buffer : ℕ → Buffer) (elapsed : ℕ → ℕ)
    → ((k : ℕ) → k * 100 ≤ elapsed k)
    → wait_for_pred pred idx timeout buffer elapsed (timeout / 100 + 2) 0 ≢ waiting
wait_for_pred-returns pred idx timeout buffer elapsed slow =
    wait_ends pred idx timeout buffer elapsed slow (timeout / 100 + 2) 0 (omega arith) (omega arith)
