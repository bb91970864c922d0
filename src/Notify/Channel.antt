-- ===== src/Notify/Channel.antt =====
-- From `send_message` to the buffer of a listener: the bytes of a connection, read line by line.
use supertag.Base.{
  ◌≡◌, refl, sym, ap, ◌∙◌, Bool, true, false, List, [], ◌∷◌, ◌++◌, map, Option, none, some, Text,
  Lacks, last?, append_assoc, append-nil, arith, ◌==◌, if◌then◌else◌,
}
use supertag.Notify.{
  Note, newline, Peer, connected, send, write_note, next_note, handle_conn, UdsNotifier, accept,
  kept, retain_sent, send_message, send_all,
}
use supertag.Notify.Listener.{aggregate, empty_aggregate}
use supertag.Notify.Log.{log_of, Represents, aggregate-refines_log}

-- What `read_line` returns until the end of the bytes: each line with its line feed, and at the end
-- what stands behind the last one.
pub lines_from : Text → Text → List Text
lines_from line [] = line ∷ []
lines_from line (c ∷ s) =
    let rest = lines_from [] s in
    let longer = lines_from (line ++ c ∷ []) s in
    if c == 10 then (line ++ c ∷ []) ∷ rest else longer

-- The rounds of the listener that read these bytes
unfoldable pub reads : Text → List (Bool × Option Text)
unfolding lines_from
reads stream = map (λ line. (false, some line)) (lines_from [] stream)

-- What serde_json documents of a note: it is read back with white space behind it, its text escapes
-- line feeds, and there is no note in an empty text.
pub record IsJson (encode : Note → Text) (decode : Text → Option Note) : Type 0 where
  pub decodes : (note : Note) → decode (encode note ++ newline) ≡ some note
  pub one_line : (note : Note) → Lacks 10 (encode note)
  pub no_note : decode [] ≡ none

lines_from-line :
    (line s rest : Text)
    → Lacks 10 s
    → lines_from line (s ++ (newline ++ rest)) ≡ (line ++ (s ++ newline)) ∷ lines_from [] rest
unfolding lines_from
lines_from-line line [] rest h = refl
lines_from-line line (c ∷ s) rest (hc, h) =
    ground
      (arith, lines_from-line (line ++ c ∷ []) s rest h, append_assoc line (c ∷ []) (s ++ newline))

module _ (encode : Note → Text) where
  -- The bytes of notes
  written : List Note → Text
  written [] = []
  written (note ∷ notes) = (encode note ++ newline) ++ written notes

  handle_conn-written :
      (notes : List Note) (stream : Text)
      → (handle_conn encode
          (map (λ _. none) notes)
          (record { queue = notes; stream = stream; running = true })).stream
        ≡ stream ++ written notes
  unfolding handle_conn next_note write_note written
  handle_conn-written [] stream = sym (append-nil stream)
  handle_conn-written (note ∷ notes) stream =
      handle_conn-written notes (stream ++ (encode note ++ newline))
      ∙ append_assoc stream (encode note ++ newline) (written notes)

module _ (encode : Note → Text) (decode : Text → Option Note) (json : IsJson encode decode) where
  log_of-written : (notes : List Note) → log_of decode (reads (written encode notes)) ≡ notes
  unfolding reads written log_of lines_from
  log_of-written [] = rw json.no_note refl
  log_of-written (note ∷ notes) =
      rw
        (
          append_assoc (encode note) newline (written encode notes),
          lines_from-line [] (encode note) (written encode notes) (json.one_line note),
          json.decodes note,
        )
        (ap (◌∷◌ note) (log_of-written notes))

kept-append :
    (o : Option Peer) (peers after : List Peer) → kept o (peers ++ after) ≡ kept o peers ++ after
unfolding kept
kept-append none peers after = refl
kept-append (some q) peers after = refl

-- A message reaches a connection that runs.
retain_sent-last :
    (note : Note) (peers : List Peer) (p : Peer)
    → p.running ≡ true
    → retain_sent note (peers ++ p ∷ [])
      ≡ retain_sent note peers ++ record p { queue = p.queue ++ note ∷ [] } ∷ []
unfolding retain_sent kept
retain_sent-last note [] p h = rw h refl
retain_sent-last note (q ∷ peers) p h =
    ap (kept (send note q)) (retain_sent-last note peers p h)
    ∙ kept-append (send note q) (retain_sent note peers) _

-- The last connection, after messages
queued : List Note → Peer
queued notes = record { queue = notes; stream = []; running = true }

last-append {ℓ} : {A : Type ℓ} (xs : List A) (x : A) → last? (xs ++ x ∷ []) ≡ some x
last-append [] x = refl
last-append (y ∷ []) x = refl
last-append (y ∷ z ∷ xs) x = last-append (z ∷ xs) x

send_all-last :
    (notes sent : List Note) (peers : List Peer)
    → last? (send_all notes (record { peers = peers ++ queued sent ∷ []; bound = true })).peers
      ≡ some (queued (sent ++ notes))
unfolding send_all send_message queued
send_all-last [] sent peers =
    last-append peers (queued sent) ∙ ap (λ s. some (queued s)) (sym (append-nil sent))
send_all-last (note ∷ notes) sent peers =
    ap (λ ps. last? (send_all notes (record { peers = ps; bound = true })).peers)
      (retain_sent-last note peers (queued sent) refl)
    ∙ send_all-last notes (sent ++ note ∷ []) (retain_sent note peers)
    ∙ ap (λ s. some (queued s)) (append_assoc sent (note ∷ []) notes)

accept_bound :
    (n : UdsNotifier)
    → n.bound ≡ true
    → accept n ≡ record { peers = n.peers ++ queued [] ∷ []; bound = true }
unfolding queued
accept_bound n h = ap (λ b. record { peers = n.peers ++ connected ∷ []; bound = b }) h

-- What a bound notifier sends to a connection, whatever others it has, arrives whole and in order:
-- the connection is still there after the messages, and where its thread writes them all, a listener
-- that reads the bytes line by line has exactly these notes as its log.
pub send_all-aggregate :
    (encode : Note → Text) (decode : Text → Option Note) (n : UdsNotifier) (notes : List Note)
    → IsJson encode decode
    → n.bound ≡ true
    → (p : Peer) × (last? (send_all notes (accept n)).peers ≡ some p)
      × Represents notes (
          aggregate decode
            (reads (handle_conn encode (map (λ _. none) notes) p).stream)
            empty_aggregate)
unfolding queued
send_all-aggregate encode decode n notes json h = (
  queued notes,
  ap (λ m. last? (send_all notes m).peers) (accept_bound n h) ∙ send_all-last notes [] n.peers,
  rw (handle_conn-written encode notes []) (
      rw (log_of-written encode decode json notes) at
        (aggregate-refines_log decode (reads (written encode notes)))),
)
