-- ===== src/Store/Notes.antt =====
-- The owner's notes that arrive while a run is driven: each is taken once.
use flowers_oss.Base.{
  ◌≡◌, refl, Bool, true, false, not, ◌&&◌, List, [], ◌∷◌, ◌++◌, ◌==◌, list_eq, nat_eq, keep, map,
  if◌then◌else◌, arith,
}
use mathlib.Core.List.{append-nil, append_assoc}
use flowers_oss.Base.Text.{Text}
use flowers_oss.Store.Tables.{Store, NoteRow, new_store}

-- `run_id = ? AND consumed = 0`
abbrev is_pending : Text → NoteRow → Bool
is_pending run_id r = r.run_id == run_id && not r.consumed

abbrev consume : Text → NoteRow → NoteRow
consume run_id r = if is_pending run_id r then record r { consumed = true } else r

-- The texts of the rows that wait, in order of `seq`.
unfoldable pub waiting_notes : Text → List NoteRow → List Text
unfolding list_eq nat_eq
waiting_notes run_id rows = map (λ r. r.text) (keep (is_pending run_id) rows)

unfoldable pub consume_all : Text → List NoteRow → List NoteRow
unfolding list_eq nat_eq
consume_all run_id rows = map (consume run_id) rows

module _ {Json : Type 0} where
  unfoldable pub add_note : Text → Text → Store Json → Store Json
  add_note run_id text s = record s {
    run_notes = s.run_notes ++ (record { run_id = run_id; text = text; consumed = false } ∷ []);
  }

  unfoldable pub take_notes : Text → Store Json → Store Json × List Text
  unfolding waiting_notes consume_all
  take_notes run_id s =
      (record s { run_notes = consume_all run_id s.run_notes }, waiting_notes run_id s.run_notes)

pub data NoteOp : Type 0 where
  add : Text → Text → NoteOp
  take : Text → NoteOp

-- The notes that some operations add for a run, in order.
unfoldable pub added : Text → List NoteOp → List Text
unfolding list_eq nat_eq
added run_id [] = []
added run_id (add i text ∷ ops) = if i == run_id then text ∷ added run_id ops else added run_id ops
added run_id (take i ∷ ops) = added run_id ops

module _ {Json : Type 0} where
  unfoldable pub exec : NoteOp → Store Json → Store Json
  unfolding add_note take_notes
  exec (add i text) s = add_note i text s
  exec (take i) s = (take_notes i s).0

  -- The notes that some operations hand out for a run, in order.
  unfoldable pub taken : Text → List NoteOp → Store Json → List Text
  unfolding take_notes list_eq nat_eq exec
  taken run_id [] s = []
  taken run_id (add i text ∷ ops) s = taken run_id ops (exec (add i text) s)
  taken run_id (take i ∷ ops) s =
      let rest = taken run_id ops (exec (take i) s) in
      if i == run_id then (take_notes i s).1 ++ rest else rest

  unfoldable pub exec_all : List NoteOp → Store Json → Store Json
  unfolding exec
  exec_all [] s = s
  exec_all (op ∷ ops) s = exec_all ops (exec op s)

waiting_notes-append_one :
    (j i text : Text) (rows : List NoteRow)
    → waiting_notes j (rows ++ (record { run_id = i; text = text; consumed = false } ∷ []))
      ≡ waiting_notes j rows ++ (if i == j then text ∷ [] else [])
unfolding waiting_notes
waiting_notes-append_one j i text [] = ground arith
waiting_notes-append_one j i text (r ∷ rows) =
    ground (arith, waiting_notes-append_one j i text rows)

waiting_notes-consume_all :
    (j i : Text) (rows : List NoteRow)
    → waiting_notes j (consume_all i rows) ≡ (if i == j then [] else waiting_notes j rows)
unfolding waiting_notes consume_all
waiting_notes-consume_all j i [] = ground arith
waiting_notes-consume_all j i (r ∷ rows) = ground (arith, waiting_notes-consume_all j i rows)

module _ {Json : Type 0} where
  taken-append-waiting :
      (j : Text) (ops : List NoteOp) (s : Store Json)
      → taken j ops s ++ waiting_notes j (exec_all ops s).run_notes
        ≡ waiting_notes j s.run_notes ++ added j ops
  unfolding taken exec_all added exec add_note take_notes
  taken-append-waiting j [] s = rw (append-nil (waiting_notes j s.run_notes)) refl
  taken-append-waiting j (add i text ∷ ops) s = ground (
    arith,
    taken-append-waiting j ops (exec (add i text) s),
    waiting_notes-append_one j i text s.run_notes,
    append_assoc (waiting_notes j s.run_notes) (text ∷ []) (added j ops),
    append-nil (waiting_notes j s.run_notes),
  )
  taken-append-waiting j (take i ∷ ops) s = ground (
    arith,
    taken-append-waiting j ops (exec (take i) s),
    waiting_notes-consume_all j i s.run_notes,
    append_assoc (waiting_notes i s.run_notes) (taken j ops (exec (take i) s))
        (waiting_notes j (exec_all ops (exec (take i) s)).run_notes),
  )

-- Over any sequence of additions and takes, for any runs, from a new store on, the notes that were
-- taken for a run and those that still wait are together the notes that were added for it, each once
-- and in order.
pub taken_once :
    (Json : Type 0) (j : Text) (ops : List NoteOp)
    → taken j ops (new_store {Json = Json})
        ++ waiting_notes j (exec_all ops (new_store {Json = Json})).run_notes
      ≡ added j ops
unfolding waiting_notes
taken_once Json j ops = taken-append-waiting j ops new_store
