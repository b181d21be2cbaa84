-- ===== src/Store/Approvals.antt =====
-- The questions to the owner and the answers, and the other tables with one row for each key.
use flowers_oss.Base.{
  ◌≡◌, ◌&&◌, Option, none, some, [], ◌==◌, list_eq, nat_eq, if◌then◌else◌, arith, Option-cases, inl,
  inr,
}
use flowers_oss.Base.Text.{Text}
use flowers_oss.Base.Dict.{lookup, insert, lookup-insert, is_some}
use flowers_oss.Base.Value.{Fields}
use flowers_oss.Types.Run.{Question}
use flowers_oss.Store.Runs.{approval_to_dict, approval_from_dict}
use flowers_oss.Store.Roundtrip.Runs.{approval_from_dict-approval_to_dict}
use flowers_oss.Store.Tables.{Codec, Store, ApprovalRow, load_row}

-- The answer that a row holds; none is NULL.
abbrev answer_of : {Json : Type 0} → Option (ApprovalRow Json) → Option Text
answer_of none = none
answer_of (some r) = r.answer

abbrev content_of : {Json : Type 0} → Option (ApprovalRow Json) → Option Json
content_of none = none
content_of (some r) = some r.content

module _ {Json : Type 0} where
  -- An update of a row that is not there does nothing.
  unfoldable pub resolve_approval : Text → Text → Store Json → Store Json
  resolve_approval id answer s = elim (lookup id s.approvals) [
    | none ↦ s
    | some r ↦ record s { approvals = insert id (record r { answer = some answer }) s.approvals }
  ]

  unfoldable pub get_answer : Text → Store Json → Option Text
  get_answer id s = answer_of (lookup id s.approvals)

  -- `get_memory`, `save_memory`
  unfoldable pub get_memory : Store Json → Text
  get_memory s = elim s.user_memory [ none ↦ [] | some content ↦ content ]

  unfoldable pub save_memory : Text → Store Json → Store Json
  save_memory content s = record s { user_memory = some content }

  -- `get_browser_context`, `save_browser_context`
  unfoldable pub get_browser_context : Text → Store Json → Option Text
  get_browser_context site s = lookup site s.browser_contexts

  unfoldable pub save_browser_context : Text → Text → Store Json → Store Json
  save_browser_context site id s = record s { browser_contexts = insert site id s.browser_contexts }

module _ {Json : Type 0} (c : Codec Json) where
  -- The row of a question; one that is there keeps its answer.
  abbrev row_of_question : Question → Store Json → ApprovalRow Json
  row_of_question a s = record {
    run_id = a.run_id;
    content = c.dumps (approval_to_dict a);
    answer = answer_of (lookup a.id s.approvals);
  }

  unfoldable pub save_approval : Question → Store Json → Store Json
  save_approval a s = record s { approvals = insert a.id (row_of_question a s) s.approvals }

  unfoldable pub get_approval : Text → Store Json → Option (Option Question)
  get_approval id s = load_row c approval_from_dict (content_of (lookup id s.approvals))

  unfoldable pub save_continuation : Text → Fields → Store Json → Store Json
  save_continuation run_id d s = record s {
    continuations = insert run_id (c.dumps d) s.continuations;
  }

  unfoldable pub get_continuation : Text → Store Json → Option Fields
  get_continuation run_id s = elim (lookup run_id s.continuations) [
    | none ↦ none
    | some j ↦ some (c.loads j)
  ]

  unfoldable pub get_trust : Store Json → Fields
  get_trust s = elim s.trust_counts [ none ↦ Fields.end | some j ↦ c.loads j ]

  unfoldable pub save_trust : Fields → Store Json → Store Json
  save_trust counts s = record s { trust_counts = some (c.dumps counts) }

  -- A question that was saved is read back, the other questions stay as they were, and no answer
  -- is lost or made up by it; an answer reaches exactly the question that it is given to, if there is
  -- such a question, and leaves all questions as they were.
  pub approvals_lem :
      (a : Question) (i j answer : Text) (s : Store Json)
      → (get_approval j (save_approval a s)
          ≡ (if j == a.id then some (some a) else get_approval j s))
        × (get_answer j (save_approval a s) ≡ get_answer j s)
        × (get_answer j (resolve_approval i answer s)
            ≡ (if j == i && is_some (lookup i s.approvals) then some answer else get_answer j s))
        × (get_approval j (resolve_approval i answer s) ≡ get_approval j s)
  unfolding get_approval save_approval get_answer resolve_approval load_row
  approvals_lem a i j answer s = (
    ground (
      arith,
      lookup-insert j a.id (row_of_question a s) s.approvals,
      c.loads-dumps (approval_to_dict a),
      approval_from_dict-approval_to_dict a,
    ),
    ground (arith, lookup-insert j a.id (row_of_question a s) s.approvals),
    elim (Option-cases (lookup i s.approvals)) [
      | inl e ↦ ground arith
      | inr (r, e) ↦
          ground (arith, lookup-insert j i (record r { answer = some answer }) s.approvals)
    ],
    elim (Option-cases (lookup i s.approvals)) [
      | inl e ↦ ground arith
      | inr (r, e) ↦
          ground (arith, lookup-insert j i (record r { answer = some answer }) s.approvals)
    ],
  )
