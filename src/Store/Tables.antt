-- ===== src/Store/Tables.antt =====
-- The tables of `SqliteStore` in flowers/seams/store.py. A table is the list of its rows in the order
-- of `rowid` or `seq`; nothing is ever deleted. The lock makes each operation one step.
use flowers_oss.Base.{ℕ, ◌≡◌, Bool, Option, none, some, List, [], ◌∷◌}
use flowers_oss.Base.Text.{Text}
use flowers_oss.Base.Dict.{Dict}
use flowers_oss.Base.Value.{Fields}
use flowers_oss.Store.Json.{◌>>=◌}

-- What the code relies on of the library `json`, for the texts that the columns hold.
pub record Codec (Json : Type 0) : Type 0 where
  pub dumps : Fields → Json
  pub loads : Json → Fields
  pub loads-dumps : (d : Fields) → loads (dumps d) ≡ d

pub record EffectRow (Json : Type 0) : Type 0 where
  pub run_id : Text
  pub content : Json

pub record EventRow (Json : Type 0) : Type 0 where
  pub run_id : Text
  pub eid : ℕ
  pub content : Json

pub record NoteRow : Type 0 where
  pub run_id : Text
  pub text : Text
  pub consumed : Bool

pub record ApprovalRow (Json : Type 0) : Type 0 where
  pub run_id : Text
  pub content : Json
  pub answer : Option Text

pub record UsageRow (Json : Type 0) : Type 0 where
  pub run_id : Text
  pub kind : Text
  pub cost_usd : ℕ
  pub detail : Json

pub record Store (Json : Type 0) : Type 0 where
  pub runs : Dict Text Json
  pub plans : Dict Text Json
  pub effects : List (EffectRow Json)
  pub approvals : Dict Text (ApprovalRow Json)
  pub usage : List (UsageRow Json)
  pub continuations : Dict Text Json
  pub events : List (EventRow Json)
  pub run_notes : List NoteRow
  pub user_memory : Option Text
  pub trust_counts : Option Json
  pub browser_contexts : Dict Text Text

-- `_create_tables`, on a new file
abbrev pub new_store : {Json : Type 0} → Store Json
new_store = record {
  runs = [];
  plans = [];
  effects = [];
  approvals = [];
  usage = [];
  continuations = [];
  events = [];
  run_notes = [];
  user_memory = none;
  trust_counts = none;
  browser_contexts = [];
}

module _ {Json : Type 0} (c : Codec Json) where
  -- A row that was looked up, read; the outer none is an exception, the inner one no row.
  unfoldable pub load_row {ℓ} : {A : Type ℓ} → (Fields → Option A) → Option Json → Option (Option A)
  load_row read none = some none
  load_row read (some j) = read (c.loads j) >>= λ a. some (some a)

  -- The rows that were selected, read.
  unfoldable pub load_rows {ℓ} : {A : Type ℓ} → (Fields → Option A) → List Json → Option (List A)
  load_rows read [] = some []
  load_rows read (j ∷ rows) =
      read (c.loads j) >>= λ a. (load_rows read rows >>= λ found. some (a ∷ found))
