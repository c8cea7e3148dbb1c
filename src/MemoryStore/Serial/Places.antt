-- ===== src/MemoryStore/Serial/Places.antt =====
-- src/adapters/store/memory.ts: how the change that is marked for a row keeps up with the row.
use active_ts.Prelude.{
  ℕ, ◌≡◌, refl, sym, Bool, true, Option, none, some, if◌then◌else◌, Bool-cases, inl, inr,
}
use active_ts.Prelude.Text.{String}
use active_ts.Prelude.Nested.{
  Nested, find, same_place, find-put, find-drop_tidy, find-same_place, IsNested, put-IsNested,
  drop_tidy-IsNested,
}
use active_ts.DataValue.{DataValue, clone_safe_data}
use active_ts.Errors.{ok}
use active_ts.MemoryStore.Rows.{is_some, check_version, check_delete}
use active_ts.MemoryStore.Commit.{DirtyChange, creates, updates, deletes}
use active_ts.MemoryStore.Transaction.{created, updated, mark_deleted, mark_delete}

-- What a change leaves in its place.
abbrev pub value_of : DirtyChange → Option DataValue
value_of (creates v) = some v
value_of (updates v expected) = some v
value_of (deletes expected) = none

-- The row of a change clones to itself.
abbrev pub IsClean : DirtyChange → Type 0
IsClean (creates v) = clone_safe_data v ≡ ok v
IsClean (updates v expected) = clone_safe_data v ≡ ok v
IsClean (deletes expected) = Unit

-- A change that can be made of a row.
abbrev pub Fits : Option DataValue → DirtyChange → Type 0
Fits before (creates v) = before ≡ none
Fits before (updates v expected) = (is_some before ≡ true) × (check_version before expected ≡ ok tt)
Fits before (deletes expected) = (is_some before ≡ true) × (check_version before expected ≡ ok tt)

-- The change that is marked, if one is, is what made the row of what it was.
abbrev pub Overlaid : Option DataValue → Option DataValue → Option DirtyChange → Type 0
Overlaid before after none = after ≡ before
Overlaid before after (some change) =
    (after ≡ value_of change) × Fits before change × IsClean change

-- The mark of a row that is deleted.
abbrev pub deleted_mark : Bool → Option ℕ → Option DirtyChange → Option DirtyChange
deleted_mark existed expected none = if existed then some (deletes expected) else none
deleted_mark existed expected (some (creates v)) = none
deleted_mark existed expected (some (updates v first)) = some (deletes first)
deleted_mark existed expected (some (deletes first)) = some (deletes first)

check_version-check_delete :
    (row : DataValue) (expected : Option ℕ)
    → check_delete (some row) expected ≡ ok tt
    → check_version (some row) expected ≡ ok tt
check_version-check_delete row none h = refl
check_version-check_delete row (some e) h = h

module _ (before : Option DataValue) where
  pub created-Overlaid :
      (v : DataValue) (mark : Option DirtyChange)
      → clone_safe_data v ≡ ok v
      → Overlaid before none mark
      → Overlaid before (some v) (some (created v mark))
  created-Overlaid v none clean h = (refl, sym h, clean)
  created-Overlaid v (some (creates w)) clean h = absurd (cc (h.0))
  created-Overlaid v (some (updates w first)) clean h = absurd (cc (h.0))
  created-Overlaid v (some (deletes first)) clean h = (refl, h.1, clean)

  pub updated-Overlaid :
      (v : DataValue) (expected : Option ℕ) (after : Option DataValue) (mark : Option DirtyChange)
      → clone_safe_data v ≡ ok v
      → is_some after ≡ true
      → check_version after expected ≡ ok tt
      → Overlaid before after mark
      → Overlaid before (some v) (some (updated v expected mark))
  updated-Overlaid v expected after none clean there version h =
      (refl, (rw h at there, rw h at version), clean)
  updated-Overlaid v expected after (some (creates w)) clean there version h = (refl, h.1, clean)
  updated-Overlaid v expected after (some (updates w first)) clean there version h =
      (refl, h.1, clean)
  updated-Overlaid v expected after (some (deletes first)) clean there version h =
      absurd (cc (rw h.0 at there))

  pub deleted-Overlaid :
      (expected : Option ℕ) (after : Option DataValue) (mark : Option DirtyChange)
      → check_delete after expected ≡ ok tt
      → Overlaid before after mark
      → Overlaid before none (deleted_mark (is_some after) expected mark)
  deleted-Overlaid expected none none checked h = h
  deleted-Overlaid expected (some row) none checked h =
      (refl, (rw (sym h) refl, rw (sym h) (check_version-check_delete row expected checked)), tt)
  deleted-Overlaid expected after (some (creates v)) checked h = sym h.1
  deleted-Overlaid expected after (some (updates v first)) checked h = (refl, h.1, tt)
  deleted-Overlaid expected after (some (deletes first)) checked h = (refl, h.1, tt)

module _ (n k : String) (existed : Bool) (expected : Option ℕ) (dirty : Nested DirtyChange) where
  find-mark_deleted :
      (mark : Option DirtyChange)
      → find n k dirty ≡ mark
      → (i j : String)
      → find i j (mark_deleted n k existed expected mark dirty)
        ≡ (if same_place n k i j then deleted_mark existed expected mark else find i j dirty)
  unfolding mark_deleted
  find-mark_deleted none at i j = elim (Bool-cases existed) [
    | inl there ↦ rw there (find-put n k (deletes expected) dirty i j)
    | inr absent ↦ rw absent (sym (rw at at (find-same_place n k dirty i j)))
  ]
  find-mark_deleted (some (creates v)) at i j = find-drop_tidy n k dirty i j
  find-mark_deleted (some (updates v first)) at i j = find-put n k (deletes first) dirty i j
  find-mark_deleted (some (deletes first)) at i j = find-put n k (deletes first) dirty i j

  mark_deleted-IsNested :
      (mark : Option DirtyChange)
      → IsNested dirty
      → IsNested (mark_deleted n k existed expected mark dirty)
  unfolding mark_deleted
  mark_deleted-IsNested none g = elim (Bool-cases existed) [
    | inl there ↦ rw there (put-IsNested n k (deletes expected) dirty g)
    | inr absent ↦ rw absent g
  ]
  mark_deleted-IsNested (some (creates v)) g = drop_tidy-IsNested n k dirty g
  mark_deleted-IsNested (some (updates v first)) g = put-IsNested n k (deletes first) dirty g
  mark_deleted-IsNested (some (deletes first)) g = put-IsNested n k (deletes first) dirty g

  pub find-mark_delete :
      (i j : String)
      → find i j (mark_delete n k existed expected dirty) ≡ (
          if same_place n k i j
          then deleted_mark existed expected (find n k dirty)
          else find i j dirty)
  unfolding mark_delete
  find-mark_delete i j = find-mark_deleted (find n k dirty) refl i j

  pub mark_delete-IsNested : IsNested dirty → IsNested (mark_delete n k existed expected dirty)
  unfolding mark_delete
  mark_delete-IsNested g = mark_deleted-IsNested (find n k dirty) g
