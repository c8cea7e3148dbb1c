-- ===== src/MemoryStore/Serial/Effects.antt =====
-- src/adapters/store/memory.ts: what the last loop of `applyDirty` does to the rows.
use active_ts.Prelude.{
  ℕ, ◌+◌, ◌≡◌, refl, ◌∙◌, ap, sym, Option, none, some, List, [], ◌∷◌, if◌then◌else◌, Bool-cases,
  inl, inr,
}
use active_ts.Prelude.Text.{String}
use active_ts.Prelude.Nested.{
  find, same_place, same_place-true, same_place_refl, find-put, find-drop_entry, find-same_place,
}
use active_ts.DataValue.{DataValue, clone_safe_data}
use active_ts.Errors.{Result, ok}
use active_ts.MemoryStore.Rows.{MemoryStore, set_row, unset_row}
use active_ts.MemoryStore.Commit.{
  DirtyChange, creates, updates, deletes, Entry, write_value, delete_value, apply_change,
  apply_changes,
}
use active_ts.MemoryStore.Serial.Entries.{found, IsDistinct}
use active_ts.MemoryStore.Serial.Places.{value_of, IsClean}

abbrev pub IsCleanMark : Option DirtyChange → Type 0
IsCleanMark none = Unit
IsCleanMark (some change) = IsClean change

-- A row under the change that is marked for it.
abbrev pub marked_row : Option DirtyChange → Option DataValue → Option DataValue
marked_row none row = row
marked_row (some change) row = value_of change

-- A change is applied, and its place gets its value.
record Applied (n k : String) (new : Option DataValue) (s : MemoryStore)
    (r : Result (MemoryStore × ℕ)) : Type 0 where
  after : MemoryStore
  next : ℕ
  returns : r ≡ ok (after, next)
  rows :
      (i j : String)
      → find i j after.collections ≡ (if same_place n k i j then new else find i j s.collections)

module _ (n k : String) (revision : ℕ) (s : MemoryStore) where
  write_value-Applied :
      (v : DataValue)
      → clone_safe_data v ≡ ok v
      → Applied n k (some v) s (write_value n k v revision s)
  unfolding write_value set_row
  write_value-Applied v clean = record {
    after = set_row n k v revision s;
    next = revision + 1;
    returns = rw clean refl;
    rows = λ i j. find-put n k v s.collections i j;
  }

  delete_value-Applied :
      (row : Option DataValue)
      → find n k s.collections ≡ row
      → Applied n k none s (delete_value n k row revision s)
  unfolding delete_value unset_row
  delete_value-Applied none at = record {
    after = s;
    next = revision;
    returns = refl;
    rows = λ i j. sym (rw at at (find-same_place n k s.collections i j));
  }
  delete_value-Applied (some row) at = record {
    after = unset_row n k revision s;
    next = revision + 1;
    returns = refl;
    rows = λ i j. find-drop_entry n k s.collections i j;
  }

  apply_change-Applied :
      (change : DirtyChange)
      → IsClean change
      → Applied n k (value_of change) s (apply_change n k change revision s)
  unfolding apply_change
  apply_change-Applied (creates v) clean = write_value-Applied v clean
  apply_change-Applied (updates v expected) clean = write_value-Applied v clean
  apply_change-Applied (deletes expected) clean = delete_value-Applied (find n k s.collections) refl

module _ (n k : String) (change : DirtyChange) (rest : List (Entry DirtyChange)) where
  marked_row-step :
      (i j : String) (row : Option DataValue)
      → found n k rest ≡ none
      → marked_row (found i j rest) (if same_place n k i j then value_of change else row)
        ≡ marked_row (found i j ((n, k, change) ∷ rest)) row
  unfolding found
  marked_row-step i j row distinct = elim (Bool-cases (same_place n k i j)) [
    | inr elsewhere ↦ rw elsewhere refl
    | inl here ↦
        let (first, second) = same_place-true n k i j here in
        rw (here, sym first, sym second, distinct) refl
  ]

  -- What holds of all marks holds of those of the rest.
  pub found-rest :
      (P : Option DirtyChange → Type 0) (i j : String)
      → found n k rest ≡ none
      → P none
      → P (found i j ((n, k, change) ∷ rest))
      → P (found i j rest)
  unfolding found
  found-rest P i j distinct at_none h = elim (Bool-cases (same_place n k i j)) [
    | inr elsewhere ↦ rw elsewhere at h
    | inl here ↦
        let (first, second) = same_place-true n k i j here in
        rw (sym first, sym second, distinct) at_none
  ]

  pub found-first : found n k ((n, k, change) ∷ rest) ≡ some change
  unfolding found
  found-first = rw (same_place_refl n k) refl

pub apply_changes_lem :
    (changes : List (Entry DirtyChange)) (revision : ℕ) (s : MemoryStore)
    → IsDistinct changes
    → ((i j : String) → IsCleanMark (found i j changes))
    → ((apply_changes changes revision s).1 ≡ ok tt)
      × ((i j : String)
          → find i j (apply_changes changes revision s).0.collections
            ≡ marked_row (found i j changes) (find i j s.collections))
unfolding apply_changes
apply_changes_lem [] revision s distinct clean = (refl, λ i j. unfold found in refl)
apply_changes_lem ((n, k, change) ∷ rest) revision s distinct clean =
    let applied =
      apply_change-Applied n k revision s change
        (rw (found-first n k change rest) at (clean n k)) in
    let (returns, rows) =
      apply_changes_lem rest applied.next applied.after distinct.1
        λ i j. found-rest n k change rest IsCleanMark i j distinct.0 tt (clean i j) in
    (
      rw (applied.returns, apply_changes) returns,
      λ i j.
          rw (applied.returns, apply_changes)
            (rows i j
              ∙ ap (marked_row (found i j rest)) (applied.rows i j)
              ∙ marked_row-step n k change rest i j (find i j s.collections) distinct.0),
    )
