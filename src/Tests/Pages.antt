-- ===== src/Tests/Pages.antt =====
-- The theorems on the queries of the memory store at concrete inputs.
use active_ts.Prelude.{
  ℕ, ◌≡◌, ◌≤◌, refl, true, none, some, List, [], ◌∷◌, All, concat, length, if◌then◌else◌, arith,
}
use mathlib.Core.List.{Perm, Pairwise, Pairwise-pair}
use active_ts.Prelude.Int.{pos}
use active_ts.Prelude.Text.{String, str_eq}
use active_ts.Cursor.{
  CursorSort, desc, Row, nothing, number, string, compare_values, compare_int, compare_nat,
}
use active_ts.Cursor.Pages.{IsSorted}
use active_ts.Errors.{ok, throw, validation}
use active_ts.MemoryStore.Query.Sort.{sort_memory_rows}
use active_ts.MemoryStore.Query.Merges.{IsAscending}
use active_ts.MemoryStore.Query.Stable.{equal_to}
use active_ts.MemoryStore.Query.Sorts.{compare_by, sort_memory_rows_lem}
use active_ts.MemoryStore.Query.Ids.{DifferIn}
use active_ts.MemoryStore.Query.Page.{QueryResult, query, sort_with_stable_id}
use active_ts.MemoryStore.Query.Walk.{Walks, query-Walks}
use active_ts.MemoryStore.Query.LongCursors.{query-throw}

abbrev person : ℕ → String → Row
person id name field =
    if str_eq field "id"
    then number (pos id)
    else if str_eq field "name"
    then string name
    else nothing

abbrev by_name : List CursorSort
by_name = record { field = "name"; direction = desc } ∷ []

abbrev people : List Row
people = person 2 "Ada" ∷ person 1 "Ada" ∷ []

ids_differ : Pairwise (DifferIn "id") people
unfolding compare_values compare_int compare_nat
ids_differ = (Pairwise-pair (λ a b. (hlevel))).1 (λ e. cc e)

sort_memory_rows_lem_example :
    Perm (sort_memory_rows by_name people) people
    × IsAscending (compare_by by_name) (sort_memory_rows by_name people)
    × ((row : Row)
        → equal_to (compare_by by_name) row (sort_memory_rows by_name people)
          ≡ equal_to (compare_by by_name) row people)
sort_memory_rows_lem_example = sort_memory_rows_lem by_name people

query-Walks_example :
    (pages : List (List Row)) × Walks
      (λ c. 100)
      (record { sort = by_name; cursor = none; offset = none; limit = some 1 })
      "id"
      people
      none
      pages
    × All (λ page. length page ≤ 1) pages
    × Perm (concat pages) people
    × IsSorted (sort_with_stable_id by_name "id") (concat pages)
query-Walks_example =
    query-Walks (λ c. 100) by_name "id" 1 people refl (λ row member. omega arith) ids_differ

query-throw_example :
    (result : QueryResult) × (query
        (λ c. 5000)
        (record { sort = by_name; cursor = none; offset = none; limit = some 1 })
        "id"
        people
      ≡ ok result)
    × (result.more ≡ true)
    × (query
          (λ c. 5000)
          (record { sort = by_name; cursor = result.cursor; offset = none; limit = some 1 })
          "id"
          people
        ≡ throw validation)
query-throw_example =
    query-throw (λ c. 5000) by_name "id" 1 people refl (omega arith) (λ row member. omega arith)
