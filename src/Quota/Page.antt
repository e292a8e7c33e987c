-- ===== src/Quota/Page.antt =====
-- `QuotaService.listUsage`, and what a client reads that follows the cursors.
use birthub_360_innovation.Base.{
  ℕ, zero, suc, String, Bool, List, [], ◌∷◌, ◌++◌, map, Option, none, some, ltb, if◌then◌else◌,
  str_eq, length, get_elem?, take, filter,
}
use birthub_360_innovation.Quota.{QuotaRow, Store}
use birthub_360_innovation.Quota.Consume.{resolve_tenant_id}

abbrev pub ids : List QuotaRow → List String
ids = map (λ q. q.id)

-- The rows in the order of their ids; `before` is the order of the database.
unfoldable pub insert_ordered : (String → String → Bool) → QuotaRow → List QuotaRow → List QuotaRow
insert_ordered before q [] = q ∷ []
insert_ordered before q (x ∷ xs) =
    let rest = insert_ordered before q xs in if before x.id q.id then x ∷ rest else q ∷ x ∷ xs

unfoldable pub order_by_id : (String → String → Bool) → List QuotaRow → List QuotaRow
order_by_id before [] = []
order_by_id before (q ∷ qs) = insert_ordered before q (order_by_id before qs)

-- The rows behind that of the cursor: none where there is no such row.
unfoldable pub after_cursor : String → List QuotaRow → List QuotaRow
after_cursor cursor [] = []
after_cursor cursor (x ∷ xs) =
    let rest = after_cursor cursor xs in if str_eq x.id cursor then xs else rest

abbrev pub from_cursor : Option String → List QuotaRow → List QuotaRow
from_cursor none rows = rows
from_cursor (some cursor) rows = if str_eq cursor "" then rows else after_cursor cursor rows

abbrev pub id_of : Option QuotaRow → Option String
id_of none = none
id_of (some q) = some q.id

-- `rows[size - 1]?.id ?? null`
abbrev pub last_id : ℕ → List QuotaRow → Option String
last_id zero rows = none
last_id (suc m) rows = id_of (get_elem? rows m)

unfoldable pub tenant_rows : (String → String → Bool) → String → Store → List QuotaRow
tenant_rows before reference s =
    order_by_id before (filter (λ q. str_eq q.tenant_id (resolve_tenant_id reference s)) s.quotas)

unfoldable pub page : List QuotaRow → Option String → ℕ → List QuotaRow × Option String
page ordered cursor size =
    let rows = take (suc size) (from_cursor cursor ordered) in
    (take size rows, if ltb size (length rows) then last_id size rows else none)

-- The items and the next cursor.
unfoldable pub list_usage :
    (String → String → Bool) → String → Option String → ℕ → Store → List QuotaRow × Option String
list_usage before reference cursor size s = page (tenant_rows before reference s) cursor size

-- The items of the pages from a cursor on, as long as there is a next one.
abbrev pub then_pages : List QuotaRow × Option String → (String → List QuotaRow) → List QuotaRow
then_pages (items, none) more = items
then_pages (items, some id) more = items ++ more id

unfoldable pub all_pages :
    (String → String → Bool) → String → ℕ → Store → ℕ → Option String → List QuotaRow
all_pages before reference size s zero cursor = []
all_pages before reference size s (suc fuel) cursor =
    then_pages (list_usage before reference cursor size s)
      (λ id. all_pages before reference size s fuel (some id))
