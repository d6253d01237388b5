-- ===== src/Metadata/Found.antt =====
-- The row behind an answer of `Get`.
use go_image_service.Base.{String, ◌≡◌, some, Result, ok}
use go_image_service.Metadata.Table.{Row, Table, GetSpec, found, absent, unavailable}

pub row_of :
    {t : Table} {id : String} {result : Result (String × String × String)}
    → GetSpec t id result
    → (st owner ct : String) → result ≡ ok (st, owner, ct)
    → (row : Row) × (t id ≡ some row)
      × (row.status ≡ st)
      × (row.user_id ≡ owner)
      × (row.content_type ≡ ct)
row_of (found row here) st owner ct e = (row, here, status_eq, owner_eq, type_eq)
  where
    status_eq : row.status ≡ st
    status_eq = cc

    owner_eq : row.user_id ≡ owner
    owner_eq = cc

    type_eq : row.content_type ≡ ct
    type_eq = cc
row_of (absent _) st owner ct e = cc
row_of (unavailable _ _) st owner ct e = cc
