-- ===== src/Query/Mapped.antt =====
-- src/mapped.rs: a query whose rows are converted by a closure.
use sqly.Row.{Row}
use sqly.Error.{Error, Result, ok, ok_or, map_ok}
use sqly.Foreign.{Foreign}
use sqly.Shared.{Option, List, none, some}
use sqly.Sqlx.{Io, Mode, lift, ◌>>=◌}
use sqly.Driver.{Output}
use sqly.Query.Defs.{fetch_optional, fetch_all, convert_all}

-- `FromRow` for `Row`.
abbrev pub same_row : {F : Foreign} → Row F → Result (Row F)
same_row row = ok row

-- `.map(mapper).transpose()`
abbrev map_found : {A T : Type 0} → (A → Result T) → Option A → Result (Option T)
map_found mapper none = ok none
map_found mapper (some row) = map_ok some (mapper row)

module _ {F : Foreign} {S : Type 0} (target : Mode → Io S (Output F)) {T : Type 0}
    (mapper : Row F → Result T) where
  unfoldable pub mapped_optional : Io S (Option T)
  mapped_optional = do found ← fetch_optional target same_row; lift (map_found mapper found)

  unfoldable pub mapped_one : Io S T
  unfolding mapped_optional
  mapped_one = do found ← mapped_optional; lift (ok_or Error.row_not_found found)

  unfoldable pub mapped_all : Io S (List T)
  mapped_all = do rows ← fetch_all target same_row; lift (convert_all mapper rows)
