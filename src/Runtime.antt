-- ===== src/Runtime.antt =====
-- What backend/src/app takes from Python's text tables and `uuid` module. Their code is not in the
-- repository, so they are a parameter with the documented facts that the code relies on.
use ndma_edit.Prelude.{ℕ, Text, ◌≡◌, Option, some, strip}

-- A `uuid.UUID`, by its 128-bit integer.
abbrev pub Uuid : Type 0
Uuid = ℕ

pub record Runtime : Type 0 where
  -- `str.lower`
  pub lower : Text → Text
  -- `uuid.UUID(text)`; `none` is its ValueError
  pub parse_uuid : Text → Option Uuid
  -- `str(uuid)`
  pub format_uuid : Uuid → Text
  -- Lower case is stable, and case mapping neither makes nor removes whitespace at the ends.
  pub lower_idem : (s : Text) → lower (lower s) ≡ lower s
  pub strip-lower : (s : Text) → strip (lower s) ≡ lower (strip s)
  pub parse-format : (u : Uuid) → parse_uuid (format_uuid u) ≡ some u
