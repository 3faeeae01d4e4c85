-- ===== src/Application/Dto.antt =====
-- backend/src/app/application/users/dto/user_dto.py and
-- backend/src/app/application/common/dto/pagination.py.
use ndma_edit.Prelude.{ℕ, ◌+◌, ℤ, Text, List, Bool, not, length, ltb, between, is_negative, codes}
use ndma_edit.Outcome.{Outcome, ok, value_error, ◌>>◌, raise_if}
use ndma_edit.Runtime.{Runtime}
use ndma_edit.Domain.Aggregate.{Time}
use ndma_edit.Domain.User.{User, status_value}

pub record UserDto : Type 0 where
  pub id : Text
  pub email : Text
  pub display_name : Text
  pub status : Text
  pub registered_at : Time
  pub version : ℕ

-- `UserDTO.from_domain`
unfoldable pub from_domain : Runtime → User → UserDto
from_domain rt u = record {
  id = rt.format_uuid u.id;
  email = u.email.value;
  display_name = u.display_name.value;
  status = status_value u.status;
  registered_at = u.registered_at;
  version = u.version;
}

pub record Page (A : Type 0) : Type 0 where
  pub items : List A
  pub total : ℕ
  pub offset : ℕ
  pub limit : ℕ

unfoldable pub has_next : {A : Type 0} → Page A → Bool
has_next p = ltb (p.offset + length p.items) p.total

unfoldable pub has_previous : {A : Type 0} → Page A → Bool
has_previous p = ltb 0 p.offset

-- `DEFAULT_PAGE_SIZE` and `MAX_PAGE_SIZE`
abbrev pub default_page_size : ℕ
default_page_size = 20

abbrev pub max_page_size : ℕ
max_page_size = 100

pub record PageRequest : Type 0 where
  pub offset : ℤ
  pub limit : ℤ

-- `PageRequest(offset, limit)`, with `__post_init__`.
unfoldable pub new_page_request : ℤ → ℤ → Outcome PageRequest
new_page_request offset limit = do
  raise_if (is_negative offset) (value_error (codes "offset must be >= 0"))
  raise_if (not (between 1 max_page_size limit))
      (value_error (codes "limit must be between 1 and 100"))
  ok (record { offset = offset; limit = limit })
